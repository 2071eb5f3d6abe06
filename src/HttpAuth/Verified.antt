-- ===== src/HttpAuth/Verified.antt =====
-- Which requests the middleware lets through.
use axiaops.Common.{
  Option-cases, In, ◌==◌, string_eq, nat_eq, ℕ, String, ◌≡◌, refl, sym, ap, ◌∙◌, ◌↔◌, inl, inr,
  Bool, true, false, not, ◌||◌, ◌<◌, Option, none, some, List, [], ◌∷◌, arith,
}
use axiaops.Common.Int.{ℤ}
use axiaops.HttpAuth.Skew.{in_window, far_ahead, is_skewed-in_window, verify-read, check_mac-same}
use axiaops.HttpAuth.{
  max_duration, Wire, VerifyError, is_skewed, canonical, sign_raw, check_mac, verify_parsed, verify,
  tried, try_secrets, active, Request, next, is_empty, judge, verify_request, answer_read,
  multi_secret_middleware,
}

-- Some secret of a list passes the check.
abbrev pub SomePasses : (String → Option VerifyError) → List String → Type 0
SomePasses check secrets = (s : String) × In s secrets × (check s ≡ none)

tried-matched :
    (err : Option VerifyError) (found : Bool × Option VerifyError)
    → found.0 ≡ true
    → (tried err found).0 ≡ true
tried-matched none (m, last_err) h = refl
tried-matched (some err) (m, last_err) h = h

try_secrets-matched :
    (check : String → Option VerifyError) (secrets : List String)
    (found : Bool × Option VerifyError)
    → found.0 ≡ true
    → (try_secrets check secrets found).0 ≡ true
unfolding try_secrets
try_secrets-matched check [] found h = h
try_secrets-matched check (s ∷ secrets) found h =
    try_secrets-matched check secrets (tried (check s) found) (tried-matched (check s) found h)

pub try_secrets-passes :
    (check : String → Option VerifyError) (secrets : List String)
    (found : Bool × Option VerifyError)
    → SomePasses check secrets
    → (try_secrets check secrets found).0 ≡ true
unfolding try_secrets
try_secrets-passes check [] found (s, h, e) = elim h [ ]
try_secrets-passes check (t ∷ secrets) (m, last_err) (s, inl same, e) =
    let at : check t ≡ none = ap check (sym same) ∙ e in
    try_secrets-matched check secrets (tried (check t) (m, last_err)) (rw at refl)
try_secrets-passes check (t ∷ secrets) found (s, inr h, e) =
    try_secrets-passes check secrets (tried (check t) found) (s, h, e)

pub passes-try_secrets :
    (check : String → Option VerifyError) (secrets : List String) (last_err : Option VerifyError)
    → (try_secrets check secrets (false, last_err)).0 ≡ true
    → SomePasses check secrets
unfolding try_secrets
passes-try_secrets check [] last_err e = cc
passes-try_secrets check (t ∷ secrets) last_err e = elim (Option-cases (check t)) [
  | inl k ↦ (t, inl refl, k)
  | inr (err, k) ↦
      (let (s, h, p) =
          passes-try_secrets check secrets (some err)
            (ap (λ o. (try_secrets check secrets (tried o (false, last_err))).0) (sym k) ∙ e) in
        (s, inr h, p))
]

-- The headers of a request are those of its signature under a secret, at a time in the window, or
-- ahead by 2 ^ 63 nanoseconds or more.
abbrev pub Signed : Wire → ℕ → ℕ → Request → String → String → Type 0
Signed w max_skew now r body secret =
    (ts : ℤ) × (r.timestamp_header == "" ≡ false)
    × (r.signature_header == "" ≡ false)
    × (w.parse_int r.timestamp_header ≡ some ts)
    × (w.decode r.signature_header ≡ some (w.hmac secret (canonical w ts r.method r.path body)))
    × ((in_window max_skew now ts || far_ahead now ts) ≡ true)

accepted :
    (max_skew now : ℕ) (ts : ℤ)
    → max_skew < max_duration
    → (is_skewed max_skew now ts ≡ false) ↔ ((in_window max_skew now ts || far_ahead now ts) ≡ true)
accepted max_skew now ts h =
    let e = is_skewed-in_window max_skew now ts h in
    (λ ok. ground (arith, e, ok), λ ok. e ∙ ap not ok)

verify-named :
    (w : Wire) (secret : String) (max_skew now : ℕ) (header signature method path body : String)
    → verify w secret max_skew now header signature method path body ≡ none
    → (header == "" ≡ false) × (signature == "" ≡ false)
unfolding verify
verify-named w secret max_skew now header signature method path body e =
    (ground (arith, e), ground (arith, e))

verify-parsed :
    (w : Wire) (secret : String) (max_skew now : ℕ) (header signature method path body : String)
    → verify w secret max_skew now header signature method path body ≡ none
    → (ts : ℤ) × (mac : String) × (w.parse_int header ≡ some ts) × (w.decode signature ≡ some mac)
unfolding verify verify_parsed
verify-parsed w secret max_skew now header signature method path body e =
    elim (Option-cases (w.parse_int header)) [
      | inl p ↦ ground (arith, e, p)
      | inr (ts, p) ↦ elim (Option-cases (w.decode signature)) [
        | inl d ↦ ground (arith, e, p, d)
        | inr (mac, d) ↦ (ts, mac, p, d)
      ]
    ]

check_mac-none :
    (w : Wire) (max_skew now : ℕ) (ts : ℤ) (expected provided : String)
    → check_mac w max_skew now ts expected provided ≡ none
    → (provided ≡ expected) × (is_skewed max_skew now ts ≡ false)
unfolding check_mac
check_mac-none w max_skew now ts expected provided e = (ground (arith, e), ground (arith, e))

pub verify-Signed :
    (w : Wire) (max_skew now : ℕ) (r : Request) (body secret : String)
    → max_skew < max_duration
    → verify_request w max_skew now r body secret ≡ none
    → Signed w max_skew now r body secret
unfolding verify_request sign_raw
verify-Signed w max_skew now r body secret h e =
    let (n₁, n₂) =
      verify-named w secret max_skew now r.timestamp_header r.signature_header r.method r.path body
        e in
    let (ts, mac, p, d) =
      verify-parsed w secret max_skew now r.timestamp_header r.signature_header r.method r.path body
        e in
    let (same, ok) =
      check_mac-none w max_skew now ts (sign_raw w secret ts r.method r.path body) mac (
        sym (
          verify-read w secret max_skew now r.timestamp_header r.signature_header r.method r.path
            body ts mac n₁ n₂ p d)
        ∙ e) in
    (ts, n₁, n₂, p, d ∙ ap some same, (accepted max_skew now ts h).0 ok)

Signed-verify :
    (w : Wire) (max_skew now : ℕ) (r : Request) (body secret : String)
    → max_skew < max_duration
    → Signed w max_skew now r body secret
    → verify_request w max_skew now r body secret ≡ none
unfolding verify_request check_mac sign_raw
Signed-verify w max_skew now r body secret h (ts, n₁, n₂, p, d, ok) =
    verify-read w secret max_skew now r.timestamp_header r.signature_header r.method r.path body ts
      (sign_raw w secret ts r.method r.path body) n₁ n₂ p d
    ∙ check_mac-same w max_skew now ts (sign_raw w secret ts r.method r.path body)
    ∙ rw ((accepted max_skew now ts h).1 ok) refl

judge-next : (found : Bool × Option VerifyError) → (judge false found ≡ next) ↔ (found.0 ≡ true)
judge-next (true, err) = (λ e. refl, λ e. refl)
judge-next (false, err) = (λ e. cc, λ e. cc)

-- With a secret in use, and enforcement not soft, a request whose body is read goes on exactly
-- if its headers are the timestamp and the signature of this very request under one of the secrets
-- in use, wherever it stands among them, with the timestamp one that Go has a time for, and either
-- within the window of the clock on either side or 2 ^ 63 nanoseconds or more ahead of it. The window
-- is below the greatest duration.
pub multi_secret_middleware-next :
    (w : Wire) (max_skew now : ℕ) (secrets : List String) (r : Request) (body : String)
    → max_skew < max_duration
    → is_empty (active secrets) ≡ false
    → r.body ≡ some body
    → (multi_secret_middleware w max_skew now secrets false r ≡ next)
      ↔ ((s : String) × In s (active secrets) × Signed w max_skew now r body s)
unfolding multi_secret_middleware answer_read
multi_secret_middleware-next w max_skew now secrets r body h a b =
    let check = verify_request w max_skew now r body in
    let found = try_secrets check (active secrets) (false, none) in
    let same : multi_secret_middleware w max_skew now secrets false r ≡ judge false found =
      rw (a, b) refl in
    (
      λ e.
          (let (s, placed, p) =
              passes-try_secrets check (active secrets) none
                ((judge-next found).0 (sym same ∙ e)) in
            (s, placed, verify-Signed w max_skew now r body s h p)),
      λ (s, placed, p).
          same
          ∙ (judge-next found).1 (
              try_secrets-passes check (active secrets) (false, none)
                (s, placed, Signed-verify w max_skew now r body s h p)),
    )
