-- ===== src/HttpAuth.antt =====
-- The signatures of requests and of queue envelopes, services/shared/httpauth. Bytes are texts. The
-- MAC, its encoding, and the digits of numbers are a parameter, `Wire`. The clock is in
-- nanoseconds; a timestamp is an `int64` of seconds; a duration is an `int64` of nanoseconds, with the clamp of `Sub` and the overflow of `-` written out.
pub mod Skew
pub mod Verified
mod Tests
use axiaops.Common.{
  ltb, leb, if◌then◌else◌, ◌==◌, string_eq, nat_eq, ℕ, ◌+◌, ◌-◌, ◌*◌, ◌^◌, ◌<◌, String, ◌<>◌, Bool,
  true, false, not, ◌||◌, Option, none, some, List, [], ◌∷◌, arith,
}
use axiaops.Common.Int.{ℤ, pos, negsuc, unix_time}

-- What the code takes from Go's library: HMAC-SHA256 of a key and a text, base64, decimal numbers.
pub record Wire : Type 0 where
  pub hmac : String → String → String
  pub encode : String → String
  pub decode : String → Option String
  pub format_int : ℤ → String
  pub parse_int : String → Option ℤ

pub data VerifyError : Type 0 where
  missing_timestamp missing_signature malformed_timestamp malformed_signature : VerifyError
  timestamp_skew signature_mismatch : VerifyError

abbrev pub second : ℕ
second = 10 ^ 9

abbrev pub max_duration : ℕ
max_duration = 2 ^ 63 - 1

abbrev pub at_most : ℕ → ℕ → ℕ
at_most bound n = if ltb bound n then bound else n

-- `cur.Sub(ts)`, clamped to an `int64`.
unfoldable pub sub : ℕ → ℤ → ℤ
sub now (pos s) =
    if leb (s * second) now
    then pos (at_most max_duration (now - s * second))
    else negsuc (at_most max_duration (s * second - now - 1))
sub now (negsuc k) = pos (at_most max_duration (now + (k + 1) * second))

-- `-d` of a negative `int64`: the least one has no opposite, and stays.
abbrev pub negated : ℕ → ℤ
negated n = if ltb n max_duration then pos (n + 1) else negsuc n

-- `if delta < 0 { delta = -delta }`
abbrev pub magnitude : ℤ → ℤ
magnitude (pos n) = pos n
magnitude (negsuc n) = negated n

-- `delta > maxSkew`
abbrev pub exceeds : ℕ → ℤ → Bool
exceeds max_skew (pos n) = ltb max_skew n
exceeds max_skew (negsuc n) = false

unfoldable pub is_skewed : ℕ → ℕ → ℤ → Bool
unfolding sub
is_skewed max_skew now ts = exceeds max_skew (magnitude (sub now (unix_time ts)))

module _ (w : Wire) where
  unfoldable pub canonical : ℤ → String → String → String → String
  canonical ts method path body =
      w.format_int ts <> ("\n" <> (method <> ("\n" <> (path <> ("\n" <> body)))))

  -- `signRaw`
  unfoldable pub sign_raw : String → ℤ → String → String → String → String
  unfolding canonical
  sign_raw secret ts method path body = w.hmac secret (canonical ts method path body)

  -- `Sign`
  unfoldable pub sign : String → ℤ → String → String → String → String
  unfolding canonical
  sign secret ts method path body = w.encode (w.hmac secret (canonical ts method path body))

  -- The checks of the time and of the MAC, which both verifications end with.
  unfoldable pub check_mac : ℕ → ℕ → ℤ → String → String → Option VerifyError
  unfolding is_skewed
  check_mac max_skew now ts expected provided =
      if is_skewed max_skew now ts
      then some timestamp_skew
      else if not (expected == provided)
      then some signature_mismatch
      else none

  unfoldable pub verify_parsed :
      ℕ → ℕ → (ℤ → String) → Option ℤ → Option String → Option VerifyError
  unfolding check_mac
  verify_parsed max_skew now expected none provided = some malformed_timestamp
  verify_parsed max_skew now expected (some ts) none = some malformed_signature
  verify_parsed max_skew now expected (some ts) (some provided) =
      check_mac max_skew now ts (expected ts) provided

  -- `Verify`; `none` is success.
  unfoldable pub verify :
      String → ℕ → ℕ → String → String → String → String → String → Option VerifyError
  unfolding verify_parsed sign_raw
  verify secret max_skew now timestamp_header signature_header method path body =
      if timestamp_header == ""
      then some missing_timestamp
      else if signature_header == ""
      then some missing_signature
      else verify_parsed max_skew now (λ ts. sign_raw secret ts method path body)
          (w.parse_int timestamp_header) (w.decode signature_header)

  unfoldable pub canonical_envelope : ℤ → String → String
  canonical_envelope ts payload =
      w.format_int ts <> ("\n" <> ("ENVELOPE\nQUEUE" <> ("\n" <> payload)))

  -- `SignEnvelope`
  unfoldable pub sign_envelope : String → ℤ → String → String
  unfolding canonical_envelope
  sign_envelope secret ts payload = w.encode (w.hmac secret (canonical_envelope ts payload))

  -- `VerifyEnvelope`
  unfoldable pub verify_envelope : String → ℕ → ℕ → ℤ → String → String → Option VerifyError
  unfolding verify_parsed canonical_envelope
  verify_envelope secret max_skew now ts payload signature =
      if signature == ""
      then some missing_signature
      else verify_parsed max_skew now (λ t. w.hmac secret (canonical_envelope t payload)) (some ts)
          (w.decode signature)

-- `reasonLabel`
unfoldable pub reason_label : VerifyError → String
reason_label missing_timestamp = "missing_header"
reason_label missing_signature = "missing_header"
reason_label malformed_timestamp = "malformed"
reason_label malformed_signature = "malformed"
reason_label timestamp_skew = "timestamp_skew"
reason_label signature_mismatch = "signature_mismatch"

abbrev pub tried : Option VerifyError → Bool × Option VerifyError → Bool × Option VerifyError
tried none (matched, last_err) = (true, last_err)
tried (some err) (matched, last_err) = (matched, some err)

-- The loop over the secrets, which never stops early: whether one matched, and the last error.
unfoldable pub try_secrets :
    (String → Option VerifyError)
    → List String
    → Bool × Option VerifyError
    → Bool × Option VerifyError
try_secrets check [] found = found
try_secrets check (s ∷ secrets) found = try_secrets check secrets (tried (check s) found)

unfoldable pub active : List String → List String
active [] = []
active (s ∷ secrets) = let rest = active secrets in if s == "" then rest else s ∷ rest

pub record Request : Type 0 where
  pub timestamp_header : String
  pub signature_header : String
  pub method : String
  pub path : String
  pub body : Option String

pub data Answer : Type 0 where
  next : Answer
  body_unread : Answer
  unauthorized : Option VerifyError → Answer

abbrev pub is_empty {ℓ} : {A : Type ℓ} → List A → Bool
is_empty [] = true
is_empty (x ∷ xs) = false

abbrev pub judge : Bool → Bool × Option VerifyError → Answer
judge soft_enforce (matched, last_err) =
    if matched || soft_enforce then next else unauthorized last_err

module _ (w : Wire) (max_skew : ℕ) (now : ℕ) where
  unfoldable pub verify_request : Request → String → String → Option VerifyError
  unfolding verify
  verify_request r body secret =
      verify w secret max_skew now r.timestamp_header r.signature_header r.method r.path body

  unfoldable pub answer_read : List String → Bool → Request → Option String → Answer
  unfolding verify_request try_secrets
  answer_read secrets soft_enforce r none = body_unread
  answer_read secrets soft_enforce r (some body) =
      judge soft_enforce (try_secrets (verify_request r body) secrets (false, none))

  -- `MultiSecretMiddleware`; a body over the limit, or not readable, is `none`.
  unfoldable pub multi_secret_middleware : List String → Bool → Request → Answer
  unfolding active answer_read
  multi_secret_middleware secrets soft_enforce r =
      if is_empty (active secrets) then next else answer_read (active secrets) soft_enforce r r.body
