-- ===== src/HttpAuth/Tests.antt =====
-- Tests of the signatures, with texts for the parts of Go's library.
use axiaops.Common.{
  if◌then◌else◌, In, string_eq, nat_eq, ℕ, ◌+◌, ◌-◌, ◌*◌, ◌^◌, String, ◌<>◌, ◌≡◌, refl, ◌↔◌, true,
  false, not, ◌||◌, none, some, [], ◌∷◌, arith,
}
use axiaops.Common.Int.{pos}
use axiaops.HttpAuth.{
  Wire, timestamp_skew, second, sub, is_skewed, canonical, sign, verify, active, Request, next,
  multi_secret_middleware,
}
use axiaops.HttpAuth.Skew.{in_window, far_ahead, verify-sign}
use axiaops.HttpAuth.Verified.{Signed, multi_secret_middleware-next}

abbrev wire : Wire
wire = record {
  hmac = λ key text. key <> text;
  encode = λ mac. mac;
  decode = λ text. some text;
  format_int = λ n. "1764112000";
  parse_int = λ text. some (pos 1764112000);
}

abbrev now : ℕ
now = 1764112007 * second

abbrev window : ℕ
window = 300 * second

-- A timestamp that lies ahead by more than 292 years is in the window.
centuries_ahead : is_skewed window now (pos (1764112007 + 2 ^ 34)) ≡ false
unfolding is_skewed sub
centuries_ahead = refl

-- Past the last time that Go has, the seconds wrap and the timestamp is refused.
past_the_end : is_skewed window now (pos (2 ^ 63 - 1)) ≡ true
unfolding is_skewed sub
past_the_end = refl

ahead : is_skewed window now (pos 1764112400) ≡ true
unfolding is_skewed sub
ahead = refl

verify-sign_example :
    verify wire "key" window now "1764112000"
      (sign wire "key" (pos 1764112000) "POST" "/scan" "{}")
      "POST"
      "/scan"
      "{}"
    ≡ (if not (in_window window now (pos 1764112000) || far_ahead now (pos 1764112000))
        then some timestamp_skew
        else none)
unfolding sign canonical string_eq
verify-sign_example =
    verify-sign wire "key" window now (pos 1764112000) "POST" "/scan" "{}" (ground arith) refl refl
      refl refl

abbrev request : Request
request = record {
  timestamp_header = "1764112000";
  signature_header = "key";
  method = "POST";
  path = "/scan";
  body = some "{}";
}

multi_secret_middleware-next_example :
    (multi_secret_middleware wire window now ("" ∷ "key" ∷ []) false request ≡ next)
    ↔ ((s : String) × In s (active ("" ∷ "key" ∷ [])) × Signed wire window now request "{}" s)
unfolding active string_eq
multi_secret_middleware-next_example =
    multi_secret_middleware-next wire window now ("" ∷ "key" ∷ []) request "{}" (ground arith) refl
      refl
