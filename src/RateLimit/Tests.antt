-- ===== src/RateLimit/Tests.antt =====
-- Tests of the limits.
use axiaops.Common.{
  str_lt, compare-flip, str_lt_trans, str_lt_asym, str_lt_irrefl, str_lt_total, ltb, leb,
  if◌then◌else◌, Bool-cases, Option-cases, is_some, or_else, length, take, count_if, All,
  length-append, In, In-append_left, In-append_right, Eq, ◌==◌, contains, string_eq, nat_eq,
  str_contains, has_prefix, ℕ, zero, suc, ◌+◌, ◌-◌, ◌*◌, ◌/◌, ◌%◌, ◌^◌, ◌≤◌, ◌<◌, String, ◌<>◌, ◌≡◌,
  refl, sym, ap, ◌∙◌, ◌≢◌, ◌↔◌, ◌⊎◌, inl, inr, Bool, true, false, not, ◌&&◌, ◌||◌, Option, none,
  some, List, [], ◌∷◌, ◌++◌, map, arith,
}
use axiaops.Cache.{empty}
use axiaops.RateLimit.{
  second, digits, decimal, LoginRateLimiter, new_login_rate_limiter, with_limits, Attempt, Request,
}
use axiaops.RateLimit.Caps.{passes}
use axiaops.RateLimit.Login.{timely}
use axiaops.RateLimit.Bounds.{login_step, from_ip, for_email, login_passes-le}
use axiaops.RateLimit.Requests.{wrap_step, counts_for, request_timely, wrap_passes-le}

decimal_test : decimal 29412345 ≡ "29412345"
unfolding decimal digits
decimal_test = refl

abbrev start : ℕ
start = 1764112000 * second

abbrev login : String → ℕ → Attempt
login email seconds = record {
  ip = some "10.0.0.1";
  email = email;
  read_at = start + seconds * second;
  ip_at = start + seconds * second;
  email_at = start + seconds * second;
  done_at = start + seconds * second;
  ip_fails = false;
  email_fails = false;
}

abbrev logins : List Attempt
logins = login "ann" 0 ∷ login "bob" 3 ∷ login "ann" 9 ∷ []

abbrev two_and_one : LoginRateLimiter
two_and_one = with_limits 2 1 new_login_rate_limiter

abbrev same : String → String
same email = email

passes_test :
    passes {0, 0} (login_step {V = Unit} same two_and_one) (from_ip (some "10.0.0.1")) logins empty
    ≡ 2
unfolding passes login_step string_eq axiaops.Common.Dict.lookup axiaops.Common.Dict.insert
passes_test = refl

login_passes-le_example :
    (passes {0, 0} (login_step {V = Unit} same two_and_one) (from_ip (some "10.0.0.1")) logins empty
      ≤ 2)
    × (passes {0, 0} (login_step {V = Unit} same two_and_one) (for_email same "ann") logins empty
        ≤ 1)
unfolding timely nat_eq
login_passes-le_example =
    login_passes-le same two_and_one 29401866 (some "10.0.0.1") "ann" logins empty
      (refl, (refl, (refl, tt)))

abbrev get : String → ℕ → Request
get user seconds = record {
  method = "GET";
  path = "/v1/zombies";
  organization_id = "org";
  user_id = user;
  checked_at = start + seconds * second;
  incr_at = start + seconds * second;
  denied_at = start + seconds * second;
  fails = false;
}

abbrev gets : List Request
gets = get "ann" 0 ∷ get "ann" 1 ∷ get "bob" 1 ∷ []

wrap_test : passes {0, 0} (wrap_step {V = Unit} 1) (counts_for "org:ann") gets empty ≤ 1
unfolding request_timely nat_eq
wrap_test = wrap_passes-le 1 29401866 "org:ann" gets empty (refl, (refl, (refl, tt)))
