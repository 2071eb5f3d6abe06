-- ===== src/Login/Tests.antt =====
-- A user who logs in, and one who guesses.
use axiaops.Common.{
  str_lt, compare-flip, str_lt_trans, str_lt_asym, str_lt_irrefl, str_lt_total, ltb, leb,
  if◌then◌else◌, Bool-cases, Option-cases, is_some, or_else, length, take, count_if, All,
  length-append, In, In-append_left, In-append_right, In-kept, Eq, ◌==◌, contains, string_eq,
  nat_eq, str_contains, has_prefix, ℕ, zero, suc, ◌+◌, ◌-◌, ◌*◌, ◌/◌, ◌%◌, ◌^◌, ◌≤◌, ◌<◌, String,
  ◌<>◌, ◌≡◌, refl, sym, ap, ◌∙◌, ◌≢◌, ◌↔◌, ◌⊎◌, inl, inr, Bool, true, false, not, ◌&&◌, ◌||◌,
  Option, none, some, List, [], ◌∷◌, ◌++◌, map, arith,
}
use axiaops.Cache.{empty}
use axiaops.RateLimit.{second, new_login_rate_limiter}
use axiaops.NativeAuth.{User}
use axiaops.Membership.{Membership}
use axiaops.Session.{Session}
use axiaops.Login.{LoginRequest, Draw, LoginState, logged_in, new_session, login}
use axiaops.Login.Uniform.{login-uniform}
use axiaops.Login.Entered.{login-logged_in}

abbrev pub ann : User
ann = record {
  id = "u1";
  organization_id = "org";
  external_id = "native:u1";
  email = "ann@example.com";
  name = "Ann";
  password_hash = "hash-secret";
  password_set_at = none;
}

abbrev pub member : Membership
member = record {
  id = "m1";
  organization_id = "org";
  user_id = "u1";
  role = "admin";
  invited_by = "";
  provisioned_via = "manual";
}

abbrev pub verify : String → String → Bool
verify password hash = hash == ("hash-" <> password)

abbrev pub same : String → String
same email = email

abbrev pub organization : String → Option String
organization id = some "Organization"

abbrev pub state : List User → LoginState {0} Unit
state users = record {
  counters = some empty;
  users = users;
  memberships = member ∷ [];
  organization_name = organization;
  sessions = record { table = []; cache = none };
}

abbrev pub draw : Draw
draw = record {
  faults = record { get_works = true; put_works = true; delete_works = true };
  now = 100;
  session_id = "s1";
  token_hash = "token";
  expires_at = 900;
  per_user_cap = 5;
  user_query_works = true;
  memberships_query_works = true;
  join_query_works = true;
}

abbrev pub request : String → LoginRequest
request password = record {
  email = "ann@example.com";
  password = password;
  attempt = record {
    ip = some "10.0.0.1";
    email = "ann@example.com";
    read_at = 60 * second;
    ip_at = 60 * second;
    email_at = 60 * second;
    done_at = 60 * second;
    ip_fails = false;
    email_fails = false;
  };
}

abbrev session : Session
session = new_session draw ann member

right_password :
    (login same same verify new_login_rate_limiter draw (request "secret") (state (ann ∷ []))).1
    ≡ logged_in ann member session
unfolding login string_eq nat_eq axiaops.Common.Dict.lookup axiaops.Common.Dict.insert
right_password = refl

login-logged_in_example : verify "secret" ann.password_hash ≡ true
login-logged_in_example =
    (login-logged_in same same verify new_login_rate_limiter draw (request "secret") ann member
      session (state (ann ∷ [])) right_password).2.2

login-uniform_example :
    (login same same verify new_login_rate_limiter draw (request "guess") (state (ann ∷ []))).1
    ≡ (login same same verify new_login_rate_limiter draw (request "guess") (state [])).1
unfolding string_eq
login-uniform_example =
    (login-uniform same same verify new_login_rate_limiter draw (request "guess") (state (ann ∷ []))
      (state []) refl refl (refl, tt) tt).0
