-- ===== src/Login.antt =====
-- The login with a password: `login` of services/api/internal/auth/handler.go, from the decoded
-- request on, with `LookupUserByEmail` and `ListUserMemberships` of the storage. It goes through the
-- limiter of RateLimit, the users of NativeAuth, the members of Membership and the sessions of
-- Session. The check of a password against a hash, `lower`, and the hash of an email in the limiter's
-- key are parameters, the text of the email is trimmed, and the names of organizations are a map.
pub mod Entered
pub mod Orgs
pub mod Uniform
mod Tests
use axiaops.Common.{
  ltb, if◌then◌else◌, length, ◌==◌, string_eq, nat_eq, ℕ, ◌/◌, String, Bool, not, ◌||◌, Option,
  none, some, List, [], ◌∷◌, arith,
}
use axiaops.Cache.{Cache}
use axiaops.RateLimit.{Attempt, LoginRateLimiter, RateLimitOutcome, allow, second}
use axiaops.NativeAuth.{User}
use axiaops.Membership.{Membership}
use axiaops.Session.{Session}
use axiaops.Session.Manager.{Faults, State, mint_session}

pub record LoginRequest : Type 0 where
  pub email : String
  pub password : String
  pub attempt : Attempt

-- What the manager draws and reads for a new session, and which queries of the storage work.
pub record Draw : Type 0 where
  pub faults : Faults
  pub now : ℕ
  pub session_id : String
  pub token_hash : String
  pub expires_at : ℕ
  pub per_user_cap : ℕ
  pub user_query_works : Bool
  pub memberships_query_works : Bool
  pub join_query_works : Bool

-- `none` of the counters is no limiter.
pub record LoginState {ℓ} (V : Type ℓ) : Type ℓ where
  pub counters : Option (Cache V)
  pub users : List User
  pub memberships : List Membership
  pub organization_name : String → Option String
  pub sessions : State

pub data LoginAnswer : Type 0 where
  bad_request invalid_credentials internal : LoginAnswer
  rate_limited : ℕ → LoginAnswer
  needs_org_selection : List (String × String) → LoginAnswer
  logged_in : User → Membership → Session → LoginAnswer

unfoldable pub find_email : (String → String) → String → List User → Option User
find_email lower email [] = none
find_email lower email (u ∷ users) =
    if lower u.email == lower email then some u else find_email lower email users

-- `LookupUserByEmail`, the user.
unfoldable pub lookup_user_by_email : (String → String) → String → List User → Option User
unfolding find_email
lookup_user_by_email lower email users = if email == "" then none else find_email lower email users

-- The memberships of a user; the table is in the order of their creation.
unfoldable pub memberships_of : String → List Membership → List Membership
memberships_of user_id [] = []
memberships_of user_id (m ∷ ms) =
    let rest = memberships_of user_id ms in if m.user_id == user_id then m ∷ rest else rest

-- The join with the organizations.
unfoldable pub joined : (String → Option String) → List Membership → List (String × String)
joined organization_name [] = []
joined organization_name (m ∷ ms) =
    let rest = joined organization_name ms in
    elim (organization_name m.organization_id) [
      | none ↦ rest
      | some name ↦ (m.organization_id, name) ∷ rest
    ]

-- `ListUserMemberships`, the organizations with their names.
unfoldable pub list_user_memberships :
    (String → Option String) → String → List Membership → List (String × String)
unfolding joined memberships_of
list_user_memberships organization_name user_id memberships =
    if user_id == "" then [] else joined organization_name (memberships_of user_id memberships)

abbrev pub retry_seconds : ℕ → ℕ
retry_seconds retry_after = let retry = retry_after / second in if ltb retry 1 then 1 else retry

abbrev pub new_session : Draw → User → Membership → Session
new_session d u m = record {
  id = d.session_id;
  user_id = u.id;
  organization_id = m.organization_id;
  auth_mode = "password";
  session_token_hash = d.token_hash;
  created_at = d.now;
  expires_at = d.expires_at;
  revoked_at = none;
  last_seen_at = d.now;
}

module _ {ℓ} {V : Type ℓ} where
  abbrev pub with_session :
      LoginState V → User → Membership → Option (State × Session) → LoginState V × LoginAnswer
  with_session st u m none = (st, internal)
  with_session st u m (some (sessions, s)) = (record st { sessions = sessions }, logged_in u m s)

module _ {ℓ} {V : Type ℓ} (d : Draw) where
  -- The answer to a user whose password is right, by the memberships.
  unfoldable pub enter : LoginState V → User → List Membership → LoginState V × LoginAnswer
  unfolding mint_session list_user_memberships
  enter st u [] = (st, invalid_credentials)
  enter st u (m ∷ []) =
      with_session st u m
        (mint_session d.faults d.now d.per_user_cap (new_session d u m) st.sessions)
  enter st u (m ∷ n ∷ ms) =
      let orgs = list_user_memberships st.organization_name u.id st.memberships in
      (
        st,
        if not d.join_query_works || ltb (length orgs) (length (m ∷ n ∷ ms))
            then internal
            else needs_org_selection orgs,
      )

module _ {ℓ} {V : Type ℓ} (lower : String → String) (hash_email : String → String)
    (verify : String → String → Bool) (l : LoginRateLimiter) (d : Draw)
    (k : LoginState V → User → List Membership → LoginState V × LoginAnswer) where
  -- `k` is what follows for a user whose password is right, with the memberships.
  unfoldable pub authenticate :
      LoginRequest → LoginState V → Option User → LoginState V × LoginAnswer
  unfolding memberships_of
  authenticate r st none = (st, invalid_credentials)
  authenticate r st (some u) =
      if not d.memberships_query_works
      then (st, internal)
      else if u.password_hash == "" || not (verify r.password u.password_hash)
      then (st, invalid_credentials)
      else k st u (memberships_of u.id st.memberships)

  unfoldable pub limited :
      LoginRequest → LoginState V → Option (Cache V) × RateLimitOutcome → LoginState V × LoginAnswer
  unfolding authenticate lookup_user_by_email
  limited r st (counters, outcome) =
      let st' : LoginState V = record st { counters = counters } in
      if not outcome.allowed
      then (st', rate_limited (retry_seconds outcome.retry_after))
      else if not d.user_query_works
      then (st', internal)
      else authenticate r st' (lookup_user_by_email lower r.email st.users)

  -- The handler from the check of the fields on; `missing` is whether one is empty.
  unfoldable pub gated : Bool → LoginRequest → LoginState V → LoginState V × LoginAnswer
  unfolding limited allow
  gated missing r st =
      if missing
      then (st, bad_request)
      else limited r st (allow hash_email l (record r.attempt { email = r.email }) st.counters)

module _ {ℓ} {V : Type ℓ} (lower : String → String) (hash_email : String → String)
    (verify : String → String → Bool) (l : LoginRateLimiter) (d : Draw) where
  -- `login`
  unfoldable pub login : LoginRequest → LoginState V → LoginState V × LoginAnswer
  unfolding gated enter
  login r st = gated lower hash_email verify l d (enter d) (r.email == "" || r.password == "") r st
