-- ===== src/Login/Uniform.antt =====
-- What a login tells, and what it takes.
use axiaops.Common.{
  if◌then◌else◌, Bool-cases, Option-cases, All, ◌==◌, string_eq, nat_eq, String, ◌≡◌, refl, sym,
  inl, inr, Bool, true, false, not, ◌||◌, Option, some, List, [], ◌∷◌, arith,
}
use axiaops.Cache.{Cache}
use axiaops.RateLimit.{LoginRateLimiter, RateLimitOutcome, allow}
use axiaops.NativeAuth.{User}
use axiaops.Login.{
  LoginRequest, Draw, LoginState, LoginAnswer, find_email, lookup_user_by_email, retry_seconds,
  authenticate, limited, login, enter, Membership, gated,
}

find_email-All :
    (lower : String → String) (email : String) (P : User → Type 0) (users : List User) (u : User)
    → All P users
    → find_email lower email users ≡ some u
    → P u
unfolding find_email
find_email-All lower email P [] u h e = cc
find_email-All lower email P (x ∷ users) u (p, h) e =
    elim (Bool-cases (lower x.email == lower email)) [
      | inl same ↦ (let x_is : x ≡ u = ground arith in rw (sym x_is) p)
      | inr other ↦ find_email-All lower email P users u h (ground arith)
    ]

lookup-All :
    (lower : String → String) (email : String) (P : User → Type 0) (users : List User) (u : User)
    → All P users
    → lookup_user_by_email lower email users ≡ some u
    → P u
unfolding lookup_user_by_email
lookup-All lower email P users u h e = elim (Bool-cases (email == "")) [
  | inl m ↦ ground (arith, e, m)
  | inr m ↦ find_email-All lower email P users u h (ground (arith, e, m))
]

-- The password is that of no user.
abbrev pub Wrong : (String → String → Bool) → String → List User → Type 0
Wrong verify password users = All (λ u. verify password u.password_hash ≡ false) users

module _ {ℓ} {V : Type ℓ} (d : Draw) where
  -- What the request alone and the limiter decide.
  abbrev pub refusal : Option (Cache V) × RateLimitOutcome → LoginAnswer
  refusal (counters, outcome) =
      if not outcome.allowed
      then LoginAnswer.rate_limited (retry_seconds outcome.retry_after)
      else if d.user_query_works
      then LoginAnswer.invalid_credentials
      else LoginAnswer.internal

module _ {ℓ} {V : Type ℓ} (lower : String → String) (hash_email : String → String)
    (verify : String → String → Bool) (l : LoginRateLimiter) (d : Draw)
    (k : LoginState V → User → List Membership → LoginState V × LoginAnswer)
    (r : LoginRequest) where
  authenticate_user :
      (st : LoginState V) (u : User)
      → d.memberships_query_works ≡ true
      → verify r.password u.password_hash ≡ false
      → authenticate lower hash_email verify l d k r st (some u)
        ≡ (st, LoginAnswer.invalid_credentials)
  unfolding authenticate
  authenticate_user st u works w = elim (Bool-cases (u.password_hash == "")) [
    | inl e ↦ rw (works, e) refl
    | inr e ↦ rw (works, e, w) refl
  ]

  authenticate-Wrong :
      (st : LoginState V)
      → d.memberships_query_works ≡ true
      → Wrong verify r.password st.users
      → authenticate lower hash_email verify l d k r st
          (lookup_user_by_email lower r.email st.users)
        ≡ (st, LoginAnswer.invalid_credentials)
  unfolding authenticate
  authenticate-Wrong st works h =
      elim (Option-cases (lookup_user_by_email lower r.email st.users)) [
        | inl e ↦ rw e refl
        | inr (u, e) ↦ rw e (
            authenticate_user st u works (
              lookup-All lower r.email (λ v. verify r.password v.password_hash ≡ false) st.users u h
                e))
      ]

  limited-Wrong :
      (st : LoginState V) (a : Option (Cache V) × RateLimitOutcome)
      → d.memberships_query_works ≡ true
      → Wrong verify r.password st.users
      → limited lower hash_email verify l d k r st a ≡ (record st { counters = a.0 }, refusal d a)
  unfolding limited
  limited-Wrong st (counters, outcome) works h = elim (Bool-cases outcome.allowed) [
    | inl e ↦ elim (Bool-cases d.user_query_works) [
      | inl q ↦ rw (e, q) (authenticate-Wrong (record st { counters = counters }) works h)
      | inr q ↦ rw (e, q) refl
    ]
    | inr e ↦ rw e refl
  ]

  gated-Wrong :
      (missing : Bool) (st : LoginState V)
      → d.memberships_query_works ≡ true
      → Wrong verify r.password st.users
      → (counters : Option (Cache V)) × (gated lower hash_email verify l d k missing r st ≡ (
        record st { counters = counters },
        if missing
            then LoginAnswer.bad_request
            else refusal d (allow hash_email l (record r.attempt { email = r.email }) st.counters),
      ))
  unfolding gated
  gated-Wrong true st works h = (st.counters, refl)
  gated-Wrong false st works h = (
    (allow hash_email l (record r.attempt { email = r.email }) st.counters).0,
    limited-Wrong st (allow hash_email l (record r.attempt { email = r.email }) st.counters) works
        h,
  )

  -- The answer of a handler to a wrong password, and what it leaves.
  pub gated-uniform :
      (missing : Bool) (st other : LoginState V)
      → d.memberships_query_works ≡ true
      → st.counters ≡ other.counters
      → Wrong verify r.password st.users
      → Wrong verify r.password other.users
      → ((gated lower hash_email verify l d k missing r st).1
          ≡ (gated lower hash_email verify l d k missing r other).1)
        × ((gated lower hash_email verify l d k missing r st).0.users ≡ st.users)
        × ((gated lower hash_email verify l d k missing r st).0.memberships ≡ st.memberships)
        × ((gated lower hash_email verify l d k missing r st).0.sessions ≡ st.sessions)
  gated-uniform missing st other works same h h' =
      let (c, e) = gated-Wrong missing st works h in
      let (c', e') = gated-Wrong missing other works h' in rw (e, e', same) (refl, refl, refl, refl)

-- Where the query for memberships works, a login with a password that matches the hash of no user
-- is answered by the request, the limiter's counters and the query for the user alone: in two
-- states with the same counters the answer is the same, whether or not the email is a user's. It
-- leaves the users, the memberships and the sessions, with what the cache holds of them, as they
-- are.
pub login-uniform {ℓ} :
    {V : Type ℓ} (lower : String → String) (hash_email : String → String)
    (verify : String → String → Bool) (l : LoginRateLimiter) (d : Draw) (r : LoginRequest)
    (st other : LoginState V)
    → d.memberships_query_works ≡ true
    → st.counters ≡ other.counters
    → Wrong verify r.password st.users
    → Wrong verify r.password other.users
    → ((login lower hash_email verify l d r st).1 ≡ (login lower hash_email verify l d r other).1)
      × ((login lower hash_email verify l d r st).0.users ≡ st.users)
      × ((login lower hash_email verify l d r st).0.memberships ≡ st.memberships)
      × ((login lower hash_email verify l d r st).0.sessions ≡ st.sessions)
unfolding login
login-uniform lower hash_email verify l d r st other works same h h' =
    gated-uniform lower hash_email verify l d (enter d) r (r.email == "" || r.password == "") st
      other works same h h'
