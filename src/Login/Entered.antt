-- ===== src/Login/Entered.antt =====
-- Who a login lets in.
use axiaops.Common.{
  ltb, Bool-cases, length, ◌==◌, string_eq, nat_eq, String, ◌≡◌, refl, sym, ap, ◌∙◌, inl, inr, Bool,
  true, false, not, ◌||◌, Option, none, some, List, [], ◌∷◌, arith,
}
use mathlib.Core.Path.{subst}
use axiaops.RateLimit.{LoginRateLimiter}
use axiaops.NativeAuth.{User}
use axiaops.Membership.{Membership}
use axiaops.Session.{Session}
use axiaops.Session.Manager.{State, mint_session}
use axiaops.Login.{
  LoginRequest, Draw, LoginState, LoginAnswer, lookup_user_by_email, memberships_of,
  list_user_memberships, new_session, with_session, enter, gated, authenticate, login, limited,
  Cache, allow, RateLimitOutcome,
}

module _ {ℓ} {V : Type ℓ} (u : User) (m : Membership) (s : Session) where
  pub with_session-Enters :
      (st : LoginState V) (v : User) (n : Membership) (made : Option (State × Session))
      → (with_session st v n made).1 ≡ LoginAnswer.logged_in u m s
      → (v ≡ u) × (n ≡ m) × (made ≡ some ((with_session st v n made).0.sessions, s))
  with_session-Enters st v n none e = ground arith
  with_session-Enters st v n (some (sessions, t)) e =
      (ground arith, ground arith, (let same : t ≡ s = ground arith in rw same refl))

-- A user of the email, with a password that matches, and what holds of the memberships and of the
-- sessions before and after.
abbrev pub Admitted {ℓ} :
    {V : Type ℓ}
    → (String → String)
    → (String → String → Bool)
    → LoginRequest
    → (User → State → State → List Membership → Type 0)
    → User
    → LoginState V
    → LoginState V
    → Type 0
Admitted lower verify r P v st after =
    (lookup_user_by_email lower r.email st.users ≡ some v)
    × ((v.password_hash == "") ≡ false)
    × (verify r.password v.password_hash ≡ true)
    × P v st.sessions after.sessions (memberships_of v.id st.memberships)

module _ {ℓ} {V : Type ℓ} (lower : String → String) (hash_email : String → String)
    (verify : String → String → Bool) (l : LoginRateLimiter) (d : Draw)
    (k : LoginState V → User → List Membership → LoginState V × LoginAnswer) (r : LoginRequest)
    (u : User) (m : Membership) (s : Session) (P : User → State → State → List Membership → Type 0)
    (enters : (st : LoginState V) (v : User) (ms : List Membership)
      → (k st v ms).1 ≡ LoginAnswer.logged_in u m s
      → (v ≡ u) × P v st.sessions (k st v ms).0.sessions ms) where
  authenticate-Admitted :
      (st : LoginState V) (found : Option User)
      → lookup_user_by_email lower r.email st.users ≡ found
      → (authenticate lower hash_email verify l d k r st found).1 ≡ LoginAnswer.logged_in u m s
      → Admitted lower verify r P u st (authenticate lower hash_email verify l d k r st found).0
  unfolding authenticate
  authenticate-Admitted st none e h = ground arith
  authenticate-Admitted st (some v) e h = elim (Bool-cases d.memberships_query_works) [
    | inr q ↦ ground (arith, q, h)
    | inl q ↦ elim (Bool-cases (v.password_hash == "" || not (verify r.password v.password_hash))) [
      | inl b ↦ ground (arith, q, b, h)
      | inr b ↦
          (let entered : authenticate lower hash_email verify l d k r st (some v)
                ≡ k st v (memberships_of v.id st.memberships) =
              rw (q, b) refl in
            let (same, holds) =
              enters st v (memberships_of v.id st.memberships) (ap (λ x. x.1) (sym entered) ∙ h) in
            let has_hash : (v.password_hash == "") ≡ false = ground (arith, b) in
            let matches : verify r.password v.password_hash ≡ true = ground (arith, b) in
            let after : LoginState V = (k st v (memberships_of v.id st.memberships)).0 in
            subst (λ (a : LoginState V × LoginAnswer). Admitted lower verify r P u st a.0)
              (sym entered)
              (subst
                (λ x.
                  Admitted lower verify r P x st (k st v (memberships_of v.id st.memberships)).0)
                same (e, has_hash, matches, holds)))
    ]
  ]

  limited-Admitted :
      (st : LoginState V) (counters : Option (Cache V)) (outcome : RateLimitOutcome)
      → (limited lower hash_email verify l d k r st (counters, outcome)).1
        ≡ LoginAnswer.logged_in u m s
      → (outcome.allowed ≡ true)
        × Admitted lower verify r P u st
            (limited lower hash_email verify l d k r st (counters, outcome)).0
  unfolding limited
  limited-Admitted st counters outcome h = elim (Bool-cases outcome.allowed) [
    | inr b ↦ ground (arith, b, h)
    | inl b ↦ elim (Bool-cases d.user_query_works) [
      | inr q ↦ ground (arith, b, q, h)
      | inl q ↦
          (let st' : LoginState V = record st { counters = counters } in
            let passed : limited lower hash_email verify l d k r st (counters, outcome)
                ≡ authenticate lower hash_email verify l d k r st'
                    (lookup_user_by_email lower r.email st.users) =
              rw (b, q) refl in
            (
              b,
              subst (λ (a : LoginState V × LoginAnswer). Admitted lower verify r P u st a.0)
                  (sym passed)
                  (authenticate-Admitted st' (lookup_user_by_email lower r.email st.users) refl
                    (ap (λ a. a.1) (sym passed) ∙ h)),
            ))
    ]
  ]

  pub gated-Admitted :
      (missing : Bool) (st : LoginState V)
      → (gated lower hash_email verify l d k missing r st).1 ≡ LoginAnswer.logged_in u m s
      → (missing ≡ false)
        × ((allow hash_email l (record r.attempt { email = r.email }) st.counters).1.allowed ≡ true)
        × Admitted lower verify r P u st (gated lower hash_email verify l d k missing r st).0
  unfolding gated
  gated-Admitted true st h = ground arith
  gated-Admitted false st h =
      let a = allow hash_email l (record r.attempt { email = r.email }) st.counters in
      let (allowed, admitted) = limited-Admitted st a.0 a.1 h in (refl, allowed, admitted)

-- The one membership, and the session that the manager mints for it.
abbrev pub EntersOnly :
    Draw → Membership → Session → User → State → State → List Membership → Type 0
EntersOnly d m s v before after memberships =
    (memberships ≡ m ∷ [])
    × (mint_session d.faults d.now d.per_user_cap (new_session d v m) before ≡ some (after, s))

module _ {ℓ} {V : Type ℓ} (lower : String → String) (hash_email : String → String)
    (verify : String → String → Bool) (l : LoginRateLimiter) (d : Draw) (r : LoginRequest)
    (u : User) (m : Membership) (s : Session) where
  enter-EntersOnly :
      (st : LoginState V) (v : User) (ms : List Membership)
      → (enter d st v ms).1 ≡ LoginAnswer.logged_in u m s
      → (v ≡ u) × EntersOnly d m s v st.sessions (enter d st v ms).0.sessions ms
  unfolding enter
  enter-EntersOnly st v [] e = ground arith
  enter-EntersOnly st v (n ∷ []) e =
      let (p, q, made) =
        with_session-Enters u m s st v n
          (mint_session d.faults d.now d.per_user_cap (new_session d v n) st.sessions) e in
      (p, (rw q refl, rw (sym q) made))
  enter-EntersOnly st v (n ∷ k ∷ ms) e =
      elim (Bool-cases (
        not d.join_query_works
        || ltb (length (list_user_memberships st.organization_name v.id st.memberships))
            (length (n ∷ k ∷ ms)))) [ inl b ↦ ground (arith, b, e) | inr b ↦ ground (arith, b, e) ]

  -- A login that succeeds had an email and a password and passed the limiter; its user is the one
  -- of the email, with a password hash that the password matches and exactly one membership; and
  -- its session is the one the manager mints for that user in that membership's organization,
  -- whose sessions are those of the state after it.
  pub login-logged_in :
      (st : LoginState V)
      → (login lower hash_email verify l d r st).1 ≡ LoginAnswer.logged_in u m s
      → ((r.email == "" || r.password == "") ≡ false)
        × ((allow hash_email l (record r.attempt { email = r.email }) st.counters).1.allowed ≡ true)
        × Admitted lower verify r (EntersOnly d m s) u st (login lower hash_email verify l d r st).0
  unfolding login
  login-logged_in st h =
      gated-Admitted lower hash_email verify l d (enter d) r u m s (EntersOnly d m s)
        enter-EntersOnly (r.email == "" || r.password == "") st h
