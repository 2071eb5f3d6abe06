-- ===== src/Login/Orgs/Chosen.antt =====
-- Whose organization a login with a choice enters.
use axiaops.Common.{
  if◌then◌else◌, Bool-cases, is_some, In, In-kept, ◌==◌, string_eq, nat_eq, String, ◌≡◌, refl, sym,
  ap, ◌∙◌, inl, inr, Bool, true, false, not, ◌||◌, Option, none, some, List, [], ◌∷◌, arith,
}
use axiaops.RateLimit.{LoginRateLimiter, allow}
use axiaops.Membership.{Membership}
use axiaops.NativeAuth.{User}
use axiaops.Session.{Session}
use axiaops.Session.Manager.{State, mint_session}
use axiaops.Login.{LoginRequest, Draw, LoginState, LoginAnswer, memberships_of, new_session}
use axiaops.Login.Entered.{with_session-Enters, Admitted, gated-Admitted}
use axiaops.Login.Orgs.{
  find_org, enter_chosen, choose, select_org, in_organizations, user_memberships,
}

pub find_org-In :
    (organization_id : String) (ms : List Membership) (m : Membership)
    → find_org organization_id ms ≡ some m
    → (m.organization_id ≡ organization_id) × In m ms
unfolding find_org
find_org-In organization_id [] m h = cc
find_org-In organization_id (n ∷ ms) m h =
    elim (Bool-cases (n.organization_id == organization_id)) [
      | inl e ↦ (ground (arith, e, h), inl (ground (arith, e, h)))
      | inr e ↦
          (let (org, later) = find_org-In organization_id ms m (ground (arith, e, h)) in
            (org, inr later))
    ]

memberships_of-In :
    (user_id : String) (table : List Membership) (m : Membership)
    → In m (memberships_of user_id table)
    → (m.user_id ≡ user_id) × In m table
unfolding memberships_of
memberships_of-In user_id [] m h = elim h [ ]
memberships_of-In user_id (n ∷ table) m h =
    elim (In-kept m n (n.user_id == user_id) (memberships_of user_id table) h) [
      | inl (e, same) ↦ (ground (arith, e, same), inl same)
      | inr later ↦
          (let (owned, placed) = memberships_of-In user_id table m later in (owned, inr placed))
    ]

in_organizations-In :
    (name : String → Option String) (ms : List Membership) (m : Membership)
    → In m (in_organizations name ms)
    → In m ms
unfolding in_organizations
in_organizations-In name [] m h = elim h [ ]
in_organizations-In name (n ∷ ms) m h =
    elim (In-kept m n (is_some (name n.organization_id)) (in_organizations name ms) h) [
      | inl (e, same) ↦ inl same
      | inr later ↦ inr (in_organizations-In name ms m later)
    ]

queried-In :
    (blank works : Bool) (rows ms : List Membership) (m : Membership)
    → (if blank then some [] else if not works then none else some rows) ≡ some ms
    → In m ms
    → In m rows
queried-In true works rows [] m e placed = elim placed [ ]
queried-In true works rows (n ∷ ms) m e placed = cc
queried-In false false rows ms m e placed = cc
queried-In false true rows ms m e placed = let same : rows ≡ ms = cc in rw same placed

pub user_memberships-In :
    (works : Bool) (name : String → Option String) (user_id : String) (table ms : List Membership)
    (m : Membership)
    → user_memberships works name user_id table ≡ some ms
    → In m ms
    → (m.user_id ≡ user_id) × In m table
unfolding user_memberships
user_memberships-In works name user_id table ms m e placed =
    let listed =
      queried-In (user_id == "") works (in_organizations name (memberships_of user_id table)) ms m e
        placed in
    memberships_of-In user_id table m
      (in_organizations-In name (memberships_of user_id table) m listed)

-- The membership that is chosen, and the session that the manager mints for it.
abbrev pub EntersChosen :
    Draw → String → Membership → Session → User → State → State → List Membership → Type 0
EntersChosen d organization_id m s v before after memberships =
    (m.organization_id ≡ organization_id)
    × In m memberships
    × (mint_session d.faults d.now d.per_user_cap (new_session d v m) before ≡ some (after, s))

module _ {ℓ} {V : Type ℓ} (lower : String → String) (hash_email : String → String)
    (verify : String → String → Bool) (l : LoginRateLimiter) (d : Draw) (organization_id : String)
    (r : LoginRequest) (u : User) (m : Membership) (s : Session) where
  enter_chosen-EntersChosen :
      (st : LoginState V) (v : User) (ms : List Membership) (found : Option Membership)
      → find_org organization_id ms ≡ found
      → (enter_chosen d st v found).1 ≡ LoginAnswer.logged_in u m s
      → (v ≡ u)
        × EntersChosen d organization_id m s v st.sessions (enter_chosen d st v found).0.sessions ms
  enter_chosen-EntersChosen st v ms none f e = ground arith
  enter_chosen-EntersChosen st v ms (some n) f e =
      let (p, q, made) =
        with_session-Enters u m s st v n
          (mint_session d.faults d.now d.per_user_cap (new_session d v n) st.sessions) e in
      let (org, placed) = find_org-In organization_id ms m (f ∙ ap some q) in
      (p, (org, placed, rw (sym q) made))

  -- A choice that succeeds had an email, a password and an organization and passed the limiter; its
  -- user is the one of the email, with a password hash that the password matches and a membership in
  -- the organization; and its session is the one that the manager mints for that membership.
  pub select_org-logged_in :
      (st : LoginState V)
      → (select_org lower hash_email verify l d organization_id r st).1
        ≡ LoginAnswer.logged_in u m s
      → ((r.email == "" || (r.password == "" || organization_id == "")) ≡ false)
        × ((allow hash_email l (record r.attempt { email = r.email }) st.counters).1.allowed ≡ true)
        × Admitted lower verify r
            (EntersChosen d organization_id m s)
            u
            st
            (select_org lower hash_email verify l d organization_id r st).0
  unfolding select_org choose
  select_org-logged_in st h =
      gated-Admitted lower hash_email verify l d (choose d organization_id) r u m s
        (EntersChosen d organization_id m s)
        (λ st' v ms e. enter_chosen-EntersChosen st' v ms (find_org organization_id ms) refl e)
        (r.email == "" || (r.password == "" || organization_id == "")) st h
