-- ===== src/Oidc/Callback/Enter/Joined.antt =====
-- The user and the session that the callback makes for an identity.
use axiaops.Common.{
  if◌then◌else◌, Bool-cases, ◌==◌, string_eq, nat_eq, String, ◌≡◌, refl, sym, ap, ◌∙◌, ◌⊎◌, inl,
  inr, Bool, true, false, ◌||◌, Option, none, some, List, [], ◌∷◌, arith,
}
use mathlib.Core.Path.{subst}
use axiaops.NativeAuth.{User}
use axiaops.NativeAuth.Invitations.{Invitation, InviteStore, find_user, find_invitation}
use axiaops.Membership.{Membership, StoreError, insert_row}
use axiaops.Session.{Session}
use axiaops.Session.Manager.{State, mint_session}
use axiaops.Jit.{Mapping}
use axiaops.Jit.Provision.{JitOutcome, noop, created, updated, JitError}
use axiaops.Jit.Joined.{IsMember, insert_row-IsMember, provision-IsMember}
use axiaops.Oidc.{Library, SsoConnection, StateData}
use axiaops.Oidc.Identity.{Identity}
use axiaops.Oidc.Callback.{
  upserted, upsert_user, is_pending_for, redeemed_member, after_insert, redeem_matched,
  redeem_pending_invitation, CallbackRequest, SsoTables, AuditEntry, jit_provisioned,
  jit_role_updated, login_succeeded, CallbackState,
}
use axiaops.Oidc.Callback.Enter.{
  entered, record_event, target_of, sso_session, minted, mint, event_of, provisioned, mapped,
  redeemed, joined, enter,
}

find_user-holds :
    (p : User → Bool) (users : List User) (u : User) → find_user p users ≡ some u → p u ≡ true
unfolding find_user
find_user-holds p [] u h = cc
find_user-holds p (v ∷ users) u h = elim (Bool-cases (p v)) [
  | inl e ↦ (let same : v ≡ u = ground (arith, e, h) in rw (sym same) e)
  | inr e ↦ find_user-holds p users u (ground (arith, e, h))
]

module _ (lower : String → String) (organization_id new_id : String) (i : Identity) where
  upserted-named :
      (users users' : List User) (u : User) (found : Option User)
      → ((v : User) → found ≡ some v → (v.external_id == i.sub) ≡ true)
      → upserted lower organization_id new_id i users found ≡ some (users', u)
      → (u.external_id ≡ i.sub) × (u.email ≡ i.email)
  upserted-named users users' u none k h = ground arith
  upserted-named users users' u (some v) k h =
      let same : (v.external_id == i.sub) ≡ true = k v refl in ground arith

  upsert_user-named :
      (users users' : List User) (u : User)
      → upsert_user lower organization_id new_id i users ≡ some (users', u)
      → (u.external_id ≡ i.sub) × (u.email ≡ i.email)
  unfolding upsert_user
  upsert_user-named users users' u h =
      upserted-named users users' u _ (λ v e. find_user-holds _ users v e) h

after_insert-inserted :
    (st store : InviteStore) (i : Invitation) (inserted : StoreError ⊎ List Membership)
    → after_insert st i inserted ≡ some (store, true)
    → (rows : List Membership) × (inserted ≡ inr rows) × (rows ≡ store.memberships)
after_insert-inserted st store i (inl err) e = cc
after_insert-inserted st store i (inr rows) e = (rows, refl, ground arith)

abbrev SameTables : CallbackState → CallbackState → Type 0
SameTables a b = (a.store ≡ b.store) × (a.sessions ≡ b.sessions)

record_event-SameTables :
    (conn : SsoConnection) (u : User) (e : AuditEntry) (st : CallbackState)
    → SameTables (record_event conn u e st) st
record_event-SameTables conn u e st = elim (Bool-cases (conn.organization_id == "" || u.id == "")) [
  | inl b ↦ rw b (refl, refl)
  | inr b ↦ rw b (refl, refl)
]

module _ (lib : Library) (r : CallbackRequest) (d : StateData) (conn : SsoConnection)
    (target : String) (s : Session) where
  -- The session that the manager makes for the user in the connection's organization, of which
  -- the user is a member.
  abbrev pub Enters : User → CallbackState → CallbackState → Type 0
  Enters u st after =
      (mint_session r.faults r.now r.per_user_cap (sso_session r conn u) st.sessions
        ≡ some (after.sessions, s))
      × IsMember conn.organization_id u.id after.store.memberships
      × (target ≡ target_of lib d)

  minted-Enters :
      (st : CallbackState) (u : User) (made : Option (State × Session))
      → mint_session r.faults r.now r.per_user_cap (sso_session r conn u) st.sessions ≡ made
      → IsMember conn.organization_id u.id st.store.memberships
      → (minted lib r d conn st u made).1 ≡ entered target s
      → Enters u st (minted lib r d conn st u made).0
  minted-Enters st u none m member h = cc
  minted-Enters st u (some (sessions, made)) m member h =
      let (store_same, sessions_same) =
        record_event-SameTables conn u login_succeeded (record st { sessions = sessions }) in
      let is_s : made ≡ s = ground arith in
      (
        m ∙ ap (λ x. some (sessions, x)) is_s ∙ ap (λ x. some (x, s)) (sym sessions_same),
        subst (λ (x : InviteStore). IsMember conn.organization_id u.id x.memberships)
            (sym store_same) member,
        ground arith,
      )

  mint-Enters :
      (st : CallbackState) (u : User)
      → IsMember conn.organization_id u.id st.store.memberships
      → (mint lib r d conn st u).1 ≡ entered target s
      → Enters u st (mint lib r d conn st u).0
  unfolding mint
  mint-Enters st u member h = minted-Enters st u _ refl member h

  event_of-SameTables :
      (u : User) (out : JitOutcome) (st : CallbackState)
      → SameTables (event_of lib r d conn u out st) st
  event_of-SameTables u noop st = (refl, refl)
  event_of-SameTables u created st = record_event-SameTables conn u jit_provisioned st
  event_of-SameTables u updated st = record_event-SameTables conn u jit_role_updated st

  provisioned-Enters :
      (st : CallbackState) (u : User) (made : JitError ⊎ (JitOutcome × List Membership))
      → ((out : JitOutcome) (rows : List Membership)
          → made ≡ inr (out, rows)
          → IsMember conn.organization_id u.id rows)
      → (provisioned lib r d conn st u made).1 ≡ entered target s
      → Enters u st (provisioned lib r d conn st u made).0
  provisioned-Enters st u (inl err) k h = cc
  provisioned-Enters st u (inr (out, rows)) k h =
      let st' : CallbackState = record st { store = record st.store { memberships = rows } } in
      let (store_same, sessions_same) = event_of-SameTables u out st' in
      let member =
        subst (λ (x : InviteStore). IsMember conn.organization_id u.id x.memberships)
          (sym store_same) (k out rows refl) in
      let (m, joins, goes) = mint-Enters (event_of lib r d conn u out st') u member h in
      let m' =
        subst
          (λ (x : State).
            mint_session r.faults r.now r.per_user_cap (sso_session r conn u) x
            ≡ some ((mint lib r d conn (event_of lib r d conn u out st') u).0.sessions, s))
          sessions_same m in
      (m', joins, goes)

  mapped-Enters :
      (st : CallbackState) (u : User) (i : Identity) (found : Option (List Mapping))
      → (mapped lib r d conn st u i found).1 ≡ entered target s
      → Enters u st (mapped lib r d conn st u i found).0
  mapped-Enters st u i none h = cc
  mapped-Enters st u i (some mappings) h =
      provisioned-Enters st u _
        (λ out rows e.
          provision-IsMember _ u.id _ r.new_membership_id st.store.memberships rows out e)
        h

  redeemed-Enters :
      (t : SsoTables) (st : CallbackState) (u : User) (i : Identity)
      (found : Option (InviteStore × Bool))
      → ((store : InviteStore)
          → found ≡ some (store, true)
          → IsMember conn.organization_id u.id store.memberships)
      → (redeemed lib r d conn t st u i found).1 ≡ entered target s
      → Enters u st (redeemed lib r d conn t st u i found).0
  redeemed-Enters t st u i none k h = cc
  redeemed-Enters t st u i (some (store, true)) k h =
      mint-Enters (record st { store = store }) u (k store refl) h
  redeemed-Enters t st u i (some (store, false)) k h =
      mapped-Enters (record st { store = store }) u i (t.mappings conn.id) h

  redeem_matched-IsMember :
      (u : User) (st store : InviteStore) (found : Option Invitation)
      → redeem_matched r.new_membership_id conn.organization_id u.id st found ≡ some (store, true)
      → IsMember conn.organization_id u.id store.memberships
  redeem_matched-IsMember u st store none e = ground arith
  redeem_matched-IsMember u st store (some i) e =
      let (rows, inserted, same) =
        after_insert-inserted st store i
          (insert_row StoreError.membership_exists conn.organization_id
            (redeemed_member r.new_membership_id conn.organization_id u.id i) st.memberships)
          e in
      subst (IsMember conn.organization_id u.id) same (
        insert_row-IsMember StoreError.membership_exists conn.organization_id u.id _ st.memberships
          rows (ground arith) inserted)

  redeem_pending-IsMember :
      (u : User) (email : String) (st store : InviteStore)
      → redeem_pending_invitation lib.lower r.now r.new_membership_id conn.organization_id u.id
          email st
        ≡ some (store, true)
      → IsMember conn.organization_id u.id store.memberships
  unfolding redeem_pending_invitation
  redeem_pending-IsMember u email st store e =
      elim (Bool-cases (conn.organization_id == "" || (u.id == "" || email == ""))) [
        | inl b ↦ ground (arith, b, e)
        | inr b ↦
            redeem_matched-IsMember u st store
              (find_invitation (is_pending_for lib.lower r.now conn.organization_id email)
                st.pending)
              (ground (arith, b, e))
      ]

  -- The user of the identity, and the login.
  abbrev pub LoggedIn : Identity → CallbackState → CallbackState → Type 0
  LoggedIn i st after =
      (u : User) × (u.external_id ≡ i.sub) × (u.email ≡ i.email) × Enters u st after

  redeemed_if-Enters :
      (t : SsoTables) (st : CallbackState) (u : User) (i : Identity) (works : Bool)
      → (redeemed lib r d conn t st u i (
          if works
          then redeem_pending_invitation lib.lower r.now r.new_membership_id conn.organization_id
              u.id i.email st.store
          else none)).1
        ≡ entered target s
      → Enters u st
          (redeemed lib r d conn t st u i (
            if works
            then redeem_pending_invitation lib.lower r.now r.new_membership_id conn.organization_id
                u.id i.email st.store
            else none)).0
  redeemed_if-Enters t st u i true h =
      redeemed-Enters t st u i _ (λ store e. redeem_pending-IsMember u i.email st.store store e) h
  redeemed_if-Enters t st u i false h = cc

  joined-LoggedIn :
      (t : SsoTables) (st : CallbackState) (i : Identity) (found : Option (List User × User))
      → ((users : List User) (u : User)
          → found ≡ some (users, u)
          → (u.external_id ≡ i.sub) × (u.email ≡ i.email))
      → (joined lib r d conn t st i found).1 ≡ entered target s
      → LoggedIn i st (joined lib r d conn t st i found).0
  joined-LoggedIn t st i none k h = cc
  joined-LoggedIn t st i (some (users, u)) k h =
      let (same_sub, same_email) = k users u refl in
      (
        u,
        same_sub,
        same_email,
        redeemed_if-Enters t (record st { store = record st.store { users = users } }) u i
            r.redeem_works h,
      )

  pub enter-LoggedIn :
      (t : SsoTables) (st : CallbackState) (i : Identity)
      → (enter lib r d conn t st i).1 ≡ entered target s
      → LoggedIn i st (enter lib r d conn t st i).0
  unfolding enter
  enter-LoggedIn t st i h =
      joined-LoggedIn t st i _
        (λ users u e.
          upsert_user-named lib.lower conn.organization_id r.new_user_id i st.store.users users u
            (ground arith))
        h
