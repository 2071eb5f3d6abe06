-- ===== src/Oidc/Callback/Enter/Leaves.antt =====
-- After the state is consumed the callback's handler leaves the cache alone.
use axiaops.Common.{
  Bool-cases, ◌==◌, string_eq, nat_eq, String, ◌≡◌, refl, ◌∙◌, ◌⊎◌, inl, inr, Bool, true, false,
  not, ◌&&◌, ◌||◌, Option, none, some, List,
}
use axiaops.Cache.{Cache}
use axiaops.Membership.{Membership}
use axiaops.NativeAuth.{User}
use axiaops.NativeAuth.Invitations.{InviteStore}
use axiaops.Session.{Session}
use axiaops.Session.Manager.{State}
use axiaops.Jit.{Mapping}
use axiaops.Jit.Provision.{JitOutcome, noop, created, updated, JitError}
use axiaops.Oidc.{Library, SsoConnection, StateData, ConsumeError}
use axiaops.Oidc.Token.{Idp}
use axiaops.Oidc.Identity.{Identity}
use axiaops.Oidc.Callback.{
  CallbackRequest, SsoTables, AuditEntry, jit_provisioned, jit_role_updated, login_succeeded,
  CallbackState,
}
use axiaops.Oidc.Callback.Enter.{
  CallbackAnswer, fail, record_event, minted, mint, event_of, provisioned, mapped, redeemed, joined,
  enter, identified, located, resumed, with_states,
}

-- The states that an answer of the callback's handler leaves.
abbrev pub Leaves : Cache StateData → CallbackState × CallbackAnswer → Type 0
Leaves states a = a.0.states ≡ states

fail-Leaves :
    (conn : SsoConnection) (reason : String) (st : CallbackState)
    → Leaves st.states (fail conn reason st)
fail-Leaves conn reason st = elim (Bool-cases (conn.id == "" || conn.organization_id == "")) [
  | inl b ↦ rw b refl
  | inr b ↦ rw b refl
]

record_event-states :
    (conn : SsoConnection) (u : User) (e : AuditEntry) (st : CallbackState)
    → (record_event conn u e st).states ≡ st.states
record_event-states conn u e st = elim (Bool-cases (conn.organization_id == "" || u.id == "")) [
  | inl b ↦ rw b refl
  | inr b ↦ rw b refl
]

module _ (lib : Library) (r : CallbackRequest) (d : StateData) (conn : SsoConnection) where
  minted-Leaves :
      (st : CallbackState) (u : User) (made : Option (State × Session))
      → Leaves st.states (minted lib r d conn st u made)
  minted-Leaves st u none = fail-Leaves conn "mint_session_failed" st
  minted-Leaves st u (some (sessions, s)) =
      record_event-states conn u login_succeeded (record st { sessions = sessions })

  mint-Leaves : (st : CallbackState) (u : User) → Leaves st.states (mint lib r d conn st u)
  unfolding mint
  mint-Leaves st u = minted-Leaves st u _

  event_of-states :
      (u : User) (out : JitOutcome) (st : CallbackState)
      → (event_of lib r d conn u out st).states ≡ st.states
  event_of-states u noop st = refl
  event_of-states u created st = record_event-states conn u jit_provisioned st
  event_of-states u updated st = record_event-states conn u jit_role_updated st

  provisioned-Leaves :
      (st : CallbackState) (u : User) (made : JitError ⊎ (JitOutcome × List Membership))
      → Leaves st.states (provisioned lib r d conn st u made)
  provisioned-Leaves st u (inl err) = fail-Leaves conn "jit_failed" st
  provisioned-Leaves st u (inr (out, rows)) =
      let st' : CallbackState = record st { store = record st.store { memberships = rows } } in
      mint-Leaves (event_of lib r d conn u out st') u ∙ event_of-states u out st'

  mapped-Leaves :
      (st : CallbackState) (u : User) (i : Identity) (found : Option (List Mapping))
      → Leaves st.states (mapped lib r d conn st u i found)
  mapped-Leaves st u i none = fail-Leaves conn "group_mappings_unavailable" st
  mapped-Leaves st u i (some mappings) = provisioned-Leaves st u _

  redeemed-Leaves :
      (t : SsoTables) (st : CallbackState) (u : User) (i : Identity)
      (found : Option (InviteStore × Bool))
      → Leaves st.states (redeemed lib r d conn t st u i found)
  redeemed-Leaves t st u i none = fail-Leaves conn "invitation_redeem_failed" st
  redeemed-Leaves t st u i (some (store, true)) = mint-Leaves (record st { store = store }) u
  redeemed-Leaves t st u i (some (store, false)) =
      mapped-Leaves (record st { store = store }) u i (t.mappings conn.id)

  joined-Leaves :
      (t : SsoTables) (st : CallbackState) (i : Identity) (found : Option (List User × User))
      → Leaves st.states (joined lib r d conn t st i found)
  joined-Leaves t st i none = fail-Leaves conn "upsert_user_failed" st
  joined-Leaves t st i (some (users, u)) =
      redeemed-Leaves t (record st { store = record st.store { users = users } }) u i _

  identified-Leaves :
      (t : SsoTables) (st : CallbackState) (found : String ⊎ Identity)
      → Leaves st.states (identified lib r d conn t st found)
  unfolding enter
  identified-Leaves t st (inl reason) = fail-Leaves conn reason st
  identified-Leaves t st (inr i) = joined-Leaves t st i _

module _ (lib : Library) (idp : Idp) (public_host : String) (r : CallbackRequest)
    (t : SsoTables) where
  located-Leaves :
      (st : CallbackState) (d : StateData) (found : Option SsoConnection)
      → Leaves st.states (located lib idp public_host r t st d found)
  located-Leaves st d none = refl
  located-Leaves st d (some conn) = identified-Leaves lib r d conn t st _

  resumed-Leaves :
      (st : CallbackState) (found : ConsumeError ⊎ StateData)
      → Leaves st.states (resumed lib idp public_host r t st found)
  resumed-Leaves st (inl err) = refl
  resumed-Leaves st (inr d) =
      elim (Bool-cases (not (r.path_cid == "") && not (d.cid == r.path_cid))) [
        | inl b ↦ rw b refl
        | inr b ↦ rw b (located-Leaves st d _)
      ]

  pub with_states-Leaves :
      (st : CallbackState) (a : Cache StateData × (ConsumeError ⊎ StateData))
      → Leaves a.0 (with_states lib idp public_host r t st a)
  with_states-Leaves st (states, found) = resumed-Leaves (record st { states = states }) found
