-- ===== src/Oidc/Callback/Enter.antt =====
-- The rest of the callback's handler: from the identity to the session, and the whole.
mod Joined
mod Leaves
mod Accepted
mod SingleUse
mod Spent
mod Tests
use axiaops.Common.{
  if◌then◌else◌, ◌==◌, string_eq, nat_eq, ◌+◌, ◌/◌, String, ◌⊎◌, inl, inr, Bool, true, false, not,
  ◌&&◌, ◌||◌, Option, none, some, List, [], ◌∷◌, ◌++◌, arith,
}
use axiaops.Cache.{Cache}
use axiaops.Membership.{Membership}
use axiaops.NativeAuth.{User}
use axiaops.NativeAuth.Invitations.{InviteStore}
use axiaops.Session.{Session}
use axiaops.Session.Manager.{State, mint_session}
use axiaops.Jit.{Mapping, resolve_role}
use axiaops.Jit.Provision.{JitOutcome, JitError, provision}
use axiaops.Oidc.{
  Library, SsoConnection, StateData, ConsumeError, consume, get_sso_connection_by_id,
}
use axiaops.Oidc.Token.{Idp}
use axiaops.Oidc.Identity.{Identity}
use axiaops.Oidc.Initiate.{validated_return_to}
use axiaops.Oidc.Callback.{
  CallbackRequest, SsoTables, CallbackState, AuditEntry, login_failed, jit_provisioned,
  jit_role_updated, login_succeeded, upsert_user, redeem_pending_invitation, identify,
}

-- `refused` is the redirect to the login page; a login redirects to a target, with a session.
pub data CallbackAnswer : Type 0 where
  refused : CallbackAnswer
  entered : String → Session → CallbackAnswer

abbrev pub logged : AuditEntry → CallbackState → CallbackState
logged e st = record st { audit = st.audit ++ e ∷ [] }

-- `recordLoginFailed`, and the redirect.
abbrev pub fail : SsoConnection → String → CallbackState → CallbackState × CallbackAnswer
fail conn reason st = (
  if conn.id == "" || conn.organization_id == "" then st else logged (login_failed reason) st,
  refused,
)

-- `recordEvent`
abbrev pub record_event : SsoConnection → User → AuditEntry → CallbackState → CallbackState
record_event conn u e st = if conn.organization_id == "" || u.id == "" then st else logged e st

abbrev pub target_of : Library → StateData → String
target_of lib d =
    let target = validated_return_to lib d.redirect_after_login in
    if target == "" then "/" else target

abbrev pub sso_session : CallbackRequest → SsoConnection → User → Session
sso_session r conn u = record {
  id = r.session_id;
  user_id = u.id;
  organization_id = conn.organization_id;
  auth_mode = "sso";
  session_token_hash = r.token_hash;
  created_at = r.now;
  expires_at = r.session_expires_at;
  revoked_at = none;
  last_seen_at = r.now;
}

module _ (lib : Library) (r : CallbackRequest) (d : StateData) (conn : SsoConnection) where
  abbrev pub minted :
      CallbackState → User → Option (State × Session) → CallbackState × CallbackAnswer
  minted st u none = fail conn "mint_session_failed" st
  minted st u (some (sessions, s)) = (
    record_event conn u login_succeeded (record st { sessions = sessions }),
    entered (target_of lib d) s,
  )

  unfoldable pub mint : CallbackState → User → CallbackState × CallbackAnswer
  unfolding mint_session validated_return_to
  mint st u =
      minted st u (mint_session r.faults r.now r.per_user_cap (sso_session r conn u) st.sessions)

  abbrev pub event_of : User → JitOutcome → CallbackState → CallbackState
  event_of u JitOutcome.noop st = st
  event_of u JitOutcome.created st = record_event conn u jit_provisioned st
  event_of u JitOutcome.updated st = record_event conn u jit_role_updated st

  abbrev pub provisioned :
      CallbackState
      → User
      → JitError ⊎ (JitOutcome × List Membership)
      → CallbackState × CallbackAnswer
  provisioned st u (inl err) = fail conn "jit_failed" st
  provisioned st u (inr (outcome, rows)) =
      mint (event_of u outcome (record st { store = record st.store { memberships = rows } })) u

  abbrev pub mapped :
      CallbackState → User → Identity → Option (List Mapping) → CallbackState × CallbackAnswer
  mapped st u i none = fail conn "group_mappings_unavailable" st
  mapped st u i (some mappings) = provisioned st u (
      provision conn.organization_id u.id (resolve_role mappings i.groups conn.default_role)
        r.new_membership_id st.store.memberships)

  abbrev pub redeemed :
      SsoTables
      → CallbackState
      → User
      → Identity
      → Option (InviteStore × Bool)
      → CallbackState × CallbackAnswer
  redeemed t st u i none = fail conn "invitation_redeem_failed" st
  redeemed t st u i (some (store, true)) = mint (record st { store = store }) u
  redeemed t st u i (some (store, false)) =
      mapped (record st { store = store }) u i (t.mappings conn.id)

  abbrev pub joined :
      SsoTables
      → CallbackState
      → Identity
      → Option (List User × User)
      → CallbackState × CallbackAnswer
  joined t st i none = fail conn "upsert_user_failed" st
  joined t st i (some (users, u)) =
      let st' : CallbackState = record st { store = record st.store { users = users } } in
      redeemed t st' u i (
        if r.redeem_works
        then redeem_pending_invitation lib.lower r.now r.new_membership_id conn.organization_id u.id
            i.email st'.store
        else none)

  -- What the handler does with the identity.
  unfoldable pub enter : SsoTables → CallbackState → Identity → CallbackState × CallbackAnswer
  unfolding mint upsert_user redeem_pending_invitation provision resolve_role
  enter t st i = joined t st i (
      if r.upsert_works
      then upsert_user lib.lower conn.organization_id r.new_user_id i st.store.users
      else none)

  abbrev pub identified :
      SsoTables → CallbackState → String ⊎ Identity → CallbackState × CallbackAnswer
  identified t st (inl reason) = fail conn reason st
  identified t st (inr i) = enter t st i

module _ (lib : Library) (idp : Idp) (public_host : String) (r : CallbackRequest)
    (t : SsoTables) where
  abbrev pub located :
      CallbackState → StateData → Option SsoConnection → CallbackState × CallbackAnswer
  located st d none = (st, refused)
  located st d (some conn) = identified lib r d conn t st (identify lib idp public_host r t conn d)

  abbrev pub resumed : CallbackState → ConsumeError ⊎ StateData → CallbackState × CallbackAnswer
  resumed st (inl err) = (st, refused)
  resumed st (inr d) =
      if not (r.path_cid == "") && not (d.cid == r.path_cid)
      then (st, refused)
      else located st d
          (if r.connection_query_works then get_sso_connection_by_id d.cid t.connections else none)

  abbrev pub with_states :
      CallbackState → Cache StateData × (ConsumeError ⊎ StateData) → CallbackState × CallbackAnswer
  with_states st (states, found) = resumed (record st { states = states }) found

  -- The handler of `NewCallbackHandler`.
  unfoldable pub callback : CallbackState → CallbackState × CallbackAnswer
  unfolding consume identify enter get_sso_connection_by_id
  callback st =
      if r.code == "" || r.state == ""
      then (st, refused)
      else with_states st (consume r.reply r.cache_now r.now r.state st.states)
