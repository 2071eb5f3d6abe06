-- ===== src/Oidc/Callback.antt =====
-- The end of a ceremony: the handler of services/api/internal/sso/oidc_callback.go, with
-- `UpsertUser` of services/shared/storage/postgres/postgres.go and `RedeemPendingInvitation` of
-- services/shared/storage/postgres/invitations.go. The tables of users, memberships and pending
-- invitations are those of NativeAuth.Invitations, the sessions those of Session.Manager. In
-- Postgres a statement that fails ends its transaction. The stamp `sso_connection_id` of a user, the
-- encrypted token of the session and the metadata of the audit rows are left out.
pub mod Enter
use axiaops.Common.{
  str_lt, compare-flip, str_lt_trans, str_lt_asym, str_lt_irrefl, str_lt_total, ltb, leb,
  if◌then◌else◌, Bool-cases, Option-cases, is_some, or_else, length, take, count_if, All,
  length-append, In, In-append_left, In-append_right, Eq, ◌==◌, contains, string_eq, nat_eq,
  str_contains, has_prefix, ℕ, zero, suc, ◌+◌, ◌-◌, ◌*◌, ◌/◌, ◌%◌, ◌^◌, ◌≤◌, ◌<◌, String, ◌<>◌, ◌≡◌,
  refl, sym, ap, ◌∙◌, ◌≢◌, ◌↔◌, ◌⊎◌, inl, inr, Bool, true, false, not, ◌&&◌, ◌||◌, Option, none,
  some, List, [], ◌∷◌, ◌++◌, map, arith,
}
use axiaops.Common.Dict.{Dict}
use axiaops.Cache.{Cache}
use axiaops.Membership.{Membership, StoreError, insert_row}
use axiaops.NativeAuth.{User, taken, clash}
use axiaops.NativeAuth.Invitations.{
  Invitation, InviteStore, InviteError, find_user, find_invitation, remove_invitation,
}
use axiaops.Session.Manager.{Faults, State}
use axiaops.Jit.{Mapping}
use axiaops.Oidc.{
  Library, SsoConnection, SsoDomain, get_sso_connection_by_id, get_verified_sso_domain_by_name,
  StateData, state_ttl, state_key, generate_state, persist, Reply, answered, lost, down,
  ConsumeError, state_not_found, state_unread, consumed, replied, consume, ◌>>=◌, ◌>>◌, demand,
  require,
}
use axiaops.Oidc.Token.{Idp, discovery, validate_id_token, exchange_code, CodeExchange}
use axiaops.Oidc.Identity.{Identity, extract_claims, email_domain}
use axiaops.Oidc.Initiate.{callback_path}

-- `UPDATE users SET email, name` of the row, which the unique index on emails may refuse.
unfoldable pub renamed : String → String → String → List User → List User
renamed id email name [] = []
renamed id email name (u ∷ users) =
    let rest = renamed id email name users in
    if u.id == id then record u { email = email; name = name } ∷ users else u ∷ rest

-- The email is that of another user.
unfoldable pub email_taken : (String → String) → String → String → List User → Bool
email_taken lower id email [] = false
email_taken lower id email (u ∷ users) =
    (not (u.id == id) && (lower u.email == lower email && not (lower email == "")))
    || email_taken lower id email users

abbrev pub new_sso_user : String → String → Identity → User
new_sso_user new_id organization_id i = record {
  id = new_id;
  organization_id = organization_id;
  external_id = i.sub;
  email = i.email;
  name = i.name;
  password_hash = "";
  password_set_at = none;
}

module _ (lower : String → String) (organization_id new_id : String) (i : Identity) where
  abbrev pub upserted : List User → Option User → Option (List User × User)
  upserted users none =
      if taken lower (new_sso_user new_id organization_id i) users
      then none
      else some (
        users ++ new_sso_user new_id organization_id i ∷ [],
        new_sso_user new_id organization_id i,
      )
  upserted users (some u) =
      if email_taken lower u.id i.email users
      then none
      else some (renamed u.id i.email i.name users, record u { email = i.email; name = i.name })

  -- `UpsertUser`, with the user that it reads back; the conflict is on the external identifier.
  unfoldable pub upsert_user : List User → Option (List User × User)
  unfolding taken renamed email_taken find_user
  upsert_user users = upserted users (find_user (λ u. u.external_id == i.sub) users)

abbrev pub is_pending_for : (String → String) → ℕ → String → String → Invitation → Bool
is_pending_for lower now organization_id email i =
    i.organization_id == organization_id
    && (lower i.email == lower email && (i.status == "pending" && ltb now i.expires_at))

abbrev pub redeemed_member : String → String → String → Invitation → Membership
redeemed_member new_id organization_id user_id i = record {
  id = new_id;
  organization_id = organization_id;
  user_id = user_id;
  role = i.role;
  invited_by = i.invited_by_user_id;
  provisioned_via = "invitation";
}

-- After a refused `INSERT` the `DELETE` fails as well, so the call is an error.
abbrev pub after_insert :
    InviteStore → Invitation → StoreError ⊎ List Membership → Option (InviteStore × Bool)
after_insert st i (inl err) = none
after_insert st i (inr rows) =
    some (record st { memberships = rows; pending = remove_invitation i.id st.pending }, true)

abbrev pub redeem_matched :
    String → String → String → InviteStore → Option Invitation → Option (InviteStore × Bool)
redeem_matched new_id organization_id user_id st none = some (st, false)
redeem_matched new_id organization_id user_id st (some i) = after_insert st i (
    insert_row StoreError.membership_exists organization_id
      (redeemed_member new_id organization_id user_id i) st.memberships)

-- `RedeemPendingInvitation`; `none` is an error.
unfoldable pub redeem_pending_invitation :
    (String → String)
    → ℕ
    → String
    → String
    → String
    → String
    → InviteStore
    → Option (InviteStore × Bool)
unfolding find_invitation remove_invitation
redeem_pending_invitation lower now new_id organization_id user_id email st =
    if organization_id == "" || (user_id == "" || email == "")
    then some (st, false)
    else redeem_matched new_id organization_id user_id st
        (find_invitation (is_pending_for lower now organization_id email) st.pending)

-- A request to the callback; what its reads of the clock, its draws and the outside calls give.
pub record CallbackRequest : Type 0 where
  pub path_cid : String
  pub code : String
  pub state : String
  pub reply : Reply
  pub cache_now : ℕ
  pub now : ℕ
  pub connection_query_works : Bool
  pub domain_query_works : Bool
  pub upsert_works : Bool
  pub redeem_works : Bool
  pub new_user_id : String
  pub new_membership_id : String
  pub session_id : String
  pub token_hash : String
  pub session_expires_at : ℕ
  pub per_user_cap : ℕ
  pub faults : Faults

-- The part of the database that the handler only reads; `none` of the mappings is a failed query.
pub record SsoTables : Type 0 where
  pub connections : List SsoConnection
  pub domains : List SsoDomain
  pub mappings : String → Option (List Mapping)

-- `recordLoginFailed` with its reason, and `recordEvent`.
pub data AuditEntry : Type 0 where
  login_failed : String → AuditEntry
  jit_provisioned jit_role_updated login_succeeded : AuditEntry

pub record CallbackState : Type 0 where
  pub states : Cache StateData
  pub store : InviteStore
  pub sessions : State
  pub audit : List AuditEntry

module _ (lib : Library) (idp : Idp) (public_host : String) (r : CallbackRequest) where
  -- `decryptClientSecret`
  abbrev pub decrypt_client_secret : SsoConnection → Option String
  decrypt_client_secret conn =
      if conn.oidc_client_secret_ciphertext == ""
      then none
      else lib.decrypt conn.oidc_client_secret_ciphertext

  abbrev pub code_exchange : SsoConnection → StateData → String → CodeExchange
  code_exchange conn d secret = record {
    code = r.code;
    code_verifier = d.code_verifier;
    client_id = conn.oidc_client_id;
    client_secret = secret;
    redirect_uri = public_host <> callback_path;
  }

  abbrev pub is_domain_of : SsoConnection → SsoDomain → Bool
  is_domain_of conn dom =
      dom.organization_id == conn.organization_id && dom.sso_connection_id == conn.id

  abbrev pub domain_of : SsoTables → String → Option SsoDomain
  domain_of t email =
      if r.domain_query_works
      then get_verified_sso_domain_by_name lib.lower (email_domain lib email) t.domains
      else none

  -- The handler from the connection to the domain: the identity, or the reason in the audit row.
  unfoldable pub identify : SsoTables → SsoConnection → StateData → String ⊎ Identity
  unfolding exchange_code validate_id_token extract_claims email_domain
      get_verified_sso_domain_by_name
  identify t conn d = do
    require (conn.status == "active" && conn.protocol == "oidc") "connection_inactive"
    secret ← demand (decrypt_client_secret conn) "client_secret_unavailable"
    doc ← demand (discovery idp conn) "discovery_unavailable"
    id_token ←
        demand (exchange_code idp doc.token_endpoint (code_exchange conn d secret))
          "code_exchange_failed"
    claims ← demand (validate_id_token idp r.now conn id_token d.nonce) "id_token_invalid"
    i ← demand (extract_claims lib.is_address claims conn) "claim_extraction_failed"
    dom ← demand (domain_of t i.email) "domain_unverified"
    require (is_domain_of conn dom) "domain_cross_org"
    inr i
