-- ===== src/Oidc/Initiate.antt =====
-- The start of a ceremony: services/api/internal/sso/initiate.go. `public_host` is the host with its
-- trailing slashes trimmed.
use Prim.Native.Char.{code}
use Prim.Native.String.{[], ◌∷◌}
use axiaops.Common.{
  ltb, if◌then◌else◌, ◌==◌, contains, string_eq, nat_eq, has_prefix, ℕ, ◌+◌, String, ◌<>◌, Bool,
  false, not, ◌||◌, Option, none, some, List, [], ◌∷◌, ◌++◌,
}
use axiaops.Common.Dict.{Dict}
use axiaops.Cache.{Cache}
use axiaops.Oidc.{
  Library, SsoConnection, get_sso_connection_by_id, StateData, generate_state, persist,
}
use axiaops.Oidc.Token.{DiscoveryDoc, Idp, discovery}

-- The bytes of a text in UTF-8.
unfoldable pub byte_length : String → ℕ
byte_length [] = 0
byte_length (c ∷ s) =
    let rest = byte_length s in
    (if ltb (code c) 128
      then 1
      else if ltb (code c) 2048
      then 2
      else if ltb (code c) 65536
      then 3
      else 4)
    + rest

-- A backslash, NUL, a line feed or a carriage return.
unfoldable pub has_quirk : String → Bool
has_quirk [] = false
has_quirk (c ∷ s) = contains (92 ∷ 0 ∷ 10 ∷ 13 ∷ []) (code c) || has_quirk s

-- `ValidatedReturnTo`
unfoldable pub validated_return_to : Library → String → String
unfolding byte_length has_quirk
validated_return_to lib raw =
    if raw == "" || ltb 1024 (byte_length raw)
    then ""
    else if not (lib.is_local_url raw)
    then ""
    else if not (has_prefix raw "/")
    then ""
    else if has_quirk raw
    then ""
    else raw

abbrev pub callback_path : String
callback_path = "/v1/sso/oidc/callback"

pub record AuthorizeParams : Type 0 where
  pub client_id : String
  pub redirect_uri : String
  pub scope : String
  pub state : String
  pub sent_nonce : String
  pub code_challenge : String
  pub login_hint : String
  pub force_reauth : Bool

-- The query that `buildAuthorizeURL` adds to the endpoint's.
unfoldable pub authorize_query : AuthorizeParams → Dict String String
authorize_query p =
    ("response_type", "code")
      ∷ ("client_id", p.client_id)
      ∷ ("redirect_uri", p.redirect_uri)
      ∷ ("scope", p.scope)
      ∷ ("state", p.state)
      ∷ ("nonce", p.sent_nonce)
      ∷ ("code_challenge", p.code_challenge)
      ∷ ("code_challenge_method", "S256")
      ∷ (if p.force_reauth then ("prompt", "login") ∷ [] else [])
    ++ (if p.login_hint == "" then [] else ("login_hint", p.login_hint) ∷ [])

pub data InitiateAnswer : Type 0 where
  missing_id connection_not_found internal_error not_active not_oidc : InitiateAnswer
  misconfigured discovery_unavailable : InitiateAnswer
  redirected : String → Dict String String → InitiateAnswer

-- A request, and what it draws.
pub record InitiateRequest : Type 0 where
  pub cid : String
  pub return_to : String
  pub email : String
  pub state_draw : Option String
  pub verifier_draw : Option String
  pub nonce_draw : Option String
  pub drawn_at : ℕ
  pub stored_at : ℕ
  pub connection_query_works : Bool
  pub set_works : Bool

module _ (lib : Library) (idp : Idp) (public_host : String) (r : InitiateRequest) where
  abbrev pub authorize_params : SsoConnection → String → StateData → AuthorizeParams
  authorize_params conn state d = record {
    client_id = conn.oidc_client_id;
    redirect_uri = public_host <> callback_path;
    scope = "openid email profile";
    state = state;
    sent_nonce = d.nonce;
    code_challenge = lib.code_challenge d.code_verifier;
    login_hint = r.email;
    force_reauth = conn.force_reauth;
  }

  -- The redirect, once the state is stored.
  abbrev pub redirect_to : SsoConnection → DiscoveryDoc → String → StateData → InitiateAnswer
  redirect_to conn doc state d =
      if lib.is_url doc.authorization_endpoint
      then redirected doc.authorization_endpoint (authorize_query (authorize_params conn state d))
      else internal_error

  abbrev pub stored :
      Cache StateData
      → SsoConnection
      → DiscoveryDoc
      → String
      → StateData
      → Option (Cache StateData)
      → Cache StateData × InitiateAnswer
  stored c conn doc state d none = (c, internal_error)
  stored c conn doc state d (some c') = (c', redirect_to conn doc state d)

  abbrev pub generated :
      Cache StateData
      → SsoConnection
      → DiscoveryDoc
      → Option (String × StateData)
      → Cache StateData × InitiateAnswer
  generated c conn doc none = (c, internal_error)
  generated c conn doc (some (state, d)) =
      stored c conn doc state d (persist r.set_works r.stored_at state d c)

  abbrev pub discovered :
      Cache StateData → SsoConnection → Option DiscoveryDoc → Cache StateData × InitiateAnswer
  discovered c conn none = (c, discovery_unavailable)
  discovered c conn (some doc) =
      if doc.authorization_endpoint == ""
      then (c, discovery_unavailable)
      else generated c conn doc (
          generate_state r.state_draw r.verifier_draw r.nonce_draw r.drawn_at r.cid
            (validated_return_to lib r.return_to))

  abbrev pub started : Cache StateData → Option SsoConnection → Cache StateData × InitiateAnswer
  started c none = (c, connection_not_found)
  started c (some conn) =
      if not (conn.status == "active")
      then (c, not_active)
      else if not (conn.protocol == "oidc")
      then (c, not_oidc)
      else if conn.oidc_client_id == "" || conn.oidc_discovery_url == ""
      then (c, misconfigured)
      else discovered c conn (discovery idp conn)

  -- The handler of `NewInitiateHandler`.
  unfoldable pub initiate : List SsoConnection → Cache StateData → Cache StateData × InitiateAnswer
  unfolding authorize_query validated_return_to generate_state persist get_sso_connection_by_id
  initiate connections c =
      if r.cid == ""
      then (c, missing_id)
      else if not r.connection_query_works
      then (c, internal_error)
      else started c (get_sso_connection_by_id r.cid connections)
