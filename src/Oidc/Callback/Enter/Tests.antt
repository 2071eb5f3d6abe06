-- ===== src/Oidc/Callback/Enter/Tests.antt =====
-- A ceremony that begins, ends with a session, and is not repeated.
use axiaops.Common.{
  In, ◌==◌, contains, string_eq, nat_eq, ◌+◌, String, ◌≡◌, refl, inr, true, false, none, some, [],
  ◌∷◌,
}
use axiaops.Common.Dict.{lookup, insert}
use axiaops.Cache.{Cache, empty, set}
use axiaops.NativeAuth.{User}
use axiaops.Oidc.{Library, SsoConnection, StateData, state_ttl, state_key, answered, consume}
use axiaops.Oidc.Token.{
  text, Claims, DiscoveryDoc, parsed, Idp, allowed_signing_algs, intersect_allowed, discovery,
  validate_id_token,
}
use axiaops.Oidc.Callback.Enter.SingleUse.{initiating, calling, serve_all, callback-single_use}
use axiaops.Oidc.Initiate.{InitiateRequest, initiate}
use axiaops.Oidc.Callback.{new_sso_user, CallbackRequest, SsoTables, CallbackState}
use axiaops.Oidc.Callback.Enter.{refused, entered, sso_session, callback}
use axiaops.Oidc.Callback.Enter.Accepted.{Accepted, callback-Accepted}
use axiaops.Oidc.Callback.Enter.SingleUse.{initiating, calling, serve_all, callback-single_use}
use axiaops.Oidc.Token.Sound.{Sound, validate_id_token-Sound}

abbrev lib : Library
lib = record {
  trim_space = λ s. s;
  lower = λ s. s;
  is_address = λ s. true;
  is_url = λ s. true;
  is_local_url = λ s. true;
  code_challenge = λ s. s;
  decrypt = λ s. some s;
}

abbrev claims : Claims
claims =
    ("iss", text "https://idp")
    ∷ ("aud", text "client")
    ∷ ("nonce", text "n1")
    ∷ ("sub", text "subject")
    ∷ ("email", text "ann@acme.com")
    ∷ []

abbrev document : DiscoveryDoc
document = record {
  issuer = "https://idp";
  authorization_endpoint = "https://idp/authorize";
  token_endpoint = "https://idp/token";
  jwks_uri = "https://idp/keys";
  id_token_signing_algs = "HS256" ∷ "RS256" ∷ [];
}

abbrev idp : Idp
idp = record {
  discovery_doc = λ cid url. some document;
  post = λ endpoint p. some (record { status = 200; id_token = "token"; error = "" });
  keys = λ bypass cid uri. some "keys";
  parse = λ algs keys token. parsed claims;
}

abbrev conn : SsoConnection
conn = record {
  id = "c1";
  organization_id = "acme";
  protocol = "oidc";
  status = "active";
  default_role = "member";
  oidc_client_id = "client";
  oidc_client_secret_ciphertext = "secret";
  oidc_discovery_url = "https://idp/.well-known";
  oidc_tenant_id = "";
  force_reauth = true;
}

abbrev tables : SsoTables
tables = record {
  connections = conn ∷ [];
  domains =
      record {
        organization_id = "acme";
        sso_connection_id = "c1";
        domain = "acme.com";
        status = "verified";
      }
      ∷ [];
  mappings = λ id. some [];
}

abbrev start : InitiateRequest
start = record {
  cid = "c1";
  return_to = "/zombies";
  email = "";
  state_draw = some "s1";
  verifier_draw = some "v1";
  nonce_draw = some "n1";
  drawn_at = 100;
  stored_at = 110;
  connection_query_works = true;
  set_works = true;
}

abbrev finish : CallbackRequest
finish = record {
  path_cid = "";
  code = "code";
  state = "s1";
  reply = answered;
  cache_now = 200;
  now = 210;
  connection_query_works = true;
  domain_query_works = true;
  upsert_works = true;
  redeem_works = true;
  new_user_id = "u1";
  new_membership_id = "m1";
  session_id = "session";
  token_hash = "hash";
  session_expires_at = 9000;
  per_user_cap = 5;
  faults = record { get_works = true; put_works = true; delete_works = true };
}

abbrev stored_state : StateData
stored_state = record {
  cid = "c1";
  code_verifier = "v1";
  nonce = "n1";
  redirect_after_login = "/zombies";
  expires_at = 100 + state_ttl;
}

abbrev begun : CallbackState
begun = record {
  states = set 110 (state_key "s1") stored_state state_ttl empty;
  store = record { users = []; memberships = []; pending = [] };
  sessions = record { table = []; cache = none };
  audit = [];
}

abbrev user : User
user =
    new_sso_user "u1" "acme"
      (record { sub = "subject"; email = "ann@acme.com"; name = ""; groups = [] })

initiated : (initiate lib idp "https://axiaops" start (conn ∷ []) empty).0 ≡ begun.states
unfolding initiate set string_eq nat_eq lookup
initiated = refl

finished :
    (callback lib idp "https://axiaops" finish tables begun).1
    ≡ entered "/zombies" (sso_session finish conn user)
unfolding callback set string_eq nat_eq lookup insert
finished = refl

callback-Accepted_example :
    (d : StateData) × (states : Cache StateData) × ((finish.code == "") ≡ false)
    × (consume answered 200 210 "s1" begun.states ≡ (states, inr d))
    × Accepted lib idp "https://axiaops" finish tables "/zombies"
        (sso_session finish conn user)
        d
        begun
        (callback lib idp "https://axiaops" finish tables begun).0
callback-Accepted_example =
    callback-Accepted lib idp "https://axiaops" finish tables "/zombies"
      (sso_session finish conn user) begun finished

abbrev restart : InitiateRequest
restart = record start { state_draw = some "s2" }

callback-single_use_example :
    (callback lib idp "https://axiaops" finish tables (
      serve_all lib idp "https://axiaops"
        (initiating (conn ∷ []) restart ∷ calling tables finish ∷ [])
        (callback lib idp "https://axiaops" finish tables begun).0)).1
    ≡ refused
unfolding string_eq
callback-single_use_example =
    callback-single_use lib idp "https://axiaops" tables tables finish finish
      (initiating (conn ∷ []) restart ∷ calling tables finish ∷ []) begun refl refl (λ e. cc e)
      (refl, (refl, tt)) refl

-- The user of another organization who has the subject of the token is the one who logs in.
abbrev victim : User
victim = record {
  id = "v1";
  organization_id = "other";
  external_id = "subject";
  email = "victim@other.com";
  name = "";
  password_hash = "";
  password_set_at = none;
}

other_organization :
    (callback lib idp "https://axiaops" finish tables
      (record begun { store = record { users = victim ∷ []; memberships = []; pending = [] } })).1
    ≡ entered "/zombies" (sso_session finish conn victim)
unfolding callback set string_eq nat_eq lookup insert
other_organization = refl

validated : validate_id_token idp 210 conn "token" "n1" ≡ some claims
unfolding validate_id_token string_eq nat_eq lookup
validated = refl

validate_id_token-Sound_example :
    (doc : DiscoveryDoc) × (discovery idp conn ≡ some doc)
    × Sound idp 210 conn "token" "n1" claims doc
    × ((a : String)
        → In a (intersect_allowed doc.id_token_signing_algs)
        → (contains allowed_signing_algs a ≡ true) × In a doc.id_token_signing_algs)
validate_id_token-Sound_example = validate_id_token-Sound idp 210 conn "token" "n1" claims validated
