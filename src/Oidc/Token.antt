-- ===== src/Oidc/Token.antt =====
-- The ID token: services/api/internal/sso/oidc.go, and `exchangeCode` of
-- services/api/internal/sso/oidc_callback.go. The provider is `Idp`: what the discovery, the POST to
-- the token endpoint, the fetch of the keys and the JWT parser give. The errors of the validation,
-- which its caller does not tell apart, are `none`. The eviction of the cached keys is left out.
pub mod Sound
use axiaops.Common.{
  ltb, if◌then◌else◌, ◌==◌, contains, string_eq, nat_eq, str_contains, ℕ, ◌+◌, ◌*◌, String, Bool,
  true, false, not, ◌&&◌, ◌||◌, Option, none, some, List, [], ◌∷◌, arith,
}
use axiaops.Common.Dict.{Dict, lookup}
use axiaops.Common.Int.{ℤ, pos, negsuc, unix_time}
use axiaops.Oidc.{SsoConnection}

-- A value of the JSON of a token. A number is the integer that its conversion to int64 gives, and
-- an item of an array that is no text is `none`.
pub data Claim : Type 0 where
  text : String → Claim
  number : ℤ → Claim
  items : List (Option String) → Claim
  strings : List String → Claim
  other : Claim

abbrev pub Claims : Type 0
Claims = Dict String Claim

pub record DiscoveryDoc : Type 0 where
  pub issuer : String
  pub authorization_endpoint : String
  pub token_endpoint : String
  pub jwks_uri : String
  pub id_token_signing_algs : List String

-- `codeExchangeParams`
pub record CodeExchange : Type 0 where
  pub code : String
  pub code_verifier : String
  pub client_id : String
  pub client_secret : String
  pub redirect_uri : String

-- A response of the token endpoint that is read and is JSON.
pub record TokenResponse : Type 0 where
  pub status : ℕ
  pub id_token : String
  pub error : String

-- What the JWT parser gives; `unverified` are the two errors of `isSignatureError`.
pub data Parsed : Type 0 where
  parsed : Claims → Parsed
  unverified rejected : Parsed

-- The keys of a connection are read through a cache unless the flag is set.
pub record Idp : Type 0 where
  pub discovery_doc : String → String → Option DiscoveryDoc
  pub post : String → CodeExchange → Option TokenResponse
  pub keys : Bool → String → String → Option String
  pub parse : List String → String → String → Parsed

-- A claim that is a text, or the empty text.
abbrev pub text_of : Option Claim → String
text_of (some (text s)) = s
text_of (some (number n)) = ""
text_of (some (items xs)) = ""
text_of (some (strings xs)) = ""
text_of (some other) = ""
text_of none = ""

abbrev pub claim_text : String → Claims → String
claim_text key claims = text_of (lookup key claims)

abbrev pub allowed_signing_algs : List String
allowed_signing_algs =
    "RS256" ∷ "RS384" ∷ "RS512" ∷ "ES256" ∷ "ES384" ∷ "ES512" ∷ "PS256" ∷ "PS384" ∷ "PS512" ∷ []

unfoldable pub intersect_allowed : List String → List String
intersect_allowed [] = []
intersect_allowed (a ∷ algs) =
    let rest = intersect_allowed algs in if contains allowed_signing_algs a then a ∷ rest else rest

unfoldable pub has_item : String → List (Option String) → Bool
has_item want [] = false
has_item want (none ∷ xs) = has_item want xs
has_item want (some s ∷ xs) = s == want || has_item want xs

unfoldable pub audience_matches : Option Claim → String → Bool
unfolding has_item
audience_matches (some (text a)) want = not (want == "") && a == want
audience_matches (some (items xs)) want = not (want == "") && has_item want xs
audience_matches (some (number n)) want = false
audience_matches (some (strings xs)) want = false
audience_matches (some other) want = false
audience_matches none want = false

unfoldable pub named_items : List (Option String) → ℕ
named_items [] = 0
named_items (none ∷ xs) = named_items xs
named_items (some s ∷ xs) = (if s == "" then 0 else 1) + named_items xs

unfoldable pub is_multi_audience : Option Claim → Bool
unfolding named_items
is_multi_audience (some (items xs)) = ltb 1 (named_items xs)
is_multi_audience (some (text a)) = false
is_multi_audience (some (number n)) = false
is_multi_audience (some (strings xs)) = false
is_multi_audience (some other) = false
is_multi_audience none = false

-- `After`, of a time in seconds and one in nanoseconds.
abbrev pub is_after : ℕ → ℤ → Bool
is_after limit (pos seconds) = ltb limit (seconds * 1_000_000_000)
is_after limit (negsuc n) = false

-- The time in seconds is after the clock and two minutes.
abbrev pub in_future : ℕ → Option Claim → Bool
in_future now (some (number seconds)) = is_after (now + 120_000_000_000) (unix_time seconds)
in_future now (some (text s)) = false
in_future now (some (items xs)) = false
in_future now (some (strings xs)) = false
in_future now (some other) = false
in_future now none = false

-- `validateClaims`, whether it gives no error.
unfoldable pub validate_claims : ℕ → Claims → SsoConnection → DiscoveryDoc → String → Bool
unfolding audience_matches is_multi_audience
validate_claims now claims conn doc expected_nonce =
    let iss = claim_text "iss" claims in
    if iss == "" || not (iss == doc.issuer)
    then false
    else if not (conn.oidc_tenant_id == "") && not (str_contains iss conn.oidc_tenant_id)
    then false
    else if not (audience_matches (lookup "aud" claims) conn.oidc_client_id)
    then false
    else if is_multi_audience (lookup "aud" claims)
        && (claim_text "azp" claims == "" || not (claim_text "azp" claims == conn.oidc_client_id))
    then false
    else if not (expected_nonce == "") && not (claim_text "nonce" claims == expected_nonce)
    then false
    else not (in_future now (lookup "iat" claims))

module _ (idp : Idp) where
  -- `Discovery`
  abbrev pub discovery : SsoConnection → Option DiscoveryDoc
  discovery conn =
      if conn.oidc_discovery_url == ""
      then none
      else idp.discovery_doc conn.id conn.oidc_discovery_url

  abbrev pub parse_with : List String → String → Option String → Parsed
  parse_with algs raw_token none = rejected
  parse_with [] raw_token (some keys) = rejected
  parse_with (a ∷ algs) raw_token (some keys) = idp.parse (a ∷ algs) keys raw_token

  unfoldable pub parse_token : SsoConnection → DiscoveryDoc → String → Bool → Parsed
  unfolding intersect_allowed
  parse_token conn doc raw_token bypass_cache =
      parse_with (intersect_allowed doc.id_token_signing_algs) raw_token
        (idp.keys bypass_cache conn.id doc.jwks_uri)

  abbrev pub checked : ℕ → SsoConnection → DiscoveryDoc → String → Claims → Option Claims
  checked now conn doc expected_nonce claims =
      if validate_claims now claims conn doc expected_nonce then some claims else none

  -- The second parse, with fresh keys.
  abbrev pub reparsed : ℕ → SsoConnection → DiscoveryDoc → String → Parsed → Option Claims
  reparsed now conn doc expected_nonce (parsed claims) = checked now conn doc expected_nonce claims
  reparsed now conn doc expected_nonce unverified = none
  reparsed now conn doc expected_nonce rejected = none

  abbrev pub first_parsed :
      ℕ → SsoConnection → DiscoveryDoc → String → String → Parsed → Option Claims
  first_parsed now conn doc raw_token expected_nonce (parsed claims) =
      checked now conn doc expected_nonce claims
  first_parsed now conn doc raw_token expected_nonce unverified =
      reparsed now conn doc expected_nonce (parse_token conn doc raw_token true)
  first_parsed now conn doc raw_token expected_nonce rejected = none

  abbrev pub with_doc : ℕ → SsoConnection → String → String → Option DiscoveryDoc → Option Claims
  with_doc now conn raw_token expected_nonce none = none
  with_doc now conn raw_token expected_nonce (some doc) =
      first_parsed now conn doc raw_token expected_nonce (parse_token conn doc raw_token false)

  -- `ValidateIDToken`
  unfoldable pub validate_id_token : ℕ → SsoConnection → String → String → Option Claims
  unfolding validate_claims parse_token
  validate_id_token now conn raw_token expected_nonce =
      if conn.oidc_client_id == ""
      then none
      else with_doc now conn raw_token expected_nonce (discovery conn)

  abbrev pub id_token_of : Option TokenResponse → Option String
  id_token_of none = none
  id_token_of (some r) =
      if not (r.status == 200) || not (r.error == "")
      then none
      else if r.id_token == ""
      then none
      else some r.id_token

  -- `exchangeCode`
  unfoldable pub exchange_code : String → CodeExchange → Option String
  exchange_code token_endpoint p =
      if token_endpoint == "" then none else id_token_of (idp.post token_endpoint p)
