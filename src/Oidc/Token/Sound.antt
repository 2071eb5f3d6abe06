-- ===== src/Oidc/Token/Sound.antt =====
-- What a validated token has shown.
use axiaops.Common.{
  ℕ, ◌*◌, ◌+◌, ◌≤◌, ◌⊎◌, if◌then◌else◌, Bool-cases, In, ◌==◌, contains, string_eq, nat_eq,
  str_contains, String, ◌≡◌, refl, sym, ap, ◌∙◌, inl, inr, Bool, true, false, not, ◌||◌, Option,
  none, some, List, [], ◌∷◌, arith,
}
use mathlib.Core.Path.{subst}
use axiaops.Common.Dict.{lookup}
use axiaops.Common.Int.{pos, negsuc, end_of_time}
use axiaops.Oidc.{SsoConnection}
use axiaops.Oidc.Token.{
  Claim, text, number, items, strings, other, Claims, DiscoveryDoc, Idp, Parsed, parsed, unverified,
  rejected, claim_text, allowed_signing_algs, intersect_allowed, audience_matches,
  is_multi_audience, in_future, validate_claims, discovery, parse_with, parse_token, checked,
  reparsed, first_parsed, with_doc, validate_id_token,
}

-- When the token was issued: a claim that is a number, and not negative, is at most two minutes
-- after the clock, or past the last time that Go has.
abbrev pub IssuedAt : ℕ → Option Claim → Type 0
IssuedAt now (some (number (pos s))) =
    (s * 1_000_000_000 ≤ now + 120_000_000_000) ⊎ (end_of_time ≤ s)
IssuedAt now (some (number (negsuc n))) = Unit
IssuedAt now (some (text s)) = Unit
IssuedAt now (some (items xs)) = Unit
IssuedAt now (some (strings xs)) = Unit
IssuedAt now (some other) = Unit
IssuedAt now none = Unit

in_future-IssuedAt :
    (now : ℕ) (claim : Option Claim) → in_future now claim ≡ false → IssuedAt now claim
in_future-IssuedAt now (some (number (pos s))) e = ground (arith, e)
in_future-IssuedAt now (some (number (negsuc n))) e = tt
in_future-IssuedAt now (some (text s)) e = tt
in_future-IssuedAt now (some (items xs)) e = tt
in_future-IssuedAt now (some (strings xs)) e = tt
in_future-IssuedAt now (some other) e = tt
in_future-IssuedAt now none e = tt

-- The issuer, the tenant, the audience, the authorized party, the nonce and the time.
pub record IsIssued (now : ℕ) (claims : Claims) (conn : SsoConnection) (doc : DiscoveryDoc)
    (n : String) : Type 0 where
  pub issuer : (claim_text "iss" claims == doc.issuer) ≡ true
  pub tenant :
      (conn.oidc_tenant_id == "" || str_contains (claim_text "iss" claims) conn.oidc_tenant_id)
      ≡ true
  pub audience : audience_matches (lookup "aud" claims) conn.oidc_client_id ≡ true
  pub party :
      (not (is_multi_audience (lookup "aud" claims))
        || claim_text "azp" claims == conn.oidc_client_id)
      ≡ true
  pub same_nonce : (n == "" || claim_text "nonce" claims == n) ≡ true
  pub issued : IssuedAt now (lookup "iat" claims)

validate_claims-IsIssued :
    (now : ℕ) (claims : Claims) (conn : SsoConnection) (doc : DiscoveryDoc) (n : String)
    → validate_claims now claims conn doc n ≡ true
    → IsIssued now claims conn doc n
unfolding validate_claims
validate_claims-IsIssued now claims conn doc n h = record {
  issuer = ground arith;
  tenant = ground arith;
  audience = ground arith;
  party = ground arith;
  same_nonce = ground arith;
  issued = in_future-IssuedAt now (lookup "iat" claims) (ground arith);
}

-- An algorithm that is kept is one that the code allows and that the provider publishes.
In-intersect_allowed :
    (a : String) (algs : List String)
    → In a (intersect_allowed algs)
    → (contains allowed_signing_algs a ≡ true) × In a algs
unfolding intersect_allowed
In-intersect_allowed a [] h = elim h [ ]
In-intersect_allowed a (b ∷ algs) h = elim (Bool-cases (contains allowed_signing_algs b)) [
  | inl e ↦
      kept (In-intersect_allowed a algs)
        (subst (λ t. In a (if t then b ∷ intersect_allowed algs else intersect_allowed algs)) e h) e
  | inr e ↦
      (let (allowed, published) = In-intersect_allowed a algs (
          subst (λ t. In a (if t then b ∷ intersect_allowed algs else intersect_allowed algs)) e
            h) in
        (allowed, inr published))
]
  where
    kept :
        (In a (intersect_allowed algs) → (contains allowed_signing_algs a ≡ true) × In a algs)
        → In a (b ∷ intersect_allowed algs)
        → contains allowed_signing_algs b ≡ true
        → (contains allowed_signing_algs a ≡ true) × In a (b ∷ algs)
    kept ih (inl same) e =
        (subst (λ t. contains allowed_signing_algs t ≡ true) (sym same) e, inl same)
    kept ih (inr later) e = ((ih later).0, inr (ih later).1)

-- Claims that the parser gave for the algorithms that are kept, with keys of the connection.
abbrev pub Verified : Idp → SsoConnection → DiscoveryDoc → String → Claims → Type 0
Verified idp conn doc raw_token claims =
    (bypass : Bool) × (keys : String) × (idp.keys bypass conn.id doc.jwks_uri ≡ some keys)
    × (idp.parse (intersect_allowed doc.id_token_signing_algs) keys raw_token ≡ parsed claims)

module _ (idp : Idp) (now : ℕ) (conn : SsoConnection) (raw_token n : String) (claims : Claims) where
  parse_with-Verified :
      (doc : DiscoveryDoc) (bypass : Bool) (algs : List String) (found : Option String)
      → idp.keys bypass conn.id doc.jwks_uri ≡ found
      → intersect_allowed doc.id_token_signing_algs ≡ algs
      → parse_with idp algs raw_token found ≡ parsed claims
      → Verified idp conn doc raw_token claims
  parse_with-Verified doc bypass algs none k a h = cc
  parse_with-Verified doc bypass [] (some keys) k a h = cc
  parse_with-Verified doc bypass (b ∷ algs) (some keys) k a h = (bypass, keys, k, rw a h)

  parse_token-Verified :
      (doc : DiscoveryDoc) (bypass : Bool)
      → parse_token idp conn doc raw_token bypass ≡ parsed claims
      → Verified idp conn doc raw_token claims
  unfolding parse_token
  parse_token-Verified doc bypass h = parse_with-Verified doc bypass _ _ refl refl h

  abbrev pub Sound : DiscoveryDoc → Type 0
  Sound doc = Verified idp conn doc raw_token claims × IsIssued now claims conn doc n

  checked-Sound :
      (doc : DiscoveryDoc) (found : Claims) (bypass : Bool)
      → parse_token idp conn doc raw_token bypass ≡ parsed found
      → checked idp now conn doc n found ≡ some claims
      → Sound doc
  checked-Sound doc found bypass p h = elim (Bool-cases (validate_claims now found conn doc n)) [
    | inl v ↦
        (let same : found ≡ claims = ground (arith, v, h) in
          (
            parse_token-Verified doc bypass (p ∙ ap parsed same),
            rw (sym same) (validate_claims-IsIssued now found conn doc n v),
          ))
    | inr v ↦ ground (arith, v, h)
  ]

  reparsed-Sound :
      (doc : DiscoveryDoc) (p : Parsed)
      → parse_token idp conn doc raw_token true ≡ p
      → reparsed idp now conn doc n p ≡ some claims
      → Sound doc
  reparsed-Sound doc (parsed found) e h = checked-Sound doc found true e h
  reparsed-Sound doc unverified e h = cc
  reparsed-Sound doc rejected e h = cc

  first_parsed-Sound :
      (doc : DiscoveryDoc) (p : Parsed)
      → parse_token idp conn doc raw_token false ≡ p
      → first_parsed idp now conn doc raw_token n p ≡ some claims
      → Sound doc
  first_parsed-Sound doc (parsed found) e h = checked-Sound doc found false e h
  first_parsed-Sound doc unverified e h = reparsed-Sound doc _ refl h
  first_parsed-Sound doc rejected e h = cc

  with_doc-Sound :
      (found : Option DiscoveryDoc)
      → with_doc idp now conn raw_token n found ≡ some claims
      → (doc : DiscoveryDoc) × (found ≡ some doc) × Sound doc
  with_doc-Sound none h = cc
  with_doc-Sound (some doc) h = (doc, refl, first_parsed-Sound doc _ refl h)

  -- The claims of a token that passes are those that the parser gave for algorithms that the code
  -- allows and the provider publishes, with keys of the connection; and they name the issuer of the
  -- discovered document, the connection's tenant if it has one, its client as audience and, with
  -- several audiences, as authorized party, the nonce if there is one. Their time of
  -- issue may be missing or no number; a number that is not negative is a second at most two minutes
  -- after the clock, or one for which Go has no time.
  pub validate_id_token-Sound :
      validate_id_token idp now conn raw_token n ≡ some claims
      → (doc : DiscoveryDoc) × (discovery idp conn ≡ some doc)
        × Sound doc
        × ((a : String)
            → In a (intersect_allowed doc.id_token_signing_algs)
            → (contains allowed_signing_algs a ≡ true) × In a doc.id_token_signing_algs)
  unfolding validate_id_token
  validate_id_token-Sound h = elim (Bool-cases (conn.oidc_client_id == "")) [
    | inl e ↦ ground (arith, e, h)
    | inr e ↦
        (let (doc, found, sound) = with_doc-Sound (discovery idp conn) (ground (arith, e, h)) in
          (doc, found, sound, λ a. In-intersect_allowed a doc.id_token_signing_algs))
  ]
