-- ===== src/Oidc/Identity.antt =====
-- The user that a token names: `extractClaims` of services/api/internal/sso/oidc_callback.go, and
-- `emailDomain` of services/api/internal/sso/discoverer.go.
use Prim.Native.Char.{code}
use Prim.Native.String.{[], ◌∷◌}
use axiaops.Common.{
  if◌then◌else◌, ◌==◌, string_eq, nat_eq, String, Bool, true, false, not, ◌&&◌, ◌||◌, Option, none,
  some, List, [], ◌∷◌,
}
use axiaops.Common.Dict.{lookup}
use axiaops.Oidc.{Library, SsoConnection}
use axiaops.Oidc.Token.{Claim, text, number, items, strings, other, Claims, claim_text}

-- What the callback takes from the claims.
pub record Identity : Type 0 where
  pub sub : String
  pub email : String
  pub name : String
  pub groups : List String

-- The first of the claims that is an address.
unfoldable pub email_of : (String → Bool) → Claims → List String → String
email_of is_address claims [] = ""
email_of is_address claims (key ∷ keys) =
    let v = claim_text key claims in
    if not (v == "") && is_address v then v else email_of is_address claims keys

unfoldable pub texts_in : List (Option String) → List String
texts_in [] = []
texts_in (none ∷ xs) = texts_in xs
texts_in (some s ∷ xs) = s ∷ texts_in xs

abbrev pub groups_of : Option Claim → List String
groups_of (some (items xs)) = texts_in xs
groups_of (some (strings xs)) = xs
groups_of (some (text s)) = []
groups_of (some (number n)) = []
groups_of (some other) = []
groups_of none = []

-- The subject; for a connection with a tenant the claim "oid" comes first.
unfoldable pub subject_of : Claims → SsoConnection → String
subject_of claims conn =
    let oid = claim_text "oid" claims in
    if not (conn.oidc_tenant_id == "") && not (oid == "") then oid else claim_text "sub" claims

-- `extractClaims`
unfoldable pub extract_claims : (String → Bool) → Claims → SsoConnection → Option Identity
unfolding subject_of email_of texts_in
extract_claims is_address claims conn =
    let sub = subject_of claims conn in
    let email = email_of is_address claims ("email" ∷ "preferred_username" ∷ "upn" ∷ []) in
    if sub == "" || email == ""
    then none
    else some (record {
      sub = sub;
      email = email;
      name = claim_text "name" claims;
      groups = groups_of (lookup "groups" claims);
    })

-- Whether an at sign is the first character, and the text after the last at sign.
unfoldable pub after_at : String → Option (Bool × String)
after_at [] = none
after_at (c ∷ s) = elim (after_at s) [
  | none ↦ if code c == b'@' then some (true, s) else none
  | some (first, rest) ↦ some (false, rest)
]

-- `emailDomain`
unfoldable pub email_domain : Library → String → String
unfolding after_at
email_domain lib email = elim (after_at email) [
  | none ↦ ""
  | some (first, rest) ↦ if first || rest == "" then "" else lib.lower (lib.trim_space rest)
]
