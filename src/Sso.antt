-- ===== src/Sso.antt =====
-- The enforcement of single sign-on on requests with a password session,
-- services/api/internal/middleware/sso_enforcement.go. The read of the organization's connections
-- is a parameter, which may fail.
pub mod Enforced
mod Tests
use axiaops.Common.{
  ltb, if◌then◌else◌, ◌==◌, contains, string_eq, nat_eq, ℕ, String, Bool, true, false, not, ◌&&◌,
  Option, none, some, List, [], ◌∷◌, arith,
}

-- The fields of `SSOConnection` that the resolver reads.
pub record Connection : Type 0 where
  pub status : String
  pub protocol : String
  pub enforcement : String

-- `enforcementRank`
unfoldable pub enforcement_rank : String → ℕ
enforcement_rank level =
    if level == "required"
    then 3
    else if level == "preferred"
    then 2
    else if level == "optional"
    then 1
    else 0

abbrev pub contributes : Connection → Bool
contributes c = c.status == "active" && c.protocol == "oidc"

-- The loop of `OrgSSOEnforcement`, on the highest level so far.
unfoldable pub highest_from : List Connection → String → String
unfolding enforcement_rank
highest_from [] highest = highest
highest_from (c ∷ conns) highest = highest_from conns (
    if not (contributes c)
    then highest
    else if ltb (enforcement_rank highest) (enforcement_rank c.enforcement)
    then c.enforcement
    else highest)

unfoldable pub highest_of : Option (List Connection) → Option String
unfolding highest_from
highest_of none = none
highest_of (some conns) = some (highest_from conns "")

-- `OrgSSOEnforcement`; `none` is an error.
unfoldable pub org_sso_enforcement : (String → Option (List Connection)) → String → Option String
unfolding highest_of
org_sso_enforcement list_sso_connections organization_id =
    if organization_id == "" then some "" else highest_of (list_sso_connections organization_id)

-- What the middleware reads of a request and its context.
pub record Request : Type 0 where
  pub path : String
  pub auth_mode : String
  pub organization_id : String

-- Whether a resolved level forbids.
abbrev pub forbids : Option String → Bool
forbids none = false
forbids (some level) = level == "required"

-- `EnforceSSO`: whether the request goes on; it is refused with 403 otherwise. `none` is the nil
-- resolver.
unfoldable pub enforce_sso : Option (String → Option String) → List String → Request → Bool
enforce_sso none skip_paths r = true
enforce_sso (some resolver) skip_paths r =
    if contains skip_paths r.path
    then true
    else if not (r.auth_mode == "password")
    then true
    else if r.organization_id == ""
    then true
    else not (forbids (resolver r.organization_id))
