-- ===== src/Authz.antt =====
-- Roles and permissions, services/shared/authz/roles.go.
-- Roles and permissions are strings, as in the code. The maps are association lists, a set is the
-- list of its elements; the order in which Go walks a map has no effect here, since the values
-- only go into sets.
pub mod Inherit
pub mod Sorted
mod Tests
use axiaops.Common.{
  ltb, leb, if◌then◌else◌, Bool-cases, Option-cases, is_some, or_else, length, take, count_if, All,
  length-append, In, In-append_left, In-append_right, Eq, ◌==◌, contains, string_eq, nat_eq,
  str_contains, has_prefix, ℕ, zero, suc, ◌+◌, ◌-◌, ◌*◌, ◌/◌, ◌%◌, ◌^◌, ◌≤◌, ◌<◌, String, ◌<>◌, ◌≡◌,
  refl, sym, ap, ◌∙◌, ◌≢◌, ◌↔◌, ◌⊎◌, inl, inr, Bool, true, false, not, ◌&&◌, ◌||◌, Option, none,
  some, List, [], ◌∷◌, ◌++◌, map, arith, str_lt,
}
use axiaops.Common.Dict.{Dict, lookup, insert}

abbrev pub Role : Type 0
Role = String

abbrev pub Permission : Type 0
Permission = String

abbrev pub owner : Role
owner = "owner"

abbrev pub admin : Role
admin = "admin"

abbrev pub member : Role
member = "member"

abbrev pub viewer : Role
viewer = "viewer"

abbrev pub members_manage_basic : Permission
members_manage_basic = "members:manage_basic"

abbrev pub members_manage_admin : Permission
members_manage_admin = "members:manage_admin"

-- `roleOrder`
abbrev pub role_order : List Role
role_order = viewer ∷ member ∷ admin ∷ owner ∷ []

-- `directGrants`, with the permission constants written out.
abbrev pub direct_grants : Dict Role (List Permission)
direct_grants =
    (
      viewer,
      "accounts:read" ∷ "zombies:read" ∷ "snapshots:read" ∷ "costs:read" ∷ "resources:read"
          ∷ "audit:read" ∷ "members:read" ∷ "sso:read" ∷ "channels:read" ∷ [],
    )
    ∷ (member, "accounts:write" ∷ "accounts:scan" ∷ "zombies:dismiss" ∷ [])
    ∷ (
      admin,
      "accounts:delete" ∷ "members:invite" ∷ "members:manage_basic" ∷ "channels:manage" ∷ [],
    )
    ∷ (
      owner,
      "members:manage_admin" ∷ "organization:transfer" ∷ "organization:delete"
          ∷ "organization:update" ∷ "data:export" ∷ "sso:manage" ∷ "sso:domain_verify" ∷ [],
    )
    ∷ []

-- `set[p] = true` for each `p`, in turn.
unfoldable pub add_all : List Permission → List Permission → List Permission
add_all [] set = set
add_all (p ∷ ps) set = add_all ps (if contains set p then set else set ++ p ∷ [])

-- `rolePermissions[r]`; a role with no entry gives the empty map.
unfoldable pub permissions_at : Role → Dict Role (List Permission) → List Permission
unfolding lookup
permissions_at r table = or_else (lookup r table) []

-- The inner loop of `init`, over the roles before this one.
unfoldable pub inherit : List Role → Dict Role (List Permission) → List Permission → List Permission
unfolding add_all permissions_at
inherit [] table set = set
inherit (r ∷ rs) table set = inherit rs table (add_all (permissions_at r table) set)

-- `init`: `earlier` holds the roles before the one at hand, in order. It is `roleOrder[:idx]`,
-- since no role stands in the list twice.
unfoldable pub init_from :
    Dict Role (List Permission)
    → List Role
    → List Role
    → Dict Role (List Permission)
    → Dict Role (List Permission)
unfolding inherit insert add_all permissions_at
init_from grants earlier [] table = table
init_from grants earlier (r ∷ rs) table =
    init_from grants (earlier ++ r ∷ []) rs
      (insert r (add_all (permissions_at r grants) (inherit earlier table [])) table)

unfoldable pub role_permissions : Dict Role (List Permission)
unfolding init_from
role_permissions = init_from direct_grants [] role_order []

-- `perms[perm]`, for what the map read of `Allows` gives.
abbrev pub allowed_by : Option (List Permission) → Permission → Bool
allowed_by none perm = false
allowed_by (some perms) perm = contains perms perm

-- `Allows`
unfoldable pub allows : Role → Permission → Bool
unfolding lookup
allows role perm = allowed_by (lookup role role_permissions) perm

-- One round of the outer loop of `sortPermissions`: the element `x`, which stands behind the
-- sorted `front` (held in reverse order), moves to the left as long as its left neighbour is
-- greater.
unfoldable pub sift : Permission → List Permission → List Permission
sift x [] = x ∷ []
sift x (y ∷ front) = let rest = sift x front in if str_lt x y then y ∷ rest else x ∷ y ∷ front

unfoldable pub sort_from : List Permission → List Permission → List Permission
unfolding sift
sort_from front [] = front
sort_from front (x ∷ xs) = sort_from (sift x front) xs

unfoldable pub reverse_onto : List Permission → List Permission → List Permission
reverse_onto [] acc = acc
reverse_onto (x ∷ xs) acc = reverse_onto xs (x ∷ acc)

unfoldable pub sort_permissions : List Permission → List Permission
unfolding sort_from reverse_onto
sort_permissions perms = reverse_onto (sort_from [] perms) []

abbrev pub sorted : Option (List Permission) → Option (List Permission)
sorted none = none
sorted (some perms) = some (sort_permissions perms)

-- `PermissionsOf`; `none` is the nil slice of an unknown role.
unfoldable pub permissions_of : Role → Option (List Permission)
unfolding lookup sort_permissions
permissions_of role = sorted (lookup role role_permissions)
