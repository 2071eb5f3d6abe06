-- ===== src/Authz/Tests.antt =====
-- The permission table.
use axiaops.Common.{
  length, contains, string_eq, nat_eq, ℕ, ◌≡◌, refl, true, ◌&&◌, Option, none, some, List, [], ◌∷◌,
  arith,
}
use axiaops.Authz.{
  Permission, owner, admin, member, viewer, role_order, role_permissions, allows, permissions_of,
}
use axiaops.Authz.Inherit.{granted_up_to, allows-eq-granted, allows-rank_mono}
use axiaops.Authz.Sorted.{Lists, permissions_of-Lists}

abbrev count_of : Option (List Permission) → ℕ
count_of none = 0
count_of (some perms) = length perms

owner_count : count_of (permissions_of owner) ≡ 23
unfolding permissions_of role_permissions string_eq
owner_count = refl

member_list :
    permissions_of member
    ≡ some (
        "accounts:read" ∷ "accounts:scan" ∷ "accounts:write" ∷ "audit:read" ∷ "channels:read"
        ∷ "costs:read" ∷ "members:read" ∷ "resources:read" ∷ "snapshots:read" ∷ "sso:read"
        ∷ "zombies:dismiss" ∷ "zombies:read" ∷ [])
unfolding permissions_of role_permissions string_eq
member_list = refl

permissions_of_unknown : permissions_of "root" ≡ none
unfolding permissions_of role_permissions string_eq
permissions_of_unknown = refl

allows-eq-granted_example :
    allows admin "members:invite"
    ≡ (contains role_order admin && contains (granted_up_to admin role_order) "members:invite")
allows-eq-granted_example = allows-eq-granted admin "members:invite"

allows-rank_mono_example : allows owner "members:invite" ≡ true
unfolding string_eq allows role_permissions
allows-rank_mono_example = allows-rank_mono admin owner "members:invite" (omega arith) refl

permissions_of-Lists_test : Lists viewer (permissions_of viewer)
permissions_of-Lists_test = permissions_of-Lists viewer
