-- ===== src/Authz/Inherit.antt =====
-- Inheritance: what `init` builds from the direct grants.
use axiaops.Common.{
  if◌then◌else◌, ◌==◌, contains, string_eq, nat_eq, ℕ, ◌≡◌, refl, ap, ◌∙◌, Bool, true, false, ◌&&◌,
  none, some, List, [], ◌∷◌, ◌++◌, arith, ◌≤◌, ◌+◌, ◌||◌, ◌-◌, zero,
}
use axiaops.Common.Dict.{lookup}
use axiaops.Authz.{
  Role, Permission, owner, admin, member, viewer, role_order, direct_grants, permissions_at,
  role_permissions, allows, allowed_by, suc, members_manage_admin,
}

-- The direct grants of the roles in `order` up to the given one.
abbrev pub granted_up_to : Role → List Role → List Permission
granted_up_to role [] = []
granted_up_to role (r ∷ rs) =
    let later = granted_up_to role rs in
    permissions_at r direct_grants ++ (if role == r then [] else later)

abbrev grants_of : Role → List Permission
grants_of role = permissions_at role direct_grants

-- The table that `init` leaves.
table :
    role_permissions
    ≡ (viewer, grants_of viewer ++ [])
      ∷ (member, grants_of viewer ++ (grants_of member ++ []))
      ∷ (admin, grants_of viewer ++ (grants_of member ++ (grants_of admin ++ [])))
      ∷ (
        owner,
        grants_of viewer ++ (grants_of member ++ (grants_of admin ++ (grants_of owner ++ []))),
      )
      ∷ []
unfolding role_permissions permissions_at string_eq
table = refl

-- What `init` leaves for a role of the order and for any other string.
role_permissions-lookup :
    (role : Role)
    → lookup role role_permissions
      ≡ (if contains role_order role then some (granted_up_to role role_order) else none)
unfolding lookup
role_permissions-lookup role = rw table (ground arith)

allowed_by-if :
    (known : Bool) (perms : List Permission) (perm : Permission)
    → allowed_by (if known then some perms else none) perm ≡ (known && contains perms perm)
allowed_by-if true perms perm = refl
allowed_by-if false perms perm = refl

-- A role is allowed a permission exactly when it is one of the four roles and the permission is a
-- direct grant of that role or of one below it; an unknown role is allowed nothing.
pub allows-eq-granted :
    (role : Role) (perm : Permission)
    → allows role perm ≡ (contains role_order role && contains (granted_up_to role role_order) perm)
unfolding allows
allows-eq-granted role perm =
    ap (λ o. allowed_by o perm) (role_permissions-lookup role)
    ∙ allowed_by-if (contains role_order role) (granted_up_to role role_order) perm

contains-append :
    (xs ys : List Permission) (p : Permission)
    → contains (xs ++ ys) p ≡ (contains xs p || contains ys p)
contains-append [] ys p = refl
contains-append (x ∷ xs) ys p = ground (arith, contains-append xs ys p)

-- How far up the order a role stands; 0 for a string that is no role.
abbrev pub rank : Role → ℕ
rank role =
    if role == viewer
    then 1
    else if role == member
    then 2
    else if role == admin
    then 3
    else if role == owner
    then 4
    else 0

-- The four levels as the concatenations of the direct grants.
allows-viewer : (p : Permission) → allows viewer p ≡ contains (grants_of viewer ++ []) p
unfolding allows role_permissions permissions_at string_eq
allows-viewer p = refl

allows-member :
    (p : Permission) → allows member p ≡ contains (grants_of viewer ++ (grants_of member ++ [])) p
unfolding allows role_permissions permissions_at string_eq
allows-member p = refl

allows-admin :
    (p : Permission)
    → allows admin p
      ≡ contains (grants_of viewer ++ (grants_of member ++ (grants_of admin ++ []))) p
unfolding allows role_permissions permissions_at string_eq
allows-admin p = refl

allows_owner :
    (p : Permission)
    → allows owner p
      ≡ contains
          (grants_of viewer ++ (grants_of member ++ (grants_of admin ++ (grants_of owner ++ []))))
          p
unfolding allows role_permissions permissions_at string_eq
allows_owner p = refl

member-viewer : (p : Permission) → allows viewer p ≡ true → allows member p ≡ true
member-viewer p h =
    let h' = simp (allows-viewer, contains-append) at h in
    simp (allows-member, contains-append) (ground arith)

admin-member : (p : Permission) → allows member p ≡ true → allows admin p ≡ true
admin-member p h =
    let h' = simp (allows-member, contains-append) at h in
    simp (allows-admin, contains-append) (ground arith)

owner-admin : (p : Permission) → allows admin p ≡ true → allows owner p ≡ true
owner-admin p h =
    let h' = simp (allows-admin, contains-append) at h in
    simp (allows_owner, contains-append) (ground arith)

-- What the roles of a rank are allowed.
abbrev at_rank : ℕ → Permission → Bool
at_rank zero p = false
at_rank (suc zero) p = allows viewer p
at_rank (suc (suc zero)) p = allows member p
at_rank (suc (suc (suc zero))) p = allows admin p
at_rank (suc (suc (suc (suc n)))) p = allows owner p

at_rank-suc : (n : ℕ) (p : Permission) → at_rank n p ≡ true → at_rank (suc n) p ≡ true
at_rank-suc zero p h = cc
at_rank-suc (suc zero) p h = member-viewer p h
at_rank-suc (suc (suc zero)) p h = admin-member p h
at_rank-suc (suc (suc (suc zero))) p h = owner-admin p h
at_rank-suc (suc (suc (suc (suc n)))) p h = h

at_rank-add : (k n : ℕ) (p : Permission) → at_rank n p ≡ true → at_rank (k + n) p ≡ true
at_rank-add zero n p h = let e : 0 + n ≡ n = omega arith in rw e h
at_rank-add (suc k) n p h =
    let e : suc k + n ≡ suc (k + n) = omega arith in
    rw e (at_rank-suc (k + n) p (at_rank-add k n p h))

allows-at_rank : (role : Role) (p : Permission) → allows role p ≡ at_rank (rank role) p
allows-at_rank role p = ground (arith, allows-eq-granted role p)

-- What a role is allowed, every role of the same or a higher rank is allowed.
pub allows-rank_mono :
    (low high : Role) (p : Permission)
    → rank low ≤ rank high
    → allows low p ≡ true
    → allows high p ≡ true
allows-rank_mono low high p h a =
    let a' = rw (allows-at_rank low p) at a in
    let e : rank high ≡ (rank high - rank low) + rank low = omega arith in
    allows-at_rank high p
    ∙ ap (λ r. at_rank r p) e
    ∙ at_rank-add (rank high - rank low) (rank low) p a'

at_rank-owners : (n : ℕ) → at_rank n "organization:transfer" ≡ at_rank n members_manage_admin
unfolding allows role_permissions permissions_at string_eq
at_rank-owners zero = refl
at_rank-owners (suc zero) = refl
at_rank-owners (suc (suc zero)) = refl
at_rank-owners (suc (suc (suc zero))) = refl
at_rank-owners (suc (suc (suc (suc n)))) = refl

-- The transfer of an organization and the management of admins go to the same roles.
pub allows-transfer :
    (role : Role) → allows role "organization:transfer" ≡ allows role members_manage_admin
allows-transfer role = ground (
  arith,
  allows-at_rank role "organization:transfer",
  allows-at_rank role members_manage_admin,
  at_rank-owners (rank role),
)
