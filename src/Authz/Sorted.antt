-- ===== src/Authz/Sorted.antt =====
-- `PermissionsOf`: the insertion sort keeps the elements and sorts them.
use axiaops.Common.{
  str_lt, str_lt_asym, Bool-cases, ◌==◌, contains, string_eq, nat_eq, ◌≡◌, refl, sym, ap, ◌∙◌, inl,
  inr, false, ◌||◌, Option, none, some, List, [], ◌∷◌, arith,
}
use axiaops.Common.Dict.{lookup}
use axiaops.Authz.{
  Role, Permission, role_permissions, allowed_by, allows, sift, sort_from, reverse_onto,
  sort_permissions, sorted, permissions_of,
}

-- No element is smaller than the one before it.
abbrev pub Ascending : List Permission → Type 0
Ascending [] = Unit
Ascending (x ∷ []) = Unit
Ascending (x ∷ y ∷ l) = (str_lt y x ≡ false) × Ascending (y ∷ l)

abbrev Descending : List Permission → Type 0
Descending [] = Unit
Descending (x ∷ []) = Unit
Descending (x ∷ y ∷ l) = (str_lt x y ≡ false) × Descending (y ∷ l)

Descending-tail : (x : Permission) (l : List Permission) → Descending (x ∷ l) → Descending l
Descending-tail x [] h = tt
Descending-tail x (y ∷ l) h = h.1

-- `y` may stand in front of `l`.
abbrev Leads : Permission → List Permission → Type 0
Leads y [] = Unit
Leads y (z ∷ l) = str_lt y z ≡ false

Descending-cons :
    (y : Permission) (l : List Permission) → Leads y l → Descending l → Descending (y ∷ l)
Descending-cons y [] h d = tt
Descending-cons y (z ∷ l) h d = (h, d)

Leads-Descending : (y : Permission) (l : List Permission) → Descending (y ∷ l) → Leads y l
Leads-Descending y [] h = tt
Leads-Descending y (z ∷ l) h = h.0

sift-Leads :
    (y x : Permission) (l : List Permission) → str_lt y x ≡ false → Leads y l → Leads y (sift x l)
unfolding sift
sift-Leads y x [] h d = h
sift-Leads y x (z ∷ l) h d = elim (Bool-cases (str_lt x z)) [
  | inl less ↦ rw less d
  | inr more ↦ rw more h
]

sift-Descending : (x : Permission) (l : List Permission) → Descending l → Descending (sift x l)
unfolding sift
sift-Descending x [] h = tt
sift-Descending x (y ∷ l) h = elim (Bool-cases (str_lt x y)) [
  | inl less ↦ rw less (
      Descending-cons y (sift x l)
        (sift-Leads y x l (str_lt_asym x y less) (Leads-Descending y l h))
        (sift-Descending x l (Descending-tail y l h)))
  | inr more ↦ rw more (more, h)
]

contains-sift :
    (x p : Permission) (l : List Permission) → contains (sift x l) p ≡ (p == x || contains l p)
unfolding sift
contains-sift x p [] = refl
contains-sift x p (y ∷ l) = ground (arith, contains-sift x p l)

sort_from-Descending :
    (front l : List Permission) → Descending front → Descending (sort_from front l)
unfolding sort_from
sort_from-Descending front [] h = h
sort_from-Descending front (x ∷ l) h =
    sort_from-Descending (sift x front) l (sift-Descending x front h)

contains-sort_from :
    (front l : List Permission) (p : Permission)
    → contains (sort_from front l) p ≡ (contains front p || contains l p)
unfolding sort_from
contains-sort_from front [] p = ground arith
contains-sort_from front (x ∷ l) p =
    ground (arith, contains-sort_from (sift x front) l p, contains-sift x p front)

contains-reverse_onto :
    (l acc : List Permission) (p : Permission)
    → contains (reverse_onto l acc) p ≡ (contains l p || contains acc p)
unfolding reverse_onto
contains-reverse_onto [] acc p = refl
contains-reverse_onto (x ∷ l) acc p = ground (arith, contains-reverse_onto l (x ∷ acc) p)

-- `acc` may follow `y`.
abbrev Follows : List Permission → List Permission → Type 0
Follows [] acc = Unit
Follows (y ∷ l) [] = Unit
Follows (y ∷ l) (z ∷ acc) = str_lt z y ≡ false

reverse_onto-Ascending :
    (l acc : List Permission)
    → Descending l
    → Ascending acc
    → Follows l acc
    → Ascending (reverse_onto l acc)
unfolding reverse_onto
reverse_onto-Ascending [] acc d a f = a
reverse_onto-Ascending (x ∷ []) [] d a f = tt
reverse_onto-Ascending (x ∷ []) (z ∷ acc) d a f = (f, a)
reverse_onto-Ascending (x ∷ y ∷ l) [] d a f = reverse_onto-Ascending (y ∷ l) (x ∷ []) d.1 tt d.0
reverse_onto-Ascending (x ∷ y ∷ l) (z ∷ acc) d a f =
    reverse_onto-Ascending (y ∷ l) (x ∷ z ∷ acc) d.1 (f, a) d.0

Follows-nil : (l : List Permission) → Follows l []
Follows-nil [] = tt
Follows-nil (x ∷ l) = tt

sort_permissions-Ascending : (l : List Permission) → Ascending (sort_permissions l)
unfolding sort_permissions
sort_permissions-Ascending l =
    reverse_onto-Ascending (sort_from [] l) [] (sort_from-Descending [] l tt) tt
      (Follows-nil (sort_from [] l))

contains-sort_permissions :
    (l : List Permission) (p : Permission) → contains (sort_permissions l) p ≡ contains l p
unfolding sort_permissions
contains-sort_permissions l p =
    ground (arith, contains-reverse_onto (sort_from [] l) [] p, contains-sort_from [] l p)

-- What a result of `PermissionsOf` says of a role.
abbrev pub Lists : Role → Option (List Permission) → Type 0
Lists role none = (p : Permission) → allows role p ≡ false
Lists role (some perms) = Ascending perms × ((p : Permission) → contains perms p ≡ allows role p)

sorted-Lists :
    (role : Role) (o : Option (List Permission))
    → lookup role role_permissions ≡ o
    → Lists role (sorted o)
unfolding allows
sorted-Lists role none e = λ p. ap (λ o. allowed_by o p) e
sorted-Lists role (some perms) e = (
  sort_permissions-Ascending perms,
  λ p. contains-sort_permissions perms p ∙ sym (ap (λ o. allowed_by o p) e),
)

-- The list that `PermissionsOf` gives for a role is in ascending order and holds exactly what the
-- role is allowed; where it gives none, the role is allowed nothing.
pub permissions_of-Lists : (role : Role) → Lists role (permissions_of role)
unfolding permissions_of
permissions_of-Lists role = sorted-Lists role (lookup role role_permissions) refl
