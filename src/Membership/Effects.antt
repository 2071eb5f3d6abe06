-- ===== src/Membership/Effects.antt =====
-- What one request to a membership endpoint changes in the table.
use axiaops.Common.{
  Bool-cases, Option-cases, In, In-append_left, ◌==◌, string_eq, nat_eq, String, ◌≡◌, sym, ◌∙◌, ◌⊎◌,
  inl, inr, Bool, true, false, none, some, [], ◌∷◌, ◌++◌, arith,
}
use axiaops.Authz.{allows}
use axiaops.Membership.{
  Membership, Rows, clash, violates, consistent, is_at, find, set_role, remove, get_membership,
  role_of, save_membership, update_membership_role, delete_membership,
}
use axiaops.Membership.Handlers.{
  Env, Answer, require, is_elevated, create_membership, update_role, delete,
}
use axiaops.Membership.Table.{set_role-none, remove-none}

-- Rows that a statement does not touch stay.
pub In-set_role :
    (p : Membership → Bool) (role : String) (rows : Rows) (m : Membership)
    → In m rows
    → p m ≡ false
    → In m (set_role p role rows)
unfolding set_role
In-set_role p role [] m i h = i
In-set_role p role (r ∷ rows) m i h = elim (Bool-cases (p r)) [
  | inl hit ↦ rw hit (elim i [ inl e ↦ absurd (cc) | inr j ↦ inr (In-set_role p role rows m j h) ])
  | inr miss ↦ rw miss (elim i [ inl e ↦ inl e | inr j ↦ inr (In-set_role p role rows m j h) ])
]

pub In-remove :
    (p : Membership → Bool) (rows : Rows) (m : Membership)
    → In m rows
    → p m ≡ false
    → In m (remove p rows)
unfolding remove
In-remove p [] m i h = i
In-remove p (r ∷ rows) m i h = elim (Bool-cases (p r)) [
  | inl hit ↦ rw hit (elim i [ inl e ↦ absurd (cc) | inr j ↦ In-remove p rows m j h ])
  | inr miss ↦ rw miss (elim i [ inl e ↦ inl e | inr j ↦ inr (In-remove p rows m j h) ])
]

In-violates :
    (r m : Membership) (rows : Rows) → In m rows → violates r rows ≡ false → clash r m ≡ false
unfolding violates
In-violates r m [] i v = elim i [ ]
In-violates r m (n ∷ rows) (inl e) v = rw e (ground arith)
In-violates r m (n ∷ rows) (inr j) v = In-violates r m rows j (ground arith)

-- The row of a key in a consistent table is the one that `find` gives.
pub find-In :
    (org id : String) (rows : Rows) (m t : Membership)
    → consistent rows ≡ true
    → In m rows
    → find (is_at org id) rows ≡ some t
    → is_at org id m ≡ true
    → m ≡ t
unfolding consistent find violates clash
find-In org id [] m t c i e h = elim i [ ]
find-In org id (r ∷ rows) m t c (inl same) e h =
    let here : is_at org id r ≡ true = rw (sym same) h in same ∙ ground arith
find-In org id (r ∷ rows) m t c (inr j) e h =
    let apart = In-violates r m rows j (ground arith) in
    ground (arith, find-In org id rows m t (ground arith) j)

-- Whether the row is out of the caller's reach: elevated, and not the caller's own.
abbrev pub Protected : String → Membership → Type 0
Protected uid m = (is_elevated m.role ≡ true) × ((m.user_id == uid) ≡ false)

-- The update of a role changes nothing but the row of the identifier, and nothing at all where
-- that row is missing or the caller may not manage it.
pub update-rows :
    (env : Env) (tid uid id role : String) (rows : Rows)
    → ((update_role env tid uid id role rows).0 ≡ rows)
      ⊎ ((update_role env tid uid id role rows).0 ≡ set_role (is_at tid id) (env.trim role) rows)
unfolding update_role get_membership update_membership_role
update-rows env tid uid id role rows = ground arith

pub update_forbidden :
    (env : Env) (tid uid id role : String) (rows : Rows) (t : Membership)
    → find (is_at tid id) rows ≡ some t
    → allows (role_of tid uid rows) "members:manage_admin" ≡ false
    → is_elevated t.role ≡ true
    → (update_role env tid uid id role rows).0 ≡ rows
unfolding update_role get_membership
update_forbidden env tid uid id role rows t at a e = ground arith

pub delete-rows :
    (tid uid id : String) (rows : Rows)
    → ((delete tid uid id rows).0 ≡ rows)
      ⊎ ((delete tid uid id rows).0 ≡ remove (is_at tid id) rows)
unfolding delete get_membership delete_membership
delete-rows tid uid id rows = ground arith

pub delete_forbidden :
    (tid uid id : String) (rows : Rows) (t : Membership)
    → find (is_at tid id) rows ≡ some t
    → allows (role_of tid uid rows) "members:manage_admin" ≡ false
    → Protected uid t
    → (delete tid uid id rows).0 ≡ rows
unfolding delete get_membership
delete_forbidden tid uid id rows t at a e = ground arith

-- The row that an invitation adds.
abbrev pub invited : String → String → String → String → String → Membership
invited tid uid new_id role user_id = record {
  id = new_id;
  organization_id = tid;
  user_id = user_id;
  role = role;
  invited_by = uid;
  provisioned_via = "manual";
}

pub create-rows :
    (env : Env) (tid uid new_id email role user_id : String) (rows : Rows)
    → env.user_by_email (env.trim email) ≡ some user_id
    → ((create_membership env tid uid new_id email role rows).0 ≡ rows)
      ⊎ ((create_membership env tid uid new_id email role rows).0
          ≡ rows ++ invited tid uid new_id (env.trim role) user_id ∷ [])
unfolding create_membership save_membership
create-rows env tid uid new_id email role user_id rows u = ground arith

pub create_unknown :
    (env : Env) (tid uid new_id email role : String) (rows : Rows)
    → env.user_by_email (env.trim email) ≡ none
    → (create_membership env tid uid new_id email role rows).0 ≡ rows
unfolding create_membership
create_unknown env tid uid new_id email role rows u = ground arith

pub create_elevated :
    (env : Env) (tid uid new_id email role : String) (rows : Rows)
    → allows (role_of tid uid rows) "members:manage_admin" ≡ false
    → is_elevated (env.trim role) ≡ true
    → (create_membership env tid uid new_id email role rows).0 ≡ rows
unfolding create_membership
create_elevated env tid uid new_id email role rows a e = ground arith

pub create_keeps :
    (env : Env) (tid uid new_id email role : String) (rows : Rows) (m : Membership)
    → In m rows
    → In m (create_membership env tid uid new_id email role rows).0
create_keeps env tid uid new_id email role rows m i =
    elim (Option-cases (env.user_by_email (env.trim email))) [
      | inl absent ↦ rw (create_unknown env tid uid new_id email role rows absent) i
      | inr (u, at) ↦ elim (create-rows env tid uid new_id email role u rows at) [
        | inl same ↦ rw same i
        | inr more ↦ rw more (In-append_left m rows _ i)
      ]
    ]

pub update_keeps :
    (env : Env) (tid uid id role : String) (rows : Rows) (m : Membership)
    → consistent rows ≡ true
    → allows (role_of tid uid rows) "members:manage_admin" ≡ false
    → In m rows
    → is_elevated m.role ≡ true
    → In m (update_role env tid uid id role rows).0
update_keeps env tid uid id role rows m c a i p = elim (update-rows env tid uid id role rows) [
  | inl same ↦ rw same i
  | inr changed ↦ elim (Bool-cases (is_at tid id m)) [
    | inr other ↦ rw changed (In-set_role (is_at tid id) (env.trim role) rows m i other)
    | inl hit ↦ elim (Option-cases (find (is_at tid id) rows)) [
      | inl absent ↦ rw changed (rw (set_role-none (is_at tid id) (env.trim role) rows absent) i)
      | inr (t, at) ↦
          let e = find-In tid id rows m t c i at hit in
          rw (update_forbidden env tid uid id role rows t at a (rw e at p)) i
    ]
  ]
]

pub delete_keeps :
    (tid uid id : String) (rows : Rows) (m : Membership)
    → consistent rows ≡ true
    → allows (role_of tid uid rows) "members:manage_admin" ≡ false
    → In m rows
    → Protected uid m
    → In m (delete tid uid id rows).0
delete_keeps tid uid id rows m c a i p = elim (delete-rows tid uid id rows) [
  | inl same ↦ rw same i
  | inr changed ↦ elim (Bool-cases (is_at tid id m)) [
    | inr other ↦ rw changed (In-remove (is_at tid id) rows m i other)
    | inl hit ↦ elim (Option-cases (find (is_at tid id) rows)) [
      | inl absent ↦ rw changed (rw (remove-none (is_at tid id) rows absent) i)
      | inr (t, at) ↦
          let e = find-In tid id rows m t c i at hit in
          rw (delete_forbidden tid uid id rows t at a (rw e at p)) i
    ]
  ]
]

pub require-cases :
    (perm tid uid : String) (rows : Rows) (next : Answer)
    → (require perm tid uid rows next ≡ (rows, 403)) ⊎ (require perm tid uid rows next ≡ next)
unfolding require
require-cases perm tid uid rows next = ground arith

pub require_refused :
    (perm tid uid : String) (rows : Rows) (next : Answer)
    → allows (role_of tid uid rows) perm ≡ false
    → require perm tid uid rows next ≡ (rows, 403)
unfolding require
require_refused perm tid uid rows next a = ground arith
