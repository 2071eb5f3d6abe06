-- ===== src/Membership/Table.antt =====
-- The constraints of the table, and how the statements of SQL change the number of owners.
use axiaops.Common.{
  if◌then◌else◌, ◌==◌, string_eq, nat_eq, ℕ, ◌+◌, String, ◌≡◌, refl, Bool, true, false, ◌&&◌, ◌||◌,
  none, some, [], ◌∷◌, ◌++◌, arith, not, ◌≤◌,
}
use axiaops.Membership.{
  Membership, Rows, is_owner, clash, violates, consistent, owners, is_at, find, set_role, remove,
}

-- 1 for an owner of the organization.
abbrev owns : String → Membership → ℕ
owns org m = if m.organization_id == org && is_owner m then 1 else 0

clash_sym : (m r : Membership) → clash m r ≡ clash r m
unfolding clash
clash_sym m r = ground arith

violates-append :
    (m : Membership) (rows : Rows) (n : Membership)
    → violates m (rows ++ n ∷ []) ≡ (violates m rows || clash m n)
unfolding violates
violates-append m [] n = ground arith
violates-append m (r ∷ rows) n = ground (arith, violates-append m rows n)

pub consistent-append :
    (rows : Rows) (m : Membership)
    → consistent rows ≡ true
    → violates m rows ≡ false
    → consistent (rows ++ m ∷ []) ≡ true
unfolding consistent violates
consistent-append [] m c v = ground arith
consistent-append (r ∷ rows) m c v =
    ground (arith, consistent-append rows m, violates-append r rows m, clash_sym m r)

violates-remove :
    (p : Membership → Bool) (m : Membership) (rows : Rows)
    → violates m rows ≡ false
    → violates m (remove p rows) ≡ false
unfolding violates remove
violates-remove p m [] v = v
violates-remove p m (r ∷ rows) v = ground (arith, violates-remove p m rows)

pub consistent-remove :
    (p : Membership → Bool) (rows : Rows)
    → consistent rows ≡ true
    → consistent (remove p rows) ≡ true
unfolding consistent remove
consistent-remove p [] c = c
consistent-remove p (r ∷ rows) c =
    ground (arith, consistent-remove p rows, violates-remove p r rows)

pub owners-append :
    (org : String) (rows : Rows) (m : Membership)
    → owners org (rows ++ m ∷ []) ≡ owners org rows + owns org m
unfolding owners
owners-append org [] m = ground arith
owners-append org (r ∷ rows) m = ground (arith, owners-append org rows m)

-- Two rows of one identifier never stand in a consistent table.
pub find-violates :
    (org : String) (m : Membership) (rows : Rows)
    → violates m rows ≡ false
    → find (is_at org m.id) rows ≡ none
unfolding find violates clash
find-violates org m [] v = refl
find-violates org m (r ∷ rows) v = ground (arith, find-violates org m rows)

pub set_role-none :
    (p : Membership → Bool) (role : String) (rows : Rows)
    → find p rows ≡ none
    → set_role p role rows ≡ rows
unfolding find set_role
set_role-none p role [] e = refl
set_role-none p role (r ∷ rows) e = ground (arith, set_role-none p role rows)

pub remove-none : (p : Membership → Bool) (rows : Rows) → find p rows ≡ none → remove p rows ≡ rows
unfolding find remove
remove-none p [] e = refl
remove-none p (r ∷ rows) e = ground (arith, remove-none p rows)

pub owners-set_role :
    (org : String) (id role : String) (rows : Rows) (o : String) (m : Membership)
    → consistent rows ≡ true
    → find (is_at org id) rows ≡ some m
    → owners o (set_role (is_at org id) role rows) + owns o m
      ≡ owners o rows + owns o (record m { role = role })
unfolding consistent find set_role owners
owners-set_role org id role [] o m c e = cc
owners-set_role org id role (r ∷ rows) o m c e = ground (
  arith,
  owners-set_role org id role rows o m,
  find-violates org r rows,
  set_role-none (is_at org id) role rows,
)

pub owners-remove :
    (org : String) (id : String) (rows : Rows) (o : String) (m : Membership)
    → consistent rows ≡ true
    → find (is_at org id) rows ≡ some m
    → owners o (remove (is_at org id) rows) + owns o m ≡ owners o rows
unfolding consistent find remove owners
owners-remove org id [] o m c e = cc
owners-remove org id (r ∷ rows) o m c e = ground (
  arith,
  owners-remove org id rows o m,
  find-violates org r rows,
  remove-none (is_at org id) rows,
)

pub find-holds :
    (p : Membership → Bool) (rows : Rows) (m : Membership) → find p rows ≡ some m → p m ≡ true
unfolding find
find-holds p [] m e = cc
find-holds p (r ∷ rows) m e = ground (arith, find-holds p rows m)

-- What the consistency of a table is made of: the keys, and the number of owners.
abbrev clash_keys : Membership → Membership → Bool
clash_keys m r = r.id == m.id || (r.organization_id == m.organization_id && r.user_id == m.user_id)

pub violates_keys : Membership → Rows → Bool
violates_keys m [] = false
violates_keys m (r ∷ rs) = clash_keys m r || violates_keys m rs

pub keyed : Rows → Bool
keyed [] = true
keyed (r ∷ rs) = not (violates_keys r rs) && keyed rs

violates-keys :
    (m : Membership) (rows : Rows) → violates m rows ≡ false → violates_keys m rows ≡ false
unfolding violates clash violates_keys
violates-keys m [] v = refl
violates-keys m (r ∷ rows) v = ground (arith, violates-keys m rows)

pub consistent-keyed : (rows : Rows) → consistent rows ≡ true → keyed rows ≡ true
unfolding consistent keyed
consistent-keyed [] c = refl
consistent-keyed (r ∷ rows) c = ground (arith, consistent-keyed rows, violates-keys r rows)

violates-no_owner :
    (m : Membership) (rows : Rows)
    → violates_keys m rows ≡ false
    → (is_owner m ≡ true → owners m.organization_id rows ≡ 0)
    → violates m rows ≡ false
unfolding violates clash violates_keys owners
violates-no_owner m [] v h = refl
violates-no_owner m (r ∷ rows) v h = ground (arith, violates-no_owner m rows)

pub keyed-consistent :
    (rows : Rows)
    → keyed rows ≡ true
    → ((org : String) → owners org rows ≤ 1)
    → consistent rows ≡ true
unfolding consistent keyed owners
keyed-consistent [] k h = refl
keyed-consistent (r ∷ rows) k h =
    let ih = keyed-consistent rows in
    let here = h r.organization_id in ground (arith, violates-no_owner r rows, h)

pub violates-owners :
    (m : Membership) (rows : Rows)
    → violates m rows ≡ false
    → is_owner m ≡ true
    → owners m.organization_id rows ≡ 0
unfolding violates clash owners
violates-owners m [] v h = refl
violates-owners m (r ∷ rows) v h = ground (arith, violates-owners m rows)

-- No organization of a consistent table has two owners.
pub owners-le : (org : String) (rows : Rows) → consistent rows ≡ true → owners org rows ≤ 1
unfolding consistent owners
owners-le org [] c = omega arith
owners-le org (r ∷ rows) c = ground (arith, owners-le org rows, violates-owners r rows)

violates_keys-set_role :
    (p : Membership → Bool) (role other : String) (m : Membership) (rows : Rows)
    → violates_keys (record m { role = other }) (set_role p role rows) ≡ violates_keys m rows
unfolding violates_keys set_role
violates_keys-set_role p role other m [] = refl
violates_keys-set_role p role other m (r ∷ rows) =
    ground (arith, violates_keys-set_role p role other m rows)

pub keyed-set_role :
    (p : Membership → Bool) (role : String) (rows : Rows)
    → keyed (set_role p role rows) ≡ keyed rows
unfolding keyed set_role
keyed-set_role p role [] = refl
keyed-set_role p role (r ∷ rows) = ground (
  arith,
  keyed-set_role p role rows,
  violates_keys-set_role p role role r rows,
  violates_keys-set_role p role r.role r rows,
)
