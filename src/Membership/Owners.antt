-- ===== src/Membership/Owners.antt =====
-- The owners of an organization: a transfer moves the ownership, and no operation loses it.
use axiaops.Common.{
  inl, if◌then◌else◌, ◌==◌, string_eq, nat_eq, String, ◌≡◌, refl, ◌∙◌, true, false, some, [], ◌∷◌,
  arith, Option, List, inr, Bool, none, Option-cases,
}
use axiaops.Membership.{
  Membership, Rows, clash, violates, consistent, owners, is_at, is_of, find, set_role, is_owner_of,
  transferred, Outcome, transfer_ownership, save_membership, update_membership_role,
  delete_membership, ensure_first_membership, StoreError, insert_row, first_row,
}
use axiaops.Membership.Table.{
  find-violates, owners-set_role, find-holds, consistent-keyed, keyed-consistent, owners-le,
  keyed-set_role, consistent-remove, owners-remove, consistent-append, owners-append,
  violates-owners,
}

admin_differs : ◌==◌ {A = String} "admin" "owner" ≡ false
unfolding string_eq
admin_differs = refl

owners-demoted :
    (org o : String) (rows : Rows)
    → owners o (set_role (is_owner_of org) "admin" rows) ≡ (if o == org then 0 else owners o rows)
unfolding owners set_role
owners-demoted org o [] = ground arith
owners-demoted org o (r ∷ rows) = ground (arith, owners-demoted org o rows, admin_differs)

demoted-consistent :
    (org : String) (rows : Rows)
    → consistent rows ≡ true
    → consistent (set_role (is_owner_of org) "admin" rows) ≡ true
demoted-consistent org rows c =
    keyed-consistent (set_role (is_owner_of org) "admin" rows)
      (keyed-set_role (is_owner_of org) "admin" rows ∙ consistent-keyed rows c)
      (λ o. ground (arith, owners-demoted org o rows, owners-le o rows))

pub find-is_at :
    (org user_id : String) (rows : Rows) (m : Membership)
    → consistent rows ≡ true
    → find (is_of org user_id) rows ≡ some m
    → find (is_at org m.id) rows ≡ some m
unfolding consistent find violates clash
find-is_at org user_id [] m c e = cc
find-is_at org user_id (r ∷ rows) m c e =
    ground (arith, find-is_at org user_id rows m, find-violates org r rows)

-- The row after the step down.
abbrev demoted : String → Membership → Membership
demoted org m = if is_owner_of org m then record m { role = "admin" } else m

find-demoted :
    (org id : String) (rows : Rows) (m : Membership)
    → find (is_at org id) rows ≡ some m
    → find (is_at org id) (set_role (is_owner_of org) "admin" rows) ≡ some (demoted org m)
unfolding find set_role
find-demoted org id [] m e = cc
find-demoted org id (r ∷ rows) m e = ground (arith, find-demoted org id rows m)

find-transferred :
    (org id : String) (rows : Rows) (m : Membership)
    → find (is_at org id) rows ≡ some m
    → find (is_at org id) (transferred org id rows) ≡ some (record m { role = "owner" })
unfolding transferred find set_role
find-transferred org id [] m e = cc
find-transferred org id (r ∷ rows) m e = ground (arith, find-transferred org id rows m)

owners-transferred :
    (org id : String) (rows : Rows) (m : Membership) (o : String)
    → consistent rows ≡ true
    → find (is_at org id) rows ≡ some m
    → owners o (transferred org id rows) ≡ (if o == org then 1 else owners o rows)
unfolding transferred
owners-transferred org id rows m o c e =
    let held = find-holds (is_at org id) rows m e in
    ground (
      arith,
      owners-set_role org id "owner" (set_role (is_owner_of org) "admin" rows) o (demoted org m),
      demoted-consistent org rows,
      find-demoted org id rows m,
      owners-demoted org o rows,
      admin_differs,
    )

transferred-consistent :
    (org id : String) (rows : Rows) (m : Membership)
    → consistent rows ≡ true
    → find (is_at org id) rows ≡ some m
    → consistent (transferred org id rows) ≡ true
unfolding transferred
transferred-consistent org id rows m c e =
    keyed-consistent (transferred org id rows)
      (keyed-set_role (is_at org id) "owner" (set_role (is_owner_of org) "admin" rows)
        ∙ keyed-set_role (is_owner_of org) "admin" rows
        ∙ consistent-keyed rows c)
      (λ o. ground (arith, owners-transferred org id rows m o, owners-le o rows))

-- In a table that keeps its constraints, a transfer in a named organization to one of its members
-- succeeds, the one-owner index included: the member's row is then the owner's, the organization has that one
-- owner, every other organization keeps its number of owners, and the constraints still hold.
pub transfer_ownership_lem :
    (org to_user_id : String) (rows : Rows) (m : Membership)
    → (org == "") ≡ false
    → consistent rows ≡ true
    → find (is_of org to_user_id) rows ≡ some m
    → (transfer_ownership org to_user_id rows ≡ inr (transferred org m.id rows))
      × (find (is_at org m.id) (transferred org m.id rows) ≡ some (record m { role = "owner" }))
      × ((o : String)
          → owners o (transferred org m.id rows) ≡ (if o == org then 1 else owners o rows))
      × (consistent (transferred org m.id rows) ≡ true)
unfolding transfer_ownership
transfer_ownership_lem org to_user_id rows m n c e =
    let at : find (is_at org m.id) rows ≡ some m = find-is_at org to_user_id rows m c e in
    (
      ground (arith, transferred-consistent org m.id rows m),
      find-transferred org m.id rows m at,
      λ o. owners-transferred org m.id rows m o c at,
      transferred-consistent org m.id rows m c at,
    )

-- The operations of the storage that the running program calls on the table.
pub data Op : Type 0 where
  save : String → String → Membership → Op
  update_role : String → String → String → Op
  delete : String → String → Op
  transfer : String → String → Op
  ensure_first : String → String → String → Op

-- The table after an operation; an error leaves it as it was.
abbrev kept : Rows → Outcome → Rows
kept rows (inl err) = rows
kept rows (inr rows') = rows'

abbrev kept_first : Rows → Option (Rows × Bool) → Rows
kept_first rows none = rows
kept_first rows (some (rows', inserted)) = rows'

pub apply : Op → Rows → Rows
apply (save org new_id m) rows = kept rows (save_membership org new_id m rows)
apply (update_role org id role) rows = kept rows (update_membership_role org id role rows)
apply (delete org id) rows = kept rows (delete_membership org id rows)
apply (transfer org to) rows = kept rows (transfer_ownership org to rows)
apply (ensure_first org user_id new_id) rows =
    kept_first rows (ensure_first_membership org user_id new_id rows)

pub apply_all : List Op → Rows → Rows
apply_all [] rows = rows
apply_all (op ∷ ops) rows = apply_all ops (apply op rows)

insert_row-consistent :
    (taken : StoreError) (org : String) (m : Membership) (rows : Rows)
    → consistent rows ≡ true
    → consistent (kept rows (insert_row taken org m rows)) ≡ true
insert_row-consistent taken org m rows c = ground (arith, consistent-append rows m)

-- Every operation keeps the constraints.
apply-consistent :
    (op : Op) (rows : Rows) → consistent rows ≡ true → consistent (apply op rows) ≡ true
unfolding apply save_membership update_membership_role delete_membership transfer_ownership
    ensure_first_membership
apply-consistent (save org new_id m) rows c = insert_row-consistent _ org _ rows c
apply-consistent (update_role org id role) rows c = ground arith
apply-consistent (delete org id) rows c = ground (arith, consistent-remove (is_at org id) rows)
apply-consistent (transfer org to) rows c = ground arith
apply-consistent (ensure_first org user_id new_id) rows c =
    ground (arith, consistent-append rows (first_row org user_id new_id))

insert_row-owners :
    (taken : StoreError) (org : String) (m : Membership) (rows : Rows) (o : String)
    → owners o rows ≡ 1
    → owners o (kept rows (insert_row taken org m rows)) ≡ 1
insert_row-owners taken org m rows o h =
    ground (arith, owners-append o rows m, violates-owners m rows)

apply-owners :
    (op : Op) (rows : Rows) (o : String)
    → consistent rows ≡ true
    → owners o rows ≡ 1
    → owners o (apply op rows) ≡ 1
unfolding apply save_membership update_membership_role delete_membership transfer_ownership
    ensure_first_membership
apply-owners (save org new_id m) rows o c h = insert_row-owners _ org _ rows o h
apply-owners (update_role org id role) rows o c h = elim (Option-cases (find (is_at org id) rows)) [
  | inl absent ↦ ground arith
  | inr (m, at) ↦ ground (
    arith,
    owners-set_role org id role rows o m,
    find-holds (is_at org id) rows m,
    owners-le o (set_role (is_at org id) role rows),
  )
]
apply-owners (delete org id) rows o c h = elim (Option-cases (find (is_at org id) rows)) [
  | inl absent ↦ ground arith
  | inr (m, at) ↦ ground (arith, owners-remove org id rows o m, find-holds (is_at org id) rows m)
]
apply-owners (transfer org to) rows o c h = elim (Option-cases (find (is_of org to) rows)) [
  | inl absent ↦ ground arith
  | inr (m, at) ↦ ground (arith, owners-transferred org m.id rows m o, find-is_at org to rows m)
]
apply-owners (ensure_first org user_id new_id) rows o c h = ground (
  arith,
  owners-append o rows (first_row org user_id new_id),
  violates-owners (first_row org user_id new_id) rows,
)

-- From a table that keeps its constraints and an organization with one owner, whatever sequence of
-- inserts, role changes, deletions, transfers and first memberships runs, on any organizations and
-- whether they succeed or not: the constraints go on holding, and the organization has one owner.
pub apply_all-owners :
    (ops : List Op) (rows : Rows) (o : String)
    → consistent rows ≡ true
    → owners o rows ≡ 1
    → (consistent (apply_all ops rows) ≡ true) × (owners o (apply_all ops rows) ≡ 1)
unfolding apply_all
apply_all-owners [] rows o c h = (c, h)
apply_all-owners (op ∷ ops) rows o c h =
    apply_all-owners ops (apply op rows) o (apply-consistent op rows c) (apply-owners op rows o c h)
