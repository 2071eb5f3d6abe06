-- ===== src/Membership.antt =====
-- The members of an organization: the table `memberships` (migration 015) and the operations on it
-- in services/shared/storage/postgres/postgres.go. The table is the list of its rows; each operation
-- is one transaction, which returns the new rows or an error that leaves them as they are. The
-- constraints of the table are the primary key, one row for a user in an organization, one owner
-- in an organization, and the four roles; row-level security hides the rows of other
-- organizations. Foreign keys, the columns with a time, and failures of the database itself are
-- left out.
pub mod Table
pub mod Lookup
pub mod Owners
pub mod Handlers
pub mod Effects
pub mod Access
mod Tests
use axiaops.Common.{
  leb, if◌then◌else◌, is_some, ◌==◌, contains, string_eq, nat_eq, ℕ, ◌+◌, String, ◌⊎◌, inl, inr,
  Bool, true, false, not, ◌&&◌, ◌||◌, Option, none, some, List, [], ◌∷◌, ◌++◌, arith,
}

pub record Membership : Type 0 where
  pub id : String
  pub organization_id : String
  pub user_id : String
  pub role : String
  pub invited_by : String
  pub provisioned_via : String

-- The errors of the storage; any other database error is `storage_failed`.
pub data StoreError : Type 0 where
  membership_not_found membership_exists last_owner storage_failed : StoreError

abbrev pub Rows : Type 0
Rows = List Membership

abbrev pub Outcome : Type 0
Outcome = StoreError ⊎ Rows

-- The `CHECK` on the role, and `validRole` of the handlers.
abbrev pub valid_role : String → Bool
valid_role role = contains ("owner" ∷ "admin" ∷ "member" ∷ "viewer" ∷ []) role

abbrev pub is_owner : Membership → Bool
is_owner m = m.role == "owner"

-- Whether two rows may not stand in the table together.
unfoldable pub clash : Membership → Membership → Bool
clash m r =
    r.id == m.id
    || (r.organization_id == m.organization_id
        && (r.user_id == m.user_id || (is_owner r && is_owner m)))

unfoldable pub violates : Membership → Rows → Bool
violates m [] = false
violates m (r ∷ rs) = clash m r || violates m rs

-- The unique constraints hold of the table.
unfoldable pub consistent : Rows → Bool
unfolding violates
consistent [] = true
consistent (r ∷ rs) = not (violates r rs) && consistent rs

-- `SELECT COUNT(*) … WHERE organization_id = org AND role = 'owner'`
unfoldable pub owners : String → Rows → ℕ
owners org [] = 0
owners org (r ∷ rs) = (if r.organization_id == org && is_owner r then 1 else 0) + owners org rs

-- `WHERE id = $1`, on the rows that the organization sees.
abbrev pub is_at : String → String → Membership → Bool
is_at org id r = r.id == id && r.organization_id == org

-- `WHERE organization_id = $1 AND user_id = $2`
abbrev pub is_of : String → String → Membership → Bool
is_of org user_id r = r.organization_id == org && r.user_id == user_id

unfoldable pub find : (Membership → Bool) → Rows → Option Membership
find p [] = none
find p (r ∷ rs) = if p r then some r else find p rs

-- `UPDATE memberships SET role = … WHERE …`
unfoldable pub set_role : (Membership → Bool) → String → Rows → Rows
set_role p role [] = []
set_role p role (r ∷ rs) =
    let rest = set_role p role rs in if p r then record r { role = role } ∷ rest else r ∷ rest

-- `DELETE FROM memberships WHERE …`
unfoldable pub remove : (Membership → Bool) → Rows → Rows
remove p [] = []
remove p (r ∷ rs) = let rest = remove p rs in if p r then rest else r ∷ rest

-- `GetMembership`, for an organization that is named; without one it fails, which its callers test.
unfoldable pub get_membership : String → String → Rows → Option Membership
unfolding find
get_membership org id rows = find (is_at org id) rows

abbrev pub role_or_none : Option Membership → String
role_or_none none = ""
role_or_none (some m) = m.role

-- `RoleOf`
unfoldable pub role_of : String → String → Rows → String
unfolding find
role_of org user_id rows =
    if org == "" || user_id == "" then "" else role_or_none (find (is_of org user_id) rows)

-- The `INSERT` of one row, with the error for a violated unique constraint.
abbrev pub insert_row : StoreError → String → Membership → Rows → Outcome
insert_row taken org m rows =
    if org == "" || (not (m.organization_id == org) || not (valid_role m.role))
    then inl storage_failed
    else if violates m rows
    then inl taken
    else inr (rows ++ m ∷ [])

-- `SaveMembership`; `new_id` is the generated identifier.
unfoldable pub save_membership : String → String → Membership → Rows → Outcome
unfolding violates
save_membership org new_id m rows =
    insert_row membership_exists org
      (record m {
        id = if m.id == "" then new_id else m.id;
        provisioned_via = if m.provisioned_via == "" then "manual" else m.provisioned_via;
      })
      rows

-- The `UPDATE` of a role, which the constraints may refuse.
abbrev pub checked : StoreError → String → Rows → Outcome
checked taken role rows =
    if not (valid_role role)
    then inl storage_failed
    else if consistent rows
    then inr rows
    else inl taken

-- What `UpdateMembershipRole` does with the row that it has locked.
abbrev pub update_found : String → String → String → Rows → Option Membership → Outcome
update_found org id new_role rows none = inl membership_not_found
update_found org id new_role rows (some m) =
    if is_owner m && (not (new_role == "owner") && leb (owners org rows) 1)
    then inl last_owner
    else checked last_owner new_role (set_role (is_at org id) new_role rows)

-- `UpdateMembershipRole`
unfoldable pub update_membership_role : String → String → String → Rows → Outcome
unfolding find set_role owners consistent
update_membership_role org id new_role rows =
    if org == ""
    then inl storage_failed
    else update_found org id new_role rows (find (is_at org id) rows)

abbrev pub delete_found : String → String → Rows → Option Membership → Outcome
delete_found org id rows none = inl membership_not_found
delete_found org id rows (some m) =
    if is_owner m && leb (owners org rows) 1
    then inl last_owner
    else inr (remove (is_at org id) rows)

-- `DeleteMembership`
unfoldable pub delete_membership : String → String → Rows → Outcome
unfolding find remove owners
delete_membership org id rows =
    if org == "" then inl storage_failed else delete_found org id rows (find (is_at org id) rows)

abbrev pub is_owner_of : String → Membership → Bool
is_owner_of org r = r.organization_id == org && is_owner r

-- The rows after the two updates of `TransferOwnership`: the owners step down, then the target is
-- promoted.
unfoldable pub transferred : String → String → Rows → Rows
unfolding set_role
transferred org id rows = set_role (is_at org id) "owner" (set_role (is_owner_of org) "admin" rows)

abbrev pub transfer_found : String → Rows → Option Membership → Outcome
transfer_found org rows none = inl membership_not_found
transfer_found org rows (some m) = checked storage_failed "owner" (transferred org m.id rows)

-- `TransferOwnership`
unfoldable pub transfer_ownership : String → String → Rows → Outcome
unfolding find transferred consistent
transfer_ownership org to_user_id rows =
    if org == ""
    then inl storage_failed
    else transfer_found org rows (find (is_of org to_user_id) rows)

-- The row that `EnsureFirstMembership` inserts.
abbrev pub first_row : String → String → String → Membership
first_row org user_id new_id = record {
  id = new_id;
  organization_id = org;
  user_id = user_id;
  role = "owner";
  invited_by = "";
  provisioned_via = "manual";
}

-- `EnsureFirstMembership`: the rows and whether a row was inserted; `none` is an error.
unfoldable pub ensure_first_membership : String → String → String → Rows → Option (Rows × Bool)
unfolding find violates
ensure_first_membership org user_id new_id rows =
    if org == "" || user_id == ""
    then none
    else if is_some (find (λ r. r.organization_id == org) rows)
        || violates (first_row org user_id new_id) rows
    then some (rows, false)
    else some (rows ++ first_row org user_id new_id ∷ [], true)
