-- ===== src/Membership/Handlers.antt =====
-- The membership endpoints: services/api/internal/api/memberships.go behind the permission check of
-- services/api/internal/middleware/authz.go. `tid` and `uid` are the caller's organization and
-- user, which authentication has put in the context. A handler returns the table and the status
-- of its answer; the audit record, the response's body, and failures of the database are left out.
use axiaops.Common.{
  if◌then◌else◌, ◌==◌, string_eq, nat_eq, ℕ, String, inl, inr, Bool, not, ◌&&◌, ◌||◌, Option, none,
  some,
}
use axiaops.Authz.{allows}
use axiaops.Membership.{
  Membership, StoreError, membership_not_found, membership_exists, last_owner, storage_failed, Rows,
  Outcome, valid_role, get_membership, role_of, save_membership, update_membership_role,
  delete_membership, transfer_ownership,
}

-- What a handler uses of code that is not modelled: `strings.TrimSpace`,
-- `ValidateInvitableEmail` (which parses by net/mail) and `GetUserByEmail`, with the user's id.
pub record Env : Type 0 where
  pub trim : String → String
  pub invitable : String → Bool
  pub user_by_email : String → Option String

abbrev pub Answer : Type 0
Answer = Rows × ℕ

-- `middleware.Require`
unfoldable pub require : String → String → String → Rows → Answer → Answer
unfolding role_of allows
require perm tid uid rows next =
    if tid == "" || uid == ""
    then (rows, 403)
    else if not (allows (role_of tid uid rows) perm)
    then (rows, 403)
    else next

-- `isElevated`
abbrev pub is_elevated : String → Bool
is_elevated role = role == "admin" || role == "owner"

-- The status for an error of the storage, in each handler.
abbrev pub status_of : StoreError → ℕ
status_of membership_not_found = 404
status_of membership_exists = 500
status_of last_owner = 409
status_of storage_failed = 500

abbrev pub save_status : StoreError → ℕ
save_status membership_exists = 409
save_status _ = 500

abbrev pub transfer_status : StoreError → ℕ
transfer_status membership_not_found = 404
transfer_status _ = 500

abbrev pub answer : (StoreError → ℕ) → ℕ → Rows → Outcome → Answer
answer errors done rows (inl err) = (rows, errors err)
answer errors done rows (inr rows') = (rows', done)

-- The end of `createMembership`, for the user that the email belongs to.
abbrev pub create_for : String → String → String → String → Rows → Option String → Answer
create_for tid uid new_id role rows none = (rows, 404)
create_for tid uid new_id role rows (some user_id) = answer save_status 201 rows (
    save_membership tid new_id
      (record {
        id = "";
        organization_id = tid;
        user_id = user_id;
        role = role;
        invited_by = uid;
        provisioned_via = "";
      })
      rows)

-- `createMembership`, on the decoded email and role.
unfoldable pub create_membership : Env → String → String → String → String → String → Rows → Answer
unfolding role_of allows save_membership
create_membership env tid uid new_id raw_email raw_role rows =
    let email = env.trim raw_email in
    let role = env.trim raw_role in
    if email == "" || role == ""
    then (rows, 400)
    else if not (env.invitable email)
    then (rows, 400)
    else if not (valid_role role)
    then (rows, 400)
    else if role == "owner"
    then (rows, 400)
    else if role == "admin" && not (allows (role_of tid uid rows) "members:manage_admin")
    then (rows, 403)
    else create_for tid uid new_id role rows (env.user_by_email email)

-- The permission that a change of a member with the given roles needs.
abbrev pub manage_perm : Bool → String
manage_perm elevated = if elevated then "members:manage_admin" else "members:manage_basic"

abbrev pub update_for : String → String → String → String → Rows → Option Membership → Answer
update_for tid uid id role rows none = (rows, 404)
update_for tid uid id role rows (some current) =
    if not
      (allows (role_of tid uid rows) (manage_perm (is_elevated current.role || is_elevated role)))
    then (rows, 403)
    else answer status_of 204 rows (update_membership_role tid id role rows)

-- `updateMembershipRole`
unfoldable pub update_role : Env → String → String → String → String → Rows → Answer
unfolding role_of allows get_membership update_membership_role
update_role env tid uid id raw_role rows =
    let role = env.trim raw_role in
    if not (valid_role role)
    then (rows, 400)
    else if role == "owner"
    then (rows, 400)
    else if tid == ""
    then (rows, 500)
    else update_for tid uid id role rows (get_membership tid id rows)

abbrev pub delete_for : String → String → String → Rows → Option Membership → Answer
delete_for tid uid id rows none = (rows, 404)
delete_for tid uid id rows (some target) =
    if not (target.user_id == uid)
      && not (allows (role_of tid uid rows) (manage_perm (is_elevated target.role)))
    then (rows, 403)
    else answer status_of 204 rows (delete_membership tid id rows)

-- `deleteMembership`, which has no permission check before it.
unfoldable pub delete : String → String → String → Rows → Answer
unfolding role_of allows get_membership delete_membership
delete tid uid id rows =
    if tid == "" then (rows, 500) else delete_for tid uid id rows (get_membership tid id rows)

-- `transferOwnership`
unfoldable pub transfer : Env → String → String → Rows → Answer
unfolding transfer_ownership
transfer env tid raw_user_id rows =
    let to_user_id = env.trim raw_user_id in
    if to_user_id == ""
    then (rows, 400)
    else answer transfer_status 204 rows (transfer_ownership tid to_user_id rows)

-- A request to one of the endpoints.
pub data Request : Type 0 where
  create_request : String → String → String → Request
  update_request : String → String → Request
  delete_request : String → Request
  transfer_request : String → Request

-- The routes of services/api/internal/api/handler.go.
unfoldable pub serve : Env → String → String → Request → Rows → Answer
unfolding require create_membership update_role delete transfer
serve env tid uid (create_request new_id email role) rows =
    require "members:invite" tid uid rows (create_membership env tid uid new_id email role rows)
serve env tid uid (update_request id role) rows =
    require "members:manage_basic" tid uid rows (update_role env tid uid id role rows)
serve env tid uid (delete_request id) rows = delete tid uid id rows
serve env tid uid (transfer_request to) rows =
    require "organization:transfer" tid uid rows (transfer env tid to rows)
