-- ===== src/Jit/Provision.antt =====
-- The membership made or changed at an SSO login: `JITProvisionMembership` of
-- services/api/internal/sso/jit.go, on the table of Membership. The context names the
-- organization of the login, as its caller sets it; `new_id` is the generated identifier.
use axiaops.Common.{
  if◌then◌else◌, is_some, ◌==◌, string_eq, nat_eq, String, ◌⊎◌, inl, inr, not, ◌||◌, Option, none,
  some,
}
use axiaops.Common.Dict.{lookup}
use axiaops.Membership.{
  Membership, StoreError, Rows, Outcome, find, is_of, save_membership, update_membership_role,
}
use axiaops.Jit.{role_priority}

pub data JitOutcome : Type 0 where
  noop created updated : JitOutcome

pub data JitError : Type 0 where
  owner_forbidden unknown_role ids_required : JitError
  lookup_failed : JitError
  store_failed : StoreError → JitError

-- `GetMembershipByOrgUser`, which sees all organizations.
unfoldable pub get_membership_by_org_user : String → String → Rows → Option Membership
unfolding find
get_membership_by_org_user org user_id rows = find (is_of org user_id) rows

abbrev pub jit_membership : String → String → String → String → Membership
jit_membership org user_id role new_id = record {
  id = new_id;
  organization_id = org;
  user_id = user_id;
  role = role;
  invited_by = "";
  provisioned_via = "jit";
}

abbrev pub updated_or : Outcome → JitError ⊎ (JitOutcome × Rows)
updated_or (inl err) = inl (store_failed err)
updated_or (inr rows) = inr (updated, rows)

-- What the call does with the membership that it finds.
unfoldable pub reconcile :
    String → String → Rows → Option Membership → JitError ⊎ (JitOutcome × Rows)
unfolding update_membership_role
reconcile org role rows none = inl lookup_failed
reconcile org role rows (some existing) =
    if existing.role == "owner" || existing.role == role
    then inr (noop, rows)
    else if not (existing.provisioned_via == "jit")
    then inr (noop, rows)
    else updated_or (update_membership_role org existing.id role rows)

unfoldable pub saved_or : String → String → String → Rows → Outcome → JitError ⊎ (JitOutcome × Rows)
unfolding reconcile get_membership_by_org_user
saved_or org user_id role rows (inr rows') = inr (created, rows')
saved_or org user_id role rows (inl StoreError.membership_exists) =
    reconcile org role rows (get_membership_by_org_user org user_id rows)
saved_or org user_id role rows (inl err) = inl (store_failed err)

-- `JITProvisionMembership`
unfoldable pub provision : String → String → String → String → Rows → JitError ⊎ (JitOutcome × Rows)
unfolding saved_or save_membership lookup
provision org user_id role new_id rows =
    if role == "owner"
    then inl owner_forbidden
    else if not (is_some (lookup role role_priority))
    then inl unknown_role
    else if org == "" || user_id == ""
    then inl ids_required
    else saved_or org user_id role rows
        (save_membership org new_id (jit_membership org user_id role new_id) rows)
