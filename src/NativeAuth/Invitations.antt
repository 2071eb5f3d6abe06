-- ===== src/NativeAuth/Invitations.antt =====
-- Invitations with a token: `CreateNativeInvitation`, `LookupInvitationByToken` and
-- `RedeemNativeInvitation` of services/shared/storage/postgres/native_auth.go, over the tables `users`,
-- `memberships` (as in Membership) and `pending_memberships`. In Postgres a statement that fails ends
-- its transaction: every further one fails too. `lower` and `equal_fold` are parameters.
pub mod Redeemed
mod Tests
use axiaops.Common.{
  ltb, if◌then◌else◌, ◌==◌, string_eq, nat_eq, ℕ, ◌+◌, ◌<◌, String, ◌<>◌, ◌⊎◌, inl, inr, Bool, not,
  ◌&&◌, ◌||◌, Option, none, some, List, [], ◌∷◌, ◌++◌, arith,
}
use axiaops.Membership.{Membership, StoreError, Outcome, violates, insert_row}
use axiaops.NativeAuth.{User, taken}

-- `PendingInvitation`
pub record Invitation : Type 0 where
  pub id : String
  pub organization_id : String
  pub email : String
  pub role : String
  pub invited_by_user_id : String
  pub invited_by_email : String
  pub status : String
  pub expires_at : ℕ
  pub invite_token_hash : String

pub record InviteStore : Type 0 where
  pub users : List User
  pub memberships : List Membership
  pub pending : List Invitation

pub data InviteError : Type 0 where
  fields_missing invalid_role invitation_not_found invitation_user_mismatch : InviteError
  already_member user_exists_no_membership user_email_exists storage_failed : InviteError

-- `NativeInviteRedeem`
pub record Redemption : Type 0 where
  pub token_hash : String
  pub existing_user_id : String
  pub user_id : String
  pub user_name : String
  pub password_hash : String

unfoldable pub find_user : (User → Bool) → List User → Option User
find_user p [] = none
find_user p (u ∷ users) = if p u then some u else find_user p users

unfoldable pub find_invitation : (Invitation → Bool) → List Invitation → Option Invitation
find_invitation p [] = none
find_invitation p (i ∷ pending) = if p i then some i else find_invitation p pending

unfoldable pub remove_invitation : String → List Invitation → List Invitation
remove_invitation id [] = []
remove_invitation id (i ∷ pending) =
    let rest = remove_invitation id pending in if i.id == id then rest else i ∷ rest

-- `WHERE invite_token_hash = $1 AND status = 'pending' AND expires_at > NOW()`
abbrev pub is_live : ℕ → String → Invitation → Bool
is_live now token_hash i =
    i.invite_token_hash == token_hash && (i.status == "pending" && ltb now i.expires_at)

abbrev pub invited_user : String → Redemption → Invitation → ℕ → User
invited_user external_id r i now = record {
  id = r.user_id;
  organization_id = i.organization_id;
  external_id = external_id;
  email = i.email;
  name = r.user_name;
  password_hash = r.password_hash;
  password_set_at = some now;
}

abbrev pub invited_member : String → Invitation → String → Membership
invited_member membership_id i user_id = record {
  id = membership_id;
  organization_id = i.organization_id;
  user_id = user_id;
  role = i.role;
  invited_by = i.invited_by_user_id;
  provisioned_via = "invitation";
}

abbrev pub matched : (String → String → Bool) → Invitation → Option User → InviteError ⊎ User
matched equal_fold i none = inl invitation_not_found
matched equal_fold i (some u) =
    if equal_fold u.email i.email then inr u else inl invitation_user_mismatch

-- The end of `RedeemNativeInvitation`, after the insert of the membership.
abbrev pub settled :
    InviteStore
    → Invitation
    → List User
    → User
    → Membership
    → Outcome
    → InviteError ⊎ (InviteStore × User × Membership)
settled st i users u m (inl err) = inl storage_failed
settled st i users u m (inr rows) = inr (
  record { users = users; memberships = rows; pending = remove_invitation i.id st.pending },
  u,
  m,
)

module _ (lower : String → String) (equal_fold : String → String → Bool) (now : ℕ)
    (membership_id : String) (r : Redemption) where
  -- The membership is inserted; where the user has one already the insert fails, and the read that
  -- follows it in the transaction fails too.
  unfoldable pub join :
      InviteStore → Invitation → List User → User → InviteError ⊎ (InviteStore × User × Membership)
  unfolding violates remove_invitation
  join st i users u =
      let m = invited_member membership_id i u.id in
      settled st i users u m
        (insert_row StoreError.membership_exists i.organization_id m st.memberships)

  unfoldable pub join_existing :
      InviteStore
      → Invitation
      → InviteError ⊎ User
      → InviteError ⊎ (InviteStore × User × Membership)
  unfolding join
  join_existing st i (inl err) = inl err
  join_existing st i (inr u) = join st i st.users u

  unfoldable pub join_new :
      InviteStore → Invitation → InviteError ⊎ (InviteStore × User × Membership)
  unfolding join taken
  join_new st i =
      let u = invited_user ("native:" <> r.user_id) r i now in
      if r.user_id == "" || r.password_hash == ""
      then inl fields_missing
      else if taken lower u st.users
      then inl user_email_exists
      else join st i (st.users ++ u ∷ []) u

  unfoldable pub redeem_live :
      InviteStore → Option Invitation → InviteError ⊎ (InviteStore × User × Membership)
  unfolding join_existing join_new find_user
  redeem_live st none = inl invitation_not_found
  redeem_live st (some i) =
      if not (r.existing_user_id == "")
      then join_existing st i
          (matched equal_fold i (find_user (λ u. u.id == r.existing_user_id) st.users))
      else join_new st i

  -- `RedeemNativeInvitation`, with the user and the membership that it returns.
  unfoldable pub redeem_native_invitation :
      InviteStore → InviteError ⊎ (InviteStore × User × Membership)
  unfolding redeem_live find_invitation
  redeem_native_invitation st =
      if r.token_hash == ""
      then inl invitation_not_found
      else redeem_live st (find_invitation (is_live now r.token_hash) st.pending)
