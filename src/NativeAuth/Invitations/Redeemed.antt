-- ===== src/NativeAuth/Invitations/Redeemed.antt =====
-- What the redemption of an invitation by a user who exists gives, and that it works once.
use axiaops.Common.{
  if◌then◌else◌, Bool-cases, Option-cases, ◌==◌, contains, string_eq, nat_eq, ℕ, String, ◌≡◌, refl,
  ap, ◌∙◌, ◌⊎◌, inl, inr, Bool, true, false, not, ◌&&◌, ◌||◌, none, some, List, [], ◌∷◌, ◌++◌,
  arith,
}
use axiaops.Membership.{
  valid_role, Membership, insert_row, StoreError, consistent, violates, find, is_of, owners,
}
use axiaops.NativeAuth.{User}
use axiaops.Membership.Table.{consistent-append, owners-append}
use axiaops.Membership.Lookup.{absent-violates, present-violates, find-append}
use axiaops.NativeAuth.Invitations.{
  Invitation, find_invitation, remove_invitation, is_live, InviteStore, Redemption,
  redeem_native_invitation, redeem_live, invited_member, find_user, join_existing,
  invitation_not_found, join, settled, InviteError,
}

-- The roles of an invitation.
abbrev pub invitation_role : String → Bool
invitation_role role = contains ("admin" ∷ "member" ∷ "viewer" ∷ []) role

roles_differ :
    (◌==◌ {A = String} "admin" "owner"
      || (◌==◌ {A = String} "member" "owner" || ◌==◌ {A = String} "viewer" "owner"))
    ≡ false
unfolding string_eq
roles_differ = refl

invitation_role-valid :
    (role : String)
    → invitation_role role ≡ true
    → (valid_role role ≡ true) × (role == "owner" ≡ false)
invitation_role-valid role h = (ground (arith, roles_differ), ground (arith, roles_differ))

-- No two invitations have one token.
unfoldable pub has_token : String → List Invitation → Bool
has_token t [] = false
has_token t (i ∷ pending) = i.invite_token_hash == t || has_token t pending

unfoldable pub distinct_tokens : List Invitation → Bool
unfolding has_token
distinct_tokens [] = true
distinct_tokens (i ∷ pending) =
    not (has_token i.invite_token_hash pending) && distinct_tokens pending

tokenless :
    (now : ℕ) (t : String) (pending : List Invitation)
    → has_token t pending ≡ false
    → find_invitation (is_live now t) pending ≡ none
unfolding has_token find_invitation
tokenless now t [] h = refl
tokenless now t (i ∷ pending) h = ground (arith, tokenless now t pending)

tokenless-removed :
    (t id : String) (pending : List Invitation)
    → has_token t pending ≡ false
    → has_token t (remove_invitation id pending) ≡ false
unfolding has_token remove_invitation
tokenless-removed t id [] h = refl
tokenless-removed t id (i ∷ pending) h = ground (arith, tokenless-removed t id pending)

-- Once its invitation is removed, a token finds nothing, at any time.
removed-find :
    (now later : ℕ) (t : String) (pending : List Invitation) (i : Invitation)
    → distinct_tokens pending ≡ true
    → find_invitation (is_live now t) pending ≡ some i
    → find_invitation (is_live later t) (remove_invitation i.id pending) ≡ none
unfolding distinct_tokens find_invitation remove_invitation
removed-find now later t [] i d f = cc
removed-find now later t (x ∷ pending) i d f = ground (
  arith,
  removed-find now later t pending i,
  tokenless now x.invite_token_hash pending,
  tokenless-removed x.invite_token_hash x.id pending,
  tokenless later x.invite_token_hash (remove_invitation x.id pending),
)

-- The rows after a redemption that works.
abbrev pub joined : InviteStore → Invitation → Membership → InviteStore
joined st i m = record st {
  memberships = st.memberships ++ m ∷ [];
  pending = remove_invitation i.id st.pending;
}

module _ (lower : String → String) (equal_fold : String → String → Bool) (now : ℕ)
    (membership_id : String) (r : Redemption) (st : InviteStore) (i : Invitation) (u : User) where
  abbrev made : Membership
  made = invited_member membership_id i u.id

  redeem-join :
      r.token_hash == "" ≡ false
      → find_invitation (is_live now r.token_hash) st.pending ≡ some i
      → r.existing_user_id == "" ≡ false
      → find_user (λ v. v.id == r.existing_user_id) st.users ≡ some u
      → equal_fold u.email i.email ≡ true
      → redeem_native_invitation lower equal_fold now membership_id r st
        ≡ settled st i st.users u made
            (insert_row StoreError.membership_exists i.organization_id made st.memberships)
  unfolding redeem_native_invitation redeem_live join_existing join
  redeem-join t f n v e = rw (t, f, n, v, e) refl

  insert_row-made :
      i.organization_id == "" ≡ false
      → invitation_role i.role ≡ true
      → insert_row StoreError.membership_exists i.organization_id made st.memberships ≡ (
          if violates made st.memberships
          then inl StoreError.membership_exists
          else inr (st.memberships ++ made ∷ []))
  insert_row-made n v =
      let refused : (i.organization_id == ""
            || (not (i.organization_id == i.organization_id) || not (valid_role i.role)))
          ≡ false =
        ground (arith, invitation_role-valid i.role v) in
      rw refused refl

-- A later redemption of a token whose invitation is gone finds none.
redeem-gone :
    (lower : String → String) (equal_fold : String → String → Bool) (now : ℕ)
    (membership_id : String) (r : Redemption) (st : InviteStore)
    → find_invitation (is_live now r.token_hash) st.pending ≡ none
    → redeem_native_invitation lower equal_fold now membership_id r st ≡ inl invitation_not_found
unfolding redeem_native_invitation redeem_live
redeem-gone lower equal_fold now membership_id r st f = elim (Bool-cases (r.token_hash == "")) [
  | inl e ↦ rw e refl
  | inr e ↦ rw (e, f) refl
]

-- The redemption of a live invitation by a user who exists and has its email, in tables that keep
-- their constraints and have no membership with the identifier that is drawn for the new one: if
-- the user is a member already it fails; else it succeeds, the user is a member with the invited role, the
-- constraints hold, every organization keeps its number of owners, and on the tables that it leaves
-- every redemption of the token, by whatever user and at whatever time, finds no invitation.
pub redeem_native_invitation_lem :
    (lower : String → String) (equal_fold : String → String → Bool) (now later : ℕ)
    (membership_id next_id : String) (r again : Redemption) (st : InviteStore) (i : Invitation)
    (u : User)
    → again.token_hash ≡ r.token_hash
    → r.token_hash == "" ≡ false
    → find_invitation (is_live now r.token_hash) st.pending ≡ some i
    → r.existing_user_id == "" ≡ false
    → find_user (λ v. v.id == r.existing_user_id) st.users ≡ some u
    → equal_fold u.email i.email ≡ true
    → i.organization_id == "" ≡ false
    → invitation_role i.role ≡ true
    → consistent st.memberships ≡ true
    → find (λ m. m.id == membership_id) st.memberships ≡ none
    → distinct_tokens st.pending ≡ true
    → let m = invited_member membership_id i u.id in
      ((e : Membership) × (find (is_of i.organization_id u.id) st.memberships ≡ some e)
        × (redeem_native_invitation lower equal_fold now membership_id r st
            ≡ inl InviteError.storage_failed))
      ⊎ ((redeem_native_invitation lower equal_fold now membership_id r st
            ≡ inr (joined st i m, u, m))
          × (find (is_of i.organization_id u.id) (joined st i m).memberships ≡ some m)
          × (consistent (joined st i m).memberships ≡ true)
          × ((o : String) → owners o (joined st i m).memberships ≡ owners o st.memberships)
          × (redeem_native_invitation lower equal_fold later next_id again (joined st i m)
              ≡ inl invitation_not_found))
redeem_native_invitation_lem lower equal_fold now later membership_id next_id r again st i u same t
      f n v e o role c fresh d =
    let m = invited_member membership_id i u.id in
    let j =
      redeem-join lower equal_fold now membership_id r st i u t f n v e
      ∙ ap (settled st i st.users u m)
          (insert_row-made lower equal_fold now membership_id r st i u o role) in
    let no = invitation_role-valid i.role role in
    elim (Option-cases (find (is_of i.organization_id u.id) st.memberships)) [
      | inl absent ↦ inr (
          let free = absent-violates m st.memberships no.1 fresh absent in
          (
            j ∙ rw free refl,
            find-append (is_of i.organization_id u.id) st.memberships m absent (ground arith),
            consistent-append st.memberships m c free,
            λ org. ground (arith, owners-append org st.memberships m, no),
            redeem-gone lower equal_fold later next_id again (joined st i m)
                (rw same (removed-find now later r.token_hash st.pending i d f)),
          ))
      | inr (x, there) ↦ inl (x, there, j ∙ rw (present-violates m x st.memberships there) refl)
    ]
