-- ===== src/NativeAuth/Invitations/Tests.antt =====
-- An invitation that a user of another organization redeems.
use axiaops.Common.{
  ◌==◌, string_eq, nat_eq, String, ◌≡◌, refl, ◌⊎◌, inl, inr, Bool, true, none, some, [], ◌∷◌,
}
use axiaops.Membership.{Membership, consistent, find, is_of, owners}
use axiaops.NativeAuth.{User}
use axiaops.NativeAuth.Invitations.{
  Invitation, InviteStore, InviteError, Redemption, find_user, find_invitation, invited_member,
  redeem_native_invitation,
}
use axiaops.NativeAuth.Invitations.Redeemed.{
  joined, distinct_tokens, has_token, redeem_native_invitation_lem,
}

abbrev bob : User
bob = record {
  id = "u2";
  organization_id = "other";
  external_id = "native:u2";
  email = "bob@example.com";
  name = "Bob";
  password_hash = "x";
  password_set_at = none;
}

abbrev invited : Invitation
invited = record {
  id = "i1";
  organization_id = "org";
  email = "bob@example.com";
  role = "member";
  invited_by_user_id = "u1";
  invited_by_email = "ann@example.com";
  status = "pending";
  expires_at = 100;
  invite_token_hash = "hash";
}

abbrev tables : InviteStore
tables = record { users = bob ∷ []; memberships = []; pending = invited ∷ [] }

abbrev redemption : Redemption
redemption = record {
  token_hash = "hash";
  existing_user_id = "u2";
  user_id = "";
  user_name = "";
  password_hash = "";
}

-- The same token, for a user who is new.
abbrev again : Redemption
again = record {
  token_hash = "hash";
  existing_user_id = "";
  user_id = "u3";
  user_name = "Eve";
  password_hash = "y";
}

abbrev same : String → String
same text = text

abbrev fold : String → String → Bool
fold a b = a == b

redeem_native_invitation_lem_example :
    let m = invited_member "m9" invited "u2" in
    ((e : Membership) × (find (is_of "org" "u2") [] ≡ some e)
      × (redeem_native_invitation same fold 50 "m9" redemption tables
          ≡ inl InviteError.storage_failed))
    ⊎ ((redeem_native_invitation same fold 50 "m9" redemption tables
          ≡ inr (joined tables invited m, bob, m))
        × (find (is_of "org" "u2") (joined tables invited m).memberships ≡ some m)
        × (consistent (joined tables invited m).memberships ≡ true)
        × ((o : String) → owners o (joined tables invited m).memberships ≡ owners o [])
        × (redeem_native_invitation same fold 60 "m10" again (joined tables invited m)
            ≡ inl InviteError.invitation_not_found))
unfolding string_eq find_invitation find_user consistent find distinct_tokens has_token
redeem_native_invitation_lem_example =
    redeem_native_invitation_lem same fold 50 60 "m9" "m10" redemption again tables invited bob refl
      refl refl refl refl refl refl refl refl refl refl
