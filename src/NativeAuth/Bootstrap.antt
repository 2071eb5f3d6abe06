-- ===== src/NativeAuth/Bootstrap.antt =====
-- The first owner of an installation: `CreateBootstrapState` and `ConsumeBootstrapState` of
-- services/shared/storage/postgres/native_auth.go. The advisory lock puts the transactions one after
-- the other; an error leaves the tables as they are. The singleton row is an option; of an
-- organization the model keeps the columns that are written.
pub mod Sealed
mod Tests
use axiaops.Common.{
  ltb, if◌then◌else◌, is_some, length, ◌==◌, string_eq, nat_eq, ℕ, ◌+◌, ◌<◌, String, ◌<>◌, ◌⊎◌, inl,
  inr, Bool, true, false, not, ◌||◌, Option, none, some, List, [], ◌∷◌, ◌++◌, arith,
}
use axiaops.Membership.{Membership, StoreError, Outcome, violates, insert_row}
use axiaops.Session.{Session, taken as session_taken}
use axiaops.NativeAuth.{User, taken}

pub record Organization : Type 0 where
  pub id : String
  pub org_code : String
  pub name : String

-- The row of `bootstrap_state`.
pub record BootstrapState : Type 0 where
  pub token_hash : String
  pub minted_by_pod : String

pub record Tables : Type 0 where
  pub organizations : List Organization
  pub users : List User
  pub memberships : List Membership
  pub sessions : List Session
  pub bootstrap_state : Option BootstrapState

pub data BootstrapError : Type 0 where
  fields_missing bootstrap_already_done bootstrap_token_mismatch : BootstrapError
  user_email_exists storage_failed : BootstrapError

-- `BootstrapConsume`
pub record BootstrapConsume : Type 0 where
  pub token_hash : String
  pub organization_id : String
  pub organization_name : String
  pub user_id : String
  pub user_email : String
  pub user_name : String
  pub user_password_hash : String
  pub session_id : String
  pub session_token_hash : String
  pub session_expires_at : ℕ

-- `CreateBootstrapState`, with whether this call wrote the row.
unfoldable pub create_bootstrap_state : String → String → Tables → BootstrapError ⊎ (Tables × Bool)
create_bootstrap_state token_hash minted_by_pod st =
    if token_hash == ""
    then inl fields_missing
    else if ltb 0 (length st.organizations)
    then inl bootstrap_already_done
    else if is_some st.bootstrap_state
    then inr (st, false)
    else inr (
      record st {
        bootstrap_state = some (record { token_hash = token_hash; minted_by_pod = minted_by_pod });
      },
      true,
    )

-- `GetBootstrapState`
unfoldable pub get_bootstrap_state : Tables → BootstrapError ⊎ (String × String)
get_bootstrap_state st = elim st.bootstrap_state [
  | none ↦ inl bootstrap_already_done
  | some row ↦ inr (row.token_hash, row.minted_by_pod)
]

unfoldable pub org_taken : Organization → List Organization → Bool
org_taken o [] = false
org_taken o (p ∷ orgs) = p.id == o.id || (p.org_code == o.org_code || org_taken o orgs)

abbrev pub new_organization : BootstrapConsume → Organization
new_organization c = record {
  id = c.organization_id;
  org_code = "native:" <> c.organization_id;
  name = c.organization_name;
}

abbrev pub new_owner : ℕ → BootstrapConsume → User
new_owner now c = record {
  id = c.user_id;
  organization_id = c.organization_id;
  external_id = "native:" <> c.user_id;
  email = c.user_email;
  name = c.user_name;
  password_hash = c.user_password_hash;
  password_set_at = some now;
}

abbrev pub owner_membership : String → BootstrapConsume → Membership
owner_membership membership_id c = record {
  id = membership_id;
  organization_id = c.organization_id;
  user_id = c.user_id;
  role = "owner";
  invited_by = "";
  provisioned_via = "manual";
}

abbrev pub owner_session : ℕ → BootstrapConsume → Session
owner_session now c = record {
  id = c.session_id;
  user_id = c.user_id;
  organization_id = c.organization_id;
  auth_mode = "bootstrap";
  session_token_hash = c.session_token_hash;
  created_at = now;
  expires_at = c.session_expires_at;
  revoked_at = none;
  last_seen_at = now;
}

abbrev pub lacks_inputs : BootstrapConsume → Bool
lacks_inputs c =
    (c.token_hash == "" || (c.organization_id == "" || (c.user_id == "" || c.session_id == "")))
    || (c.user_password_hash == "" || (c.session_token_hash == "" || c.session_expires_at == 0))

module _ (lower : String → String) (now : ℕ) (membership_id : String) (c : BootstrapConsume) where
  -- The inserts of the membership and the session, and the end of the transaction.
  unfoldable pub seal : Tables → Outcome → BootstrapError ⊎ (Tables × User × Session)
  unfolding session_taken
  seal st (inl err) = inl storage_failed
  seal st (inr rows) =
      if session_taken (owner_session now c) st.sessions
      then inl storage_failed
      else inr (
        record {
          organizations = st.organizations ++ new_organization c ∷ [];
          users = st.users ++ new_owner now c ∷ [];
          memberships = rows;
          sessions = st.sessions ++ owner_session now c ∷ [];
          bootstrap_state = none;
        },
        new_owner now c,
        owner_session now c,
      )

  -- The inserts, for a token that matches.
  unfoldable pub install : Tables → BootstrapError ⊎ (Tables × User × Session)
  unfolding seal org_taken taken violates
  install st =
      if org_taken (new_organization c) st.organizations
      then inl storage_failed
      else if taken lower (new_owner now c) st.users
      then inl user_email_exists
      else seal st (
          insert_row StoreError.storage_failed c.organization_id (owner_membership membership_id c)
            st.memberships)

  unfoldable pub consume_row :
      Tables → Option BootstrapState → BootstrapError ⊎ (Tables × User × Session)
  unfolding install
  consume_row st none = inl bootstrap_already_done
  consume_row st (some row) =
      if not (row.token_hash == c.token_hash) then inl bootstrap_token_mismatch else install st

  -- `ConsumeBootstrapState`, with the user and the session that it returns.
  unfoldable pub consume_bootstrap_state : Tables → BootstrapError ⊎ (Tables × User × Session)
  unfolding consume_row
  consume_bootstrap_state st =
      if lacks_inputs c then inl fields_missing else consume_row st st.bootstrap_state
