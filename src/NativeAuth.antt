-- ===== src/NativeAuth.antt =====
-- Users with a password and the tokens that reset it, services/shared/storage/postgres/
-- native_auth.go, over the tables `users` and `password_resets` (migration 021). A table is the list
-- of its rows, each operation one transaction. The unique constraints are those of the migrations;
-- foreign keys and failures of the database itself are left out. `lower` of a text is a parameter.
pub mod Resets
pub mod Refined
pub mod Simulated
pub mod Invitations
pub mod Bootstrap
mod Tests
use axiaops.Common.{
  leb, if◌then◌else◌, is_some, ◌==◌, string_eq, nat_eq, ℕ, ◌+◌, ◌<◌, String, ◌<>◌, ◌⊎◌, inl, inr,
  Bool, false, not, ◌&&◌, ◌||◌, Option, none, some, List, [], ◌∷◌, ◌++◌, arith,
}

-- The columns of a user that the operations read and write.
pub record User : Type 0 where
  pub id : String
  pub organization_id : String
  pub external_id : String
  pub email : String
  pub name : String
  pub password_hash : String
  pub password_set_at : Option ℕ

pub record Reset : Type 0 where
  pub id : String
  pub user_id : String
  pub organization_id : String
  pub token_hash : String
  pub issued_by_user_id : String
  pub expires_at : ℕ
  pub redeemed_at : Option ℕ

pub record Store : Type 0 where
  pub users : List User
  pub resets : List Reset

pub data AuthError : Type 0 where
  fields_missing user_not_found user_email_exists : AuthError
  password_reset_not_found password_reset_expired storage_failed : AuthError

abbrev pub clash : (String → String) → User → User → Bool
clash lower u v =
    v.id == u.id
    || (v.external_id == u.external_id
        || (lower v.email == lower u.email && not (lower u.email == "")))

unfoldable pub taken : (String → String) → User → List User → Bool
taken lower u [] = false
taken lower u (v ∷ users) = clash lower u v || taken lower u users

-- `CreateUserWithPassword`; `new_id` is the generated identifier.
unfoldable pub create_user_with_password :
    (String → String) → ℕ → String → User → Store → AuthError ⊎ (Store × User)
unfolding taken
create_user_with_password lower now new_id u st =
    let id = if u.id == "" then new_id else u.id in
    let row : User = record u {
      id = id;
      external_id = "native:" <> id;
      password_set_at = some now;
    } in
    if u.organization_id == "" || (u.email == "" || u.password_hash == "")
    then inl fields_missing
    else if taken lower row st.users
    then inl user_email_exists
    else inr (record st { users = st.users ++ row ∷ [] }, row)

unfoldable pub has_user : String → List User → Bool
has_user id [] = false
has_user id (u ∷ users) = u.id == id || has_user id users

-- `UPDATE users SET password_hash = …, password_set_at = NOW() WHERE id = …`
unfoldable pub set_password : ℕ → String → String → List User → List User
set_password now id hash [] = []
set_password now id hash (u ∷ users) =
    let rest = set_password now id hash users in
    if u.id == id
    then record u { password_hash = hash; password_set_at = some now } ∷ rest
    else u ∷ rest

-- `UpdateUserPassword`
unfoldable pub update_user_password : ℕ → String → String → Store → AuthError ⊎ Store
unfolding has_user set_password
update_user_password now user_id hash st =
    if user_id == "" || hash == ""
    then inl fields_missing
    else if has_user user_id st.users
    then inr (record st { users = set_password now user_id hash st.users })
    else inl user_not_found

unfoldable pub find_reset : String → List Reset → Option Reset
find_reset token_hash [] = none
find_reset token_hash (r ∷ resets) =
    if r.token_hash == token_hash then some r else find_reset token_hash resets

unfoldable pub reset_taken : String → String → List Reset → Bool
reset_taken id token_hash [] = false
reset_taken id token_hash (r ∷ resets) =
    r.id == id || (r.token_hash == token_hash || reset_taken id token_hash resets)

-- `CreatePasswordReset`; the zero time of expiry is 0.
unfoldable pub create_password_reset :
    String → String → String → String → String → ℕ → Store → AuthError ⊎ Store
unfolding reset_taken
create_password_reset id user_id organization_id token_hash issued_by_user_id expires_at st =
    if id == "" || (user_id == "" || (organization_id == "" || token_hash == ""))
    then inl fields_missing
    else if expires_at == 0
    then inl fields_missing
    else if reset_taken id token_hash st.resets
    then inl storage_failed
    else inr (record st {
      resets =
          st.resets
          ++ record {
            id = id;
            user_id = user_id;
            organization_id = organization_id;
            token_hash = token_hash;
            issued_by_user_id = issued_by_user_id;
            expires_at = expires_at;
            redeemed_at = none;
          }
            ∷ [];
    })

-- `UPDATE password_resets SET redeemed_at = NOW() WHERE id = …`
unfoldable pub mark_redeemed : ℕ → String → List Reset → List Reset
mark_redeemed now id [] = []
mark_redeemed now id (r ∷ resets) =
    let rest = mark_redeemed now id resets in
    if r.id == id then record r { redeemed_at = some now } ∷ rest else r ∷ rest

-- What `RedeemPasswordReset` does with the row that it has locked.
unfoldable pub redeem_found :
    ℕ → String → Store → Option Reset → AuthError ⊎ (Store × String × String)
unfolding set_password mark_redeemed
redeem_found now hash st none = inl password_reset_not_found
redeem_found now hash st (some r) =
    if is_some r.redeemed_at
    then inl password_reset_not_found
    else if leb r.expires_at now
    then inl password_reset_expired
    else inr (
      record {
        users = set_password now r.user_id hash st.users;
        resets = mark_redeemed now r.id st.resets;
      },
      r.user_id,
      r.organization_id,
    )

-- `RedeemPasswordReset`, with the user and the organization that it returns.
unfoldable pub redeem_password_reset :
    ℕ → String → String → Store → AuthError ⊎ (Store × String × String)
unfolding find_reset redeem_found
redeem_password_reset now token_hash hash st =
    if token_hash == "" || hash == ""
    then inl fields_missing
    else redeem_found now hash st (find_reset token_hash st.resets)
