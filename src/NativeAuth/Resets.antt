-- ===== src/NativeAuth/Resets.antt =====
-- What the reset tokens promise: each is issued once, and spent once.
use axiaops.Common.{
  leb, if◌then◌else◌, is_some, ◌==◌, string_eq, nat_eq, ℕ, String, ◌⊎◌, inl, inr, Bool, true, false,
  not, ◌&&◌, ◌||◌, Option, none, some, List, [], ◌∷◌,
}
use axiaops.NativeAuth.{
  User, Reset, Store, AuthError, fields_missing, password_reset_not_found, password_reset_expired,
  storage_failed, find_reset, reset_taken, create_password_reset, redeem_password_reset,
}

-- The calls on the tokens, and a look at a user's password.
pub data Op : Type 0 where
  create : String → String → String → String → String → ℕ → Op
  redeem : ℕ → String → String → Op
  look : String → Op

pub data Result : Type 0 where
  done : Result
  failed : AuthError → Result
  redeemed : String → String → Result
  password : Option String → Result

pub data TokenState : Type 0 where
  unissued : TokenState
  issued : String → String → ℕ → TokenState
  spent : TokenState

-- The promise: the state of every token, the identifiers in use, and the users' passwords.
pub record Spec : Type 0 where
  pub token : String → TokenState
  pub used : String → Bool
  pub password_of : String → Option String

abbrev pub set_at {ℓ} : {A : Type ℓ} → String → A → (String → A) → String → A
set_at key value f k = if k == key then value else f k

abbrev pub is_unissued : TokenState → Bool
is_unissued unissued = true
is_unissued other = false

abbrev pub replaced : String → Option String → Option String
replaced new none = none
replaced new (some old) = some new

abbrev pub spend : ℕ → String → String → Spec → TokenState → Spec × Result
spend now token_hash hash sp unissued = (sp, failed password_reset_not_found)
spend now token_hash hash sp spent = (sp, failed password_reset_not_found)
spend now token_hash hash sp (issued user_id organization_id expires_at) =
    if leb expires_at now then (sp, failed password_reset_expired) else (
      record sp {
        token = set_at token_hash spent sp.token;
        password_of =
            λ u. if u == user_id then replaced hash (sp.password_of u) else sp.password_of u;
      },
      redeemed user_id organization_id,
    )

-- A call, as promised.
unfoldable pub spec_step : Op → Spec → Spec × Result
spec_step (create id user_id organization_id token_hash issued_by expires_at) sp =
    if (id == "" || (user_id == "" || (organization_id == "" || token_hash == "")))
      || expires_at == 0
    then (sp, failed fields_missing)
    else if sp.used id || not (is_unissued (sp.token token_hash))
    then (sp, failed storage_failed)
    else (
      record sp {
        token = set_at token_hash (issued user_id organization_id expires_at) sp.token;
        used = set_at id true sp.used;
      },
      done,
    )
spec_step (redeem now token_hash hash) sp =
    if token_hash == "" || hash == ""
    then (sp, failed fields_missing)
    else spend now token_hash hash sp (sp.token token_hash)
spec_step (look user_id) sp = (sp, password (sp.password_of user_id))

unfoldable pub spec_results : List Op → Spec → List Result
unfolding spec_step
spec_results [] sp = []
spec_results (op ∷ ops) sp = let (sp', r) = spec_step op sp in r ∷ spec_results ops sp'

-- The password of the user that a read by the identifier gives.
unfoldable pub stored_password : String → List User → Option String
stored_password id [] = none
stored_password id (u ∷ users) =
    if u.id == id then some u.password_hash else stored_password id users

abbrev pub created : Store → AuthError ⊎ Store → Store × Result
created st (inl err) = (st, failed err)
created st (inr st') = (st', done)

abbrev pub redeemed_or : Store → AuthError ⊎ (Store × String × String) → Store × Result
redeemed_or st (inl err) = (st, failed err)
redeemed_or st (inr (st', user_id, organization_id)) = (st', redeemed user_id organization_id)

-- A call on the tables; an error leaves them.
unfoldable pub step : Op → Store → Store × Result
unfolding create_password_reset redeem_password_reset stored_password
step (create id user_id organization_id token_hash issued_by expires_at) st =
    created st (create_password_reset id user_id organization_id token_hash issued_by expires_at st)
step (redeem now token_hash hash) st = redeemed_or st (redeem_password_reset now token_hash hash st)
step (look user_id) st = (st, password (stored_password user_id st.users))

unfoldable pub results : List Op → Store → List Result
unfolding step
results [] st = []
results (op ∷ ops) st = let (st', r) = step op st in r ∷ results ops st'

abbrev pub state_of : Option Reset → TokenState
state_of none = unissued
state_of (some r) =
    if is_some r.redeemed_at then spent else issued r.user_id r.organization_id r.expires_at

unfoldable pub has_id : String → List Reset → Bool
has_id id [] = false
has_id id (r ∷ resets) = r.id == id || has_id id resets

-- The unique constraints of the table.
unfoldable pub distinct : List Reset → Bool
unfolding reset_taken
distinct [] = true
distinct (r ∷ resets) = not (reset_taken r.id r.token_hash resets) && distinct resets

-- What the tables promise.
unfoldable pub spec_of : Store → Spec
unfolding find_reset has_id stored_password
spec_of st = record {
  token = λ h. state_of (find_reset h st.resets);
  used = λ i. has_id i st.resets;
  password_of = λ u. stored_password u st.users;
}
