-- ===== src/Accounts.antt =====
-- The connected cloud accounts: the table `accounts` (migrations 001 and 019, with the billing
-- columns) and its operations in services/shared/storage/postgres/postgres.go, and the choice of
-- the accounts to scan in services/ingestion/cmd/main.go. The table is the list of its rows; a NULL
-- text is "". An operation gives the new rows, or `none` for an error, which leaves them as they
-- are. Times are in nanoseconds. Failures of the database itself are left out.
pub mod Settable
use axiaops.Common.{
  ltb, if◌then◌else◌, is_some, ◌==◌, string_eq, nat_eq, ℕ, ◌+◌, ◌*◌, ◌^◌, String, Bool, true, not,
  ◌&&◌, ◌||◌, Option, none, some, List, [], ◌∷◌, ◌++◌, arith,
}
use axiaops.Common.Int.{ℤ, pos, negsuc}

pub record Account : Type 0 where
  pub id : String
  pub organization_id : String
  pub provider : String
  pub label : String
  pub account_id : String
  pub auth_method : String
  pub access_key_id : String
  pub secret_encrypted : String
  pub role_arn : String
  pub external_id : String
  pub region : String
  pub status : String
  pub last_scanned_at : Option ℕ
  pub scan_interval_hours : ℤ
  pub error_message : String
  pub created_at : ℕ
  pub billing_source : String
  pub cur_database : Option String
  pub cur_table : Option String
  pub cur_workgroup : Option String
  pub cur_results_s3 : Option String
  pub cur_region : Option String

abbrev pub Rows : Type 0
Rows = List Account

-- The `CHECK` constraints of a row.
unfoldable pub row_ok : Account → Bool
row_ok a =
    if a.auth_method == "access_key"
    then not (a.access_key_id == "") && not (a.secret_encrypted == "")
    else (a.auth_method == "role" && a.provider == "aws")
      && (not (a.external_id == "") && (not (a.role_arn == "") || a.status == "pending_role_setup"))

-- `WHERE id = $1`, on the rows that the organization sees.
abbrev pub is_at : String → String → Account → Bool
is_at org id a = a.id == id && a.organization_id == org

unfoldable pub find : (Account → Bool) → Rows → Option Account
find p [] = none
find p (a ∷ rows) = if p a then some a else find p rows

-- `UPDATE accounts SET … WHERE …`
unfoldable pub change : (Account → Bool) → (Account → Account) → Rows → Rows
change p f [] = []
change p f (a ∷ rows) = let rest = change p f rows in if p a then f a ∷ rest else a ∷ rest

-- The rows that an update writes keep the constraints.
unfoldable pub writes_ok : (Account → Bool) → (Account → Account) → Rows → Bool
unfolding row_ok
writes_ok p f [] = true
writes_ok p f (a ∷ rows) = (not (p a) || row_ok (f a)) && writes_ok p f rows

-- An `UPDATE`, for an organization that the context names.
unfoldable pub update : String → (Account → Bool) → (Account → Account) → Rows → Option Rows
unfolding change writes_ok
update org p f rows =
    if org == "" then none else if writes_ok p f rows then some (change p f rows) else none

-- The row that `SaveAccount` inserts.
abbrev pub inserted : Account → Account
inserted a = record a {
  auth_method = if a.auth_method == "" then "access_key" else a.auth_method;
  last_scanned_at = none;
}

-- The columns that `ON CONFLICT (id) DO UPDATE` writes.
abbrev pub merged : Account → Account → Account
merged a old = record (inserted a) {
  organization_id = old.organization_id;
  provider = old.provider;
  last_scanned_at = old.last_scanned_at;
  created_at = old.created_at;
}

abbrev pub save_over : String → Account → Rows → Option Account → Option Rows
unfolding update row_ok
save_over org a rows none = if row_ok (inserted a) then some (rows ++ inserted a ∷ []) else none
save_over org a rows (some old) =
    if old.organization_id == org then update org (is_at org a.id) (merged a) rows else none

-- `SaveAccount`; row-level security refuses a row of another organization.
unfoldable pub save_account : String → Account → Rows → Option Rows
unfolding save_over find
save_account org a rows =
    if org == "" || not (a.organization_id == org)
    then none
    else save_over org a rows (find (λ r. r.id == a.id) rows)

-- `GetAccount`; `none` is an error.
unfoldable pub get_account : String → String → Rows → Option Account
unfolding find
get_account org id rows = if org == "" then none else find (is_at org id) rows

-- `DeleteAccount`
unfoldable pub delete_account : String → String → Rows → Option Rows
delete_account org id rows = if org == "" then none else some (remaining rows)
  where
    remaining : Rows → Rows
    remaining [] = []
    remaining (a ∷ rest) = let kept = remaining rest in if is_at org id a then kept else a ∷ kept

-- `SetAccountError`
unfoldable pub set_account_error : ℕ → String → String → String → Rows → Option Rows
unfolding update
set_account_error now org id message rows =
    update org (is_at org id)
      (λ a. record a { status = "error"; error_message = message; last_scanned_at = some now }) rows

abbrev pub with_status : ℕ → String → Account → Account
with_status now status a = record a {
  status = status;
  error_message = if status == "error" then a.error_message else "";
  last_scanned_at = some now;
}

-- `UpdateAccountStatus`
unfoldable pub update_account_status : ℕ → String → String → String → Rows → Option Rows
unfolding update
update_account_status now org id status rows =
    update org (is_at org id) (with_status now status) rows

abbrev pub marked : ℕ → Account → Account
marked now a = record a { status = "scanning"; last_scanned_at = some now }

abbrev pub is_idle_at : String → String → Account → Bool
is_idle_at org id a = is_at org id a && not (a.status == "scanning")

abbrev with_found : Bool → Option Rows → Option (Rows × Bool)
with_found found none = none
with_found found (some rows) = some (rows, found)

-- `TryMarkAccountScanning`: the rows, and whether one was marked.
unfoldable pub try_mark_account_scanning : ℕ → String → String → Rows → Option (Rows × Bool)
unfolding update find
try_mark_account_scanning now org id rows =
    with_found (is_some (find (is_idle_at org id) rows))
      (update org (is_idle_at org id) (marked now) rows)

-- `isAccountOverdue`
unfoldable pub is_account_overdue : Account → ℕ → Bool
is_account_overdue a now = elim a.last_scanned_at [
  | none ↦ if a.status == "pending_cur_delivery" then after a.created_at else true
  | some at ↦ after at
]
  where
    hour : ℕ
    hour = 3600 * 10 ^ 9

    after : ℕ → Bool
    after at = elim a.scan_interval_hours [
      | pos n ↦ ltb (at + n * hour) now
      | negsuc n ↦ ltb at (now + (n + 1) * hour)
    ]
