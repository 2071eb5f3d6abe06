-- ===== src/Worker.antt =====
-- The scan worker, services/ingestion/cmd/worker.go, and the scan that it runs, `runScan` and
-- `finalizeAccountStatus` of services/ingestion/cmd/main.go. The worker's state is its breaker and
-- the table of accounts; one round of its loop takes a job. What the scan asks of AWS and does with
-- the answer (`NewForAccount`, `runIngestionCore`) is a parameter, which leaves the table of
-- accounts as it is; so are the texts of the errors, and whether the scan's context has run out.
pub mod Jobs
mod Tests
use axiaops.Common.{
  str_lt, compare-flip, str_lt_trans, str_lt_asym, str_lt_irrefl, str_lt_total, ltb, leb,
  if◌then◌else◌, Bool-cases, Option-cases, is_some, or_else, length, take, count_if, All,
  length-append, In, In-append_left, In-append_right, Eq, ◌==◌, contains, string_eq, nat_eq,
  str_contains, has_prefix, ℕ, zero, suc, ◌+◌, ◌-◌, ◌*◌, ◌/◌, ◌%◌, ◌^◌, ◌≤◌, ◌<◌, String, ◌<>◌, ◌≡◌,
  refl, sym, ap, ◌∙◌, ◌≢◌, ◌↔◌, ◌⊎◌, inl, inr, Bool, true, false, not, ◌&&◌, ◌||◌, Option, none,
  some, List, [], ◌∷◌, ◌++◌, map, arith,
}
use axiaops.Breaker.{CircuitBreaker, State, open_state, Clock, Outcome, rejected, ran, execute}
use axiaops.ScanError.{GoError}
use axiaops.HttpAuth.{Wire, VerifyError}
use axiaops.Queue.{ScanJob, verify_envelope_multi_secret}
use axiaops.Accounts.{
  Account, Rows, get_account, save_account, update_account_status, try_mark_account_scanning,
}

-- What a scan asks of AWS: the number of the account, if a client can be made; and the outcome of
-- `runIngestionCore`, an error or whether cost data was found.
pub record Aws : Type 0 where
  pub number_of : Account → Option String
  pub core : Option Account → GoError ⊎ Bool
  pub get_error : GoError
  pub save_error : GoError
  pub id_required : GoError

abbrev pub rows_or : Rows → Option Rows → Rows
rows_or rows none = rows
rows_or rows (some rows') = rows'

abbrev pub final_status : Account → Bool → String
final_status a got_cost_data =
    if a.status == "pending_cur_delivery" && not got_cost_data
    then "pending_cur_delivery"
    else "connected"

-- `finalizeAccountStatus`; an error is only logged.
unfoldable pub finalize_account_status : ℕ → String → Account → Bool → Rows → Rows
unfolding update_account_status
finalize_account_status now org a got_cost_data rows =
    rows_or rows (update_account_status now org a.id (final_status a got_cost_data) rows)

module _ (aws : Aws) (dev_mode : Bool) (now : ℕ) (org : String) where
  -- `runScan` from `runIngestionCore` on, for an account.
  unfoldable pub after_core : Account → Rows → GoError ⊎ Bool → Rows × Option GoError
  unfolding finalize_account_status
  after_core a rows (inl err) = (rows, some err)
  after_core a rows (inr got_cost_data) =
      (finalize_account_status now org a got_cost_data rows, none)

  unfoldable pub scan_saved : Account → Rows → Option Rows → Rows × Option GoError
  unfolding after_core
  scan_saved a rows none = (rows, some aws.save_error)
  scan_saved a rows (some rows') = after_core a rows' (aws.core (some a))

  -- `runScan` after the read of the account: the missing number is asked for and saved.
  unfoldable pub scan_numbered : Account → Rows → Option String → Rows × Option GoError
  unfolding after_core scan_saved save_account
  scan_numbered a rows none = after_core a rows (aws.core (some a))
  scan_numbered a rows (some number) =
      let a' : Account = record a { account_id = number } in
      scan_saved a' rows (save_account org a' rows)

  unfoldable pub scan_account : Rows → Option Account → Rows × Option GoError
  unfolding after_core scan_numbered
  scan_account rows none = (rows, some aws.get_error)
  scan_account rows (some a) =
      if a.account_id == ""
      then scan_numbered a rows (aws.number_of a)
      else after_core a rows (aws.core (some a))

  unfoldable pub scan_none : Rows → GoError ⊎ Bool → Rows × Option GoError
  scan_none rows (inl err) = (rows, some err)
  scan_none rows (inr got_cost_data) = (rows, none)

  -- `runScan`
  unfoldable pub run_scan : String → Rows → Rows × Option GoError
  unfolding scan_account get_account
  run_scan id rows =
      if id == ""
      then (if dev_mode then scan_none rows (aws.core none) else (rows, some aws.id_required))
      else scan_account rows (get_account org id rows)

-- The clock reads of one round, in order, and whether the scan's context has run out at its end.
pub record Round : Type 0 where
  pub verified_at : ℕ
  pub marked_at : ℕ
  pub breaker : Clock
  pub scanned_at : ℕ
  pub failed_at : ℕ
  pub timed_out : Bool

pub record WorkerState : Type 0 where
  pub cb : CircuitBreaker
  pub accounts : Rows

-- What `startWorker` is given.
pub record Worker : Type 0 where
  pub wire : Wire
  pub marshal : ScanJob → String
  pub secrets : List String
  pub max_skew : ℕ
  pub soft_enforce : Bool
  pub aws : Aws
  pub dev_mode : Bool
