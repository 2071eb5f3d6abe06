-- ===== src/Worker/Jobs.antt =====
-- The rounds of the worker's loop.
pub mod Authentic
pub mod Status
pub mod Ended
use axiaops.Common.{
  if◌then◌else◌, is_some, string_eq, nat_eq, String, Bool, true, false, not, ◌||◌, Option, none,
  some, List, [], ◌∷◌, arith,
}
use axiaops.Breaker.{CircuitBreaker, State, Outcome, execute}
use axiaops.ScanError.{GoError}
use axiaops.Queue.{ScanJob, verify_envelope_multi_secret}
use axiaops.Accounts.{Rows, update_account_status, try_mark_account_scanning}
use axiaops.Worker.{Worker, WorkerState, Round, rows_or, run_scan}

abbrev pub is_open : State → Bool
is_open State.open_state = true
is_open other = false

abbrev pub failed_status : CircuitBreaker → Bool → String
failed_status cb timed_out =
    if is_open cb.state
    then "circuit_breaker_open"
    else if timed_out
    then "scan_timeout"
    else "error"

-- The rows after `TryMarkAccountScanning`; an error is only logged.
abbrev pub rows_marked : Rows → Option (Rows × Bool) → Rows
rows_marked rows none = rows
rows_marked rows (some (rows', marked)) = rows'

module _ (wk : Worker) (t : Round) (job : ScanJob) where
  -- What follows the call of the breaker.
  unfoldable pub settle : CircuitBreaker × Rows × Outcome GoError → WorkerState
  unfolding update_account_status
  settle (cb, rows, Outcome.ran none) = record { cb = cb; accounts = rows }
  settle (cb, rows, failed) = record {
    cb = cb;
    accounts = rows_or rows (
        update_account_status t.failed_at job.organization_id job.account_id
          (failed_status cb t.timed_out) rows);
  }

  -- A round from the mark on, for a job that is not dropped.
  unfoldable pub work : WorkerState → WorkerState
  unfolding settle execute run_scan try_mark_account_scanning
  work st = settle (
      execute t.breaker
        (λ rows. run_scan wk.aws wk.dev_mode t.scanned_at job.organization_id job.account_id rows)
        st.cb
        (rows_marked st.accounts
          (try_mark_account_scanning t.marked_at job.organization_id job.account_id st.accounts)))

  unfoldable pub accepts : Bool
  unfolding verify_envelope_multi_secret
  accepts =
      wk.soft_enforce
      || not (
          is_some (
            verify_envelope_multi_secret wk.wire wk.marshal wk.secrets wk.max_skew t.verified_at
              job))

  -- A round with a job that was dequeued.
  unfoldable pub take_job : WorkerState → WorkerState
  unfolding accepts work
  take_job st = if accepts then work st else st

-- What `Dequeue` gives: an error, or a job.
pub data Dequeued : Type 0 where
  dequeue_failed : Dequeued
  dequeued : Round → ScanJob → Dequeued

abbrev pub round : Worker → Dequeued → WorkerState → WorkerState
unfolding take_job
round wk dequeue_failed st = st
round wk (dequeued t job) st = take_job wk t job st

-- The rounds up to the end of the worker's context.
unfoldable pub rounds : Worker → List Dequeued → WorkerState → WorkerState
unfolding round
rounds wk [] st = st
rounds wk (d ∷ ds) st = rounds wk ds (round wk d st)
