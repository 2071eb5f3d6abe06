-- ===== src/Worker/Jobs/Ended.antt =====
-- The status of an account after a round of the worker.
use axiaops.Common.{
  ◌==◌, string_eq, nat_eq, ◌+◌, ◌≤◌, ◌≡◌, refl, ap, ◌∙◌, ◌⊎◌, inl, inr, Bool, true, false, some,
}
use axiaops.Breaker.{CircuitBreaker, State, Clock, Outcome}
use axiaops.Breaker.Recovery.{Admits, execute_admitted, execute_refused}
use axiaops.ScanError.{GoError}
use axiaops.Queue.{ScanJob}
use axiaops.Accounts.{Account, is_at, find, with_status}
use axiaops.Worker.{Worker, WorkerState, Round}
use axiaops.Worker.Jobs.{failed_status, work}
use axiaops.Worker.Jobs.Status.{
  scanning, Updatable, update-status, mark-Updatable, settle-done, work-settle, failed-status,
  failed-cb, scan-found, scan-failed, rows_scanning, scan, called,
}

-- Whether the breaker lets the call of a round run: it admits it; or it is open, and its timeout
-- has not passed.
abbrev pub Decides : Clock → CircuitBreaker → Bool → Type 0
Decides t cb true = Admits t cb
Decides t cb false =
    (cb.state ≡ State.open_state) × (t.checked ≤ cb.last_fail_time + cb.config.reset_timeout)

-- The row after a round, by whether the scan ran and what it gave, on the breaker of then.
abbrev pub ended : Round → Bool → GoError ⊎ Bool → CircuitBreaker → Account → Account
ended t true (inr got_cost_data) cb a = with_status t.scanned_at "connected" a
ended t true (inl err) cb a = with_status t.failed_at (failed_status cb t.timed_out) a
ended t false result cb a = with_status t.failed_at "circuit_breaker_open" a

failed_open :
    (cb : CircuitBreaker) (timed_out : Bool)
    → cb.state ≡ State.open_state
    → failed_status cb timed_out ≡ "circuit_breaker_open"
failed_open cb timed_out e = rw e refl

module _ (wk : Worker) (t : Round) (job : ScanJob) (st : WorkerState) (a : Account)
    (u : Updatable job.organization_id job.account_id st.accounts a)
    (named : job.account_id == "" ≡ false) (numbered : a.account_id == "" ≡ false) where
  admitted-result :
      Admits t.breaker st.cb
      → (r : GoError ⊎ Bool) → wk.aws.core (some (scanning t.marked_at a)) ≡ r
      → find (is_at job.organization_id job.account_id) (work wk t job st).accounts
        ≡ some (ended t true r (work wk t job st).cb (scanning t.marked_at a))
  unfolding string_eq
  admitted-result d (inr got_cost_data) e =
      let rows = rows_scanning wk t job st a u in
      let call = called wk t job st a u in
      let (world, outcome) = execute_admitted t.breaker (scan wk t job st a u) st.cb rows d in
      let found = scan-found wk t job st a u named numbered got_cost_data e in
      let done = settle-done wk t job call (outcome ∙ ap (λ p. Outcome.ran p.1) found) in
      ap (λ s. find (is_at job.organization_id job.account_id) s.accounts)
        (work-settle wk t job st a u)
      ∙ ap (find (is_at job.organization_id job.account_id)) (done ∙ world ∙ ap (λ p. p.0) found)
      ∙ update-status t.scanned_at job.organization_id job.account_id "connected" rows
          (scanning t.marked_at a) refl
          (mark-Updatable t.marked_at job.organization_id job.account_id st.accounts a u)
  admitted-result d (inl err) e =
      let rows = rows_scanning wk t job st a u in
      let (world, outcome) = execute_admitted t.breaker (scan wk t job st a u) st.cb rows d in
      let failed = scan-failed wk t job st a u named numbered err e in
      failed-status wk t job st a u (world ∙ ap (λ p. p.0) failed)
        (inr (err, outcome ∙ ap (λ p. Outcome.ran p.1) failed))

  refused-result :
      st.cb.state ≡ State.open_state
      → t.breaker.checked ≤ st.cb.last_fail_time + st.cb.config.reset_timeout
      → find (is_at job.organization_id job.account_id) (work wk t job st).accounts
        ≡ some (with_status t.failed_at "circuit_breaker_open" (scanning t.marked_at a))
  refused-result o d =
      let e =
        execute_refused t.breaker (scan wk t job st a u) st.cb (rows_scanning wk t job st a u)
          (o, inl d) in
      let cb = failed-cb wk t job st a u (inl (ap (λ x. x.2) e)) ∙ ap (λ x. x.0) e in
      failed-status wk t job st a u (ap (λ x. x.1) e) (inl (ap (λ x. x.2) e))
      ∙ ap (λ v. some (with_status t.failed_at v (scanning t.marked_at a)))
          (failed_open (work wk t job st).cb t.timed_out (ap (λ b. b.state) cb ∙ o))

-- After a round with a job that is not dropped, for an account with a number whose row may be
-- updated: if the scan ran and gave no error the account is connected, whatever its status before
-- and whether cost data was found or not; if it gave an error, the breaker that is then open, or
-- else the time that ran out, or else the error is its status; and if the breaker refused the scan,
-- the open breaker is. But for the time of the scan and the message, the row is otherwise as the
-- mark of the round left it.
pub work-status :
    (wk : Worker) (t : Round) (job : ScanJob) (st : WorkerState) (a : Account) (admits : Bool)
    → Updatable job.organization_id job.account_id st.accounts a
    → job.account_id == "" ≡ false
    → a.account_id == "" ≡ false
    → Decides t.breaker st.cb admits
    → find (is_at job.organization_id job.account_id) (work wk t job st).accounts
      ≡ some (
          ended t admits
            (wk.aws.core (some (scanning t.marked_at a)))
            (work wk t job st).cb
            (scanning t.marked_at a))
work-status wk t job st a true u named numbered d =
    admitted-result wk t job st a u named numbered d (wk.aws.core (some (scanning t.marked_at a)))
      refl
work-status wk t job st a false u named numbered (o, d) =
    refused-result wk t job st a u named numbered o d
