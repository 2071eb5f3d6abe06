-- ===== src/Worker/Jobs/Status.antt =====
-- The steps of a round of the worker, and what each makes of the status of an account.
use axiaops.Common.{
  if◌then◌else◌, Bool-cases, ◌==◌, string_eq, nat_eq, ℕ, String, ◌≡◌, refl, sym, ap, ◌∙◌, ◌⊎◌, inl,
  inr, Bool, true, false, Option, none, some, arith,
}
use axiaops.Accounts.{
  Account, Rows, is_at, is_idle_at, find, update, with_status, marked, get_account,
  update_account_status, try_mark_account_scanning,
}
use axiaops.Accounts.Settable.{
  settable, find-change, settable-with_status, settable-marked, find-holds,
}
use axiaops.Worker.{
  Aws, rows_or, final_status, after_core, scan_account, run_scan, Worker, CircuitBreaker, Outcome,
  GoError, Round, ScanJob, WorkerState, execute, finalize_account_status,
}
use axiaops.Worker.Jobs.{rows_marked, settle, failed_status, work}

-- The account as the mark leaves it.
abbrev pub scanning : ℕ → Account → Account
scanning now a = if a.status == "scanning" then a else marked now a

states :
    (◌==◌ {A = String} "connected" "pending_role_setup" ≡ false)
    × (◌==◌ {A = String} "scanning" "pending_cur_delivery" ≡ false)
    × (◌==◌ {A = String} "circuit_breaker_open" "pending_role_setup" ≡ false)
    × (◌==◌ {A = String} "scan_timeout" "pending_role_setup" ≡ false)
    × (◌==◌ {A = String} "error" "pending_role_setup" ≡ false)
    × (◌==◌ {A = String} "scanning" "scanning" ≡ true)
unfolding string_eq
states = (refl, refl, refl, refl, refl, refl)

-- An account of the organization whose row may be updated.
abbrev pub Updatable : String → String → Rows → Account → Type 0
Updatable org id rows a =
    (org == "" ≡ false) × (settable org id rows ≡ true) × (find (is_at org id) rows ≡ some a)

pub update-status :
    (now : ℕ) (org id status : String) (rows : Rows) (a : Account)
    → status == "pending_role_setup" ≡ false
    → Updatable org id rows a
    → find (is_at org id) (rows_or rows (update_account_status now org id status rows))
      ≡ some (with_status now status a)
unfolding update_account_status update
update-status now org id status rows a n (o, s, f) =
    let w = settable-with_status now org id status rows n s in
    let c =
      find-change org id (is_at org id) (with_status now status) rows a (λ r. refl) (λ r. refl) f in
    rw (o, w) (c ∙ rw (find-holds (is_at org id) rows a f) refl)

after_mark :
    (now : ℕ) (org id : String) (a : Account)
    → is_at org id a ≡ true
    → some (if is_idle_at org id a then marked now a else a) ≡ some (scanning now a)
after_mark now org id a h = elim (Bool-cases (a.status == "scanning")) [
  | inl e ↦ rw (h, e) refl
  | inr e ↦ rw (h, e) refl
]

pub mark-Updatable :
    (now : ℕ) (org id : String) (rows : Rows) (a : Account)
    → Updatable org id rows a
    → Updatable org id
        (rows_marked rows (try_mark_account_scanning now org id rows))
        (scanning now a)
unfolding try_mark_account_scanning update
mark-Updatable now org id rows a (o, s, f) =
    let (w, s') = settable-marked now org id rows s in
    let c = find-change org id (is_idle_at org id) (marked now) rows a (λ r. refl) (λ r. refl) f in
    rw (o, w) (refl, s', c ∙ after_mark now org id a (find-holds (is_at org id) rows a f))

scanning-status : (now : ℕ) (a : Account) → (scanning now a).status ≡ "scanning"
scanning-status now a = elim (Bool-cases (a.status == "scanning")) [
  | inl e ↦ rw e (ground arith)
  | inr e ↦ rw e refl
]

final_status-scanning :
    (a : Account) (got_cost_data : Bool)
    → a.status ≡ "scanning"
    → final_status a got_cost_data ≡ "connected"
final_status-scanning a got_cost_data e = ground (arith, states, e)

same_id : (a : Account) (org id : String) → is_at org id a ≡ true → a.id ≡ id
same_id a org id h = ground arith

finalize-scanning :
    (now : ℕ) (org id : String) (a : Account) (got_cost_data : Bool) (rows : Rows)
    → a.status ≡ "scanning"
    → a.id ≡ id
    → finalize_account_status now org a got_cost_data rows
      ≡ rows_or rows (update_account_status now org id "connected" rows)
unfolding finalize_account_status
finalize-scanning now org id a got_cost_data rows s i =
    ap (λ j. rows_or rows (update_account_status now org j (final_status a got_cost_data) rows)) i
    ∙ ap (λ v. rows_or rows (update_account_status now org id v rows))
        (final_status-scanning a got_cost_data s)

module _ (aws : Aws) (dev_mode : Bool) (now : ℕ) (org id : String) (rows : Rows) (a : Account) where
  run_scan-core :
      id == "" ≡ false
      → org == "" ≡ false
      → a.account_id == "" ≡ false
      → find (is_at org id) rows ≡ some a
      → run_scan aws dev_mode now org id rows
        ≡ after_core aws dev_mode now org a rows (aws.core (some a))
  unfolding run_scan scan_account get_account
  run_scan-core n o k f = rw (n, o, f, k) refl

-- What the breaker's call leaves of a failed scan, or of one that did not run.
abbrev pub Fails : Outcome GoError → Type 0
Fails outcome =
    (outcome ≡ Outcome.rejected) ⊎ ((err : GoError) × (outcome ≡ Outcome.ran (some err)))

pub settle-done :
    (wk : Worker) (t : Round) (job : ScanJob) (x : CircuitBreaker × Rows × Outcome GoError)
    → x.2 ≡ Outcome.ran none
    → (settle wk t job x).accounts ≡ x.1
unfolding settle
settle-done wk t job (cb, rows, outcome) e = rw e refl

settle-failed :
    (wk : Worker) (t : Round) (job : ScanJob) (x : CircuitBreaker × Rows × Outcome GoError)
    → Fails x.2
    → ((settle wk t job x).cb ≡ x.0)
      × ((settle wk t job x).accounts
          ≡ rows_or x.1 (
              update_account_status t.failed_at job.organization_id job.account_id
                (failed_status x.0 t.timed_out)
                x.1))
unfolding settle
settle-failed wk t job (cb, rows, outcome) (inl e) = rw e (refl, refl)
settle-failed wk t job (cb, rows, outcome) (inr (err, e)) = rw e (refl, refl)

failed_differs :
    (cb : CircuitBreaker) (timed_out : Bool)
    → failed_status cb timed_out == "pending_role_setup" ≡ false
failed_differs cb timed_out = ground (arith, states)

module _ (wk : Worker) (t : Round) (job : ScanJob) (st : WorkerState) (a : Account)
    (u : Updatable job.organization_id job.account_id st.accounts a) where
  abbrev pub now_scanning : Account
  now_scanning = scanning t.marked_at a

  abbrev pub rows_scanning : Rows
  rows_scanning =
      rows_marked st.accounts
        (try_mark_account_scanning t.marked_at job.organization_id job.account_id st.accounts)

  abbrev pub scan : Rows → Rows × Option GoError
  scan rows = run_scan wk.aws wk.dev_mode t.scanned_at job.organization_id job.account_id rows

  abbrev pub called : CircuitBreaker × Rows × Outcome GoError
  called = execute t.breaker scan st.cb rows_scanning

  pub work-settle : work wk t job st ≡ settle wk t job called
  unfolding work
  work-settle = refl

  pub failed-status :
      called.1 ≡ rows_scanning
      → Fails called.2
      → find (is_at job.organization_id job.account_id) (work wk t job st).accounts
        ≡ some
            (with_status t.failed_at (failed_status (work wk t job st).cb t.timed_out) now_scanning)
  failed-status r f =
      let (cb, rows) = settle-failed wk t job called f in
      let up =
        update-status t.failed_at job.organization_id job.account_id
          (failed_status called.0 t.timed_out) rows_scanning now_scanning
          (failed_differs called.0 t.timed_out)
          (mark-Updatable t.marked_at job.organization_id job.account_id st.accounts a u) in
      ap (λ s. find (is_at job.organization_id job.account_id) s.accounts) work-settle
      ∙ ap (find (is_at job.organization_id job.account_id)) rows
      ∙ ap
          (λ rs. find (is_at job.organization_id job.account_id) (
            rows_or rs (
              update_account_status t.failed_at job.organization_id job.account_id
                (failed_status called.0 t.timed_out) rs)))
          r
      ∙ up
      ∙ sym (
          ap (λ b. some (with_status t.failed_at (failed_status b t.timed_out) now_scanning))
            (ap (λ s. s.cb) work-settle ∙ cb))

  pub failed-cb : Fails called.2 → (work wk t job st).cb ≡ called.0
  failed-cb f = ap (λ s. s.cb) work-settle ∙ (settle-failed wk t job called f).0

  module _ (named : job.account_id == "" ≡ false) (numbered : a.account_id == "" ≡ false) where
    numbered_still : now_scanning.account_id == "" ≡ false
    numbered_still = elim (Bool-cases (a.status == "scanning")) [
      | inl e ↦ rw e numbered
      | inr e ↦ rw e numbered
    ]

    scan-core :
        scan rows_scanning
        ≡ after_core wk.aws wk.dev_mode t.scanned_at job.organization_id now_scanning rows_scanning
            (wk.aws.core (some now_scanning))
    scan-core =
        let (o, s, f) =
          mark-Updatable t.marked_at job.organization_id job.account_id st.accounts a u in
        run_scan-core wk.aws wk.dev_mode t.scanned_at job.organization_id job.account_id
          rows_scanning now_scanning named o numbered_still f

    pub scan-found :
        (got_cost_data : Bool)
        → wk.aws.core (some now_scanning) ≡ inr got_cost_data
        → scan rows_scanning ≡ (
          rows_or rows_scanning (
              update_account_status t.scanned_at job.organization_id job.account_id "connected"
                rows_scanning),
          none,
        )
    unfolding after_core
    scan-found got_cost_data e =
        let (o, s, f) =
          mark-Updatable t.marked_at job.organization_id job.account_id st.accounts a u in
        let held =
          find-holds (is_at job.organization_id job.account_id) rows_scanning now_scanning f in
        scan-core
        ∙ rw e (
            ap (λ rs. (rs, none))
              (finalize-scanning t.scanned_at job.organization_id job.account_id now_scanning
                got_cost_data rows_scanning (scanning-status t.marked_at a)
                (same_id now_scanning job.organization_id job.account_id held)))

    pub scan-failed :
        (err : GoError)
        → wk.aws.core (some now_scanning) ≡ inl err
        → scan rows_scanning ≡ (rows_scanning, some err)
    unfolding after_core
    scan-failed err e = scan-core ∙ rw e refl
