-- ===== src/Worker/Jobs/Authentic.antt =====
-- A job that nobody with a secret sealed leaves no trace.
use axiaops.Common.{
  if◌then◌else◌, Bool-cases, Option-cases, is_some, ◌==◌, string_eq, nat_eq, ℕ, String, ◌≡◌, refl,
  sym, ap, ◌∙◌, inl, inr, Bool, true, false, not, ◌&&◌, ◌||◌, ◌<◌, Option, none, some, List, [],
  ◌∷◌, arith,
}
use axiaops.Common.Int.{ℤ}
use axiaops.HttpAuth.{
  max_duration, Wire, VerifyError, canonical_envelope, verify_parsed, check_mac, try_secrets, tried,
}
use axiaops.HttpAuth.Skew.{in_window, far_ahead, is_skewed-in_window}
use axiaops.Queue.{ScanJob, verify_job, named, verdict, verify_slots, verify_envelope_multi_secret}
use axiaops.Worker.{Worker, WorkerState, Round}
use axiaops.Worker.Jobs.{Dequeued, dequeue_failed, dequeued, accepts, take_job, round, rounds}

abbrev pub mac_of : Wire → (ScanJob → String) → String → ScanJob → String
mac_of w marshal secret job =
    w.hmac secret (canonical_envelope w job.timestamp (marshal (record job { signature = "" })))

abbrev pub carries : String → Option String → Bool
carries expected none = false
carries expected (some mac) = expected == mac

-- The job's signature is the MAC of its other fields under a secret, and its time is in the window,
-- or ahead by 2 ^ 63 nanoseconds or more.
unfoldable pub sealed : Worker → ℕ → ScanJob → String → Bool
sealed wk now job secret =
    not (job.signature == "")
    && ((in_window wk.max_skew now job.timestamp || far_ahead now job.timestamp)
        && carries (mac_of wk.wire wk.marshal secret job) (wk.wire.decode job.signature))

unfoldable pub sealed_by_some : Worker → ℕ → ScanJob → List String → Bool
unfolding sealed
sealed_by_some wk now job [] = false
sealed_by_some wk now job (s ∷ secrets) = sealed wk now job s || sealed_by_some wk now job secrets

-- The rounds without the jobs that no secret in use has sealed.
unfoldable pub authentic : Worker → List Dequeued → List Dequeued
unfolding sealed_by_some
authentic wk [] = []
authentic wk (dequeue_failed ∷ ds) = dequeue_failed ∷ authentic wk ds
authentic wk (dequeued t job ∷ ds) =
    let rest = authentic wk ds in
    if sealed_by_some wk t.verified_at job (named wk.secrets) then dequeued t job ∷ rest else rest

-- The answer of the last two checks.
checked :
    (timely same : Bool)
    → is_some (
        if not timely
        then some VerifyError.timestamp_skew
        else if not same
        then some VerifyError.signature_mismatch
        else none)
      ≡ not (timely && same)
checked true true = refl
checked true false = refl
checked false same = refl

verify_parsed-carries :
    (w : Wire) (max_skew now : ℕ) (expected : ℤ → String) (ts : ℤ) (provided : Option String)
    → max_skew < max_duration
    → is_some (verify_parsed w max_skew now expected (some ts) provided)
      ≡ not ((in_window max_skew now ts || far_ahead now ts) && carries (expected ts) provided)
unfolding verify_parsed check_mac
verify_parsed-carries w max_skew now expected ts none h = ground arith
verify_parsed-carries w max_skew now expected ts (some mac) h =
    rw (is_skewed-in_window max_skew now ts h)
      (checked (in_window max_skew now ts || far_ahead now ts) (expected ts == mac))

unsigned :
    (wk : Worker) (now : ℕ) (job : ScanJob) (secret : String)
    → (job.signature == "") ≡ true
    → sealed wk now job secret ≡ false
unfolding sealed
unsigned wk now job secret e = rw e refl

signed :
    (wk : Worker) (now : ℕ) (job : ScanJob) (secret : String)
    → (job.signature == "") ≡ false
    → sealed wk now job secret ≡ (
        (in_window wk.max_skew now job.timestamp || far_ahead now job.timestamp)
        && carries (mac_of wk.wire wk.marshal secret job) (wk.wire.decode job.signature))
unfolding sealed
signed wk now job secret e = rw e refl

verify_job-sealed :
    (wk : Worker) (now : ℕ) (job : ScanJob) (secret : String)
    → wk.max_skew < max_duration
    → (secret == "") ≡ false
    → is_some (verify_job wk.wire wk.marshal secret wk.max_skew now job)
      ≡ not (sealed wk now job secret)
unfolding verify_job
verify_job-sealed wk now job secret h n = elim (Bool-cases (job.signature == "")) [
  | inl e ↦ rw (n, e) (ap not (sym (unsigned wk now job secret e)))
  | inr e ↦
      rw (n, e)
        (verify_parsed-carries wk.wire wk.max_skew now
            (λ t.
              wk.wire.hmac secret
                (canonical_envelope wk.wire t (wk.marshal (record job { signature = "" }))))
            job.timestamp (wk.wire.decode job.signature) h
          ∙ ap not (sym (signed wk now job secret e)))
]

abbrev passes_any : (String → Option VerifyError) → List String → Bool
passes_any check [] = false
passes_any check (s ∷ secrets) = not (is_some (check s)) || passes_any check secrets

abbrev is_nil : List String → Bool
is_nil [] = true
is_nil (s ∷ secrets) = false

verdict-try_secrets :
    (check : String → Option VerifyError) (secrets : List String)
    (found : Bool × Option VerifyError)
    → is_some (verdict (try_secrets check secrets found))
      ≡ (not (found.0 || passes_any check secrets) && (is_some found.1 || not (is_nil secrets)))
unfolding try_secrets
verdict-try_secrets check [] (m, l) = ground arith
verdict-try_secrets check (s ∷ secrets) (m, l) = elim (Option-cases (check s)) [
  | inl e ↦
      (let ih = verdict-try_secrets check secrets (tried (check s) (m, l)) in
        ih ∙ rw e (ground arith))
  | inr (err, e) ↦
      (let ih = verdict-try_secrets check secrets (tried (check s) (m, l)) in
        ih ∙ rw e (ground arith))
]

passes_any-sealed :
    (wk : Worker) (now : ℕ) (job : ScanJob) (secrets : List String)
    → wk.max_skew < max_duration
    → passes_any (λ s. verify_job wk.wire wk.marshal s wk.max_skew now job) (named secrets)
      ≡ sealed_by_some wk now job (named secrets)
unfolding sealed_by_some
passes_any-sealed wk now job [] h = refl
passes_any-sealed wk now job (s ∷ secrets) h = elim (Bool-cases (s == "")) [
  | inl e ↦ rw e (passes_any-sealed wk now job secrets h)
  | inr e ↦ rw e (
      let v = verify_job-sealed wk now job s h e in
      let ih = passes_any-sealed wk now job secrets h in ground (arith, v, ih))
]

multi-slots :
    (wk : Worker) (now : ℕ) (job : ScanJob) (secrets : List String)
    → is_nil (named secrets) ≡ false
    → verify_envelope_multi_secret wk.wire wk.marshal secrets wk.max_skew now job
      ≡ verdict (
          try_secrets
            (λ s. verify_job wk.wire wk.marshal s wk.max_skew now job)
            (named secrets)
            (false, none))
unfolding verify_envelope_multi_secret verify_slots
multi-slots wk now job [] h = cc
multi-slots wk now job (s ∷ secrets) h = refl

-- With a secret in use and enforcement that is not soft, a job is accepted exactly if some secret in
-- use has sealed it.
accepts-sealed :
    (wk : Worker) (t : Round) (job : ScanJob)
    → wk.max_skew < max_duration
    → wk.soft_enforce ≡ false
    → is_nil (named wk.secrets) ≡ false
    → accepts wk t job ≡ sealed_by_some wk t.verified_at job (named wk.secrets)
unfolding accepts
accepts-sealed wk t job h soft some_named =
    let check : String → Option VerifyError =
      λ s. verify_job wk.wire wk.marshal s wk.max_skew t.verified_at job in
    let v = verdict-try_secrets check (named wk.secrets) (false, none) in
    let a = passes_any-sealed wk t.verified_at job wk.secrets h in
    let m = multi-slots wk t.verified_at job wk.secrets some_named in ground (arith, m, v, a)

dropped :
    (wk : Worker) (t : Round) (job : ScanJob) (st : WorkerState)
    → accepts wk t job ≡ false
    → take_job wk t job st ≡ st
unfolding take_job
dropped wk t job st e = rw e refl

-- With a window below the greatest duration, a secret in use and enforcement that is not soft, the
-- worker's breaker and the accounts are,
-- after any rounds, what they are after the same rounds without the jobs that no secret in use has
-- sealed: such a job leaves no trace. A secret has sealed a job if the job's signature is the MAC of
-- its other fields under the secret, and its timestamp is one that Go has a time for and either
-- within the window of the clock on either side or 2 ^ 63 nanoseconds or more ahead of it.
pub rounds-authentic :
    (wk : Worker) (ds : List Dequeued) (st : WorkerState)
    → wk.max_skew < max_duration
    → wk.soft_enforce ≡ false
    → is_nil (named wk.secrets) ≡ false
    → rounds wk ds st ≡ rounds wk (authentic wk ds) st
unfolding rounds authentic round
rounds-authentic wk [] st w soft h = refl
rounds-authentic wk (dequeue_failed ∷ ds) st w soft h = rounds-authentic wk ds st w soft h
rounds-authentic wk (dequeued t job ∷ ds) st w soft h =
    let a = accepts-sealed wk t job w soft h in
    elim (Bool-cases (sealed_by_some wk t.verified_at job (named wk.secrets))) [
      | inl e ↦ rw e (rounds-authentic wk ds (take_job wk t job st) w soft h)
      | inr e ↦
          rw e
            (ap (rounds wk ds) (dropped wk t job st (a ∙ e)) ∙ rounds-authentic wk ds st w soft h)
    ]
