-- ===== src/Breaker/Invariant.antt =====
-- What holds of a breaker between any two critical sections, whatever calls they belong to.
use axiaops.Common.{
  ℕ, ◌+◌, ◌≤◌, ◌<◌, ◌≡◌, refl, ◌≢◌, Option, none, some, List, [], ◌∷◌, ◌++◌, arith,
}
use axiaops.Breaker.{
  closed, open_state, half_open, Config, CircuitBreaker, new, to_half_open, record_result,
}

pub record IsValid (cb : CircuitBreaker) : Type 0 where
  pub closed_below : cb.state ≡ closed → cb.failures < cb.config.max_failures
  pub half_open_below : cb.state ≡ half_open → cb.successes < cb.config.success_threshold
  pub idle_successes : cb.state ≢ half_open → cb.successes ≡ 0

pub record IsPositive (c : Config) : Type 0 where
  pub failures_pos : 0 < c.max_failures
  pub successes_pos : 0 < c.success_threshold

-- A section that writes the breaker: the write-locked part of `canExecute`, or `recordResult`.
pub data Event : Type 0 where
  recheck : ℕ → Event
  result : ℕ → Option ℕ → Event

unfoldable pub step : CircuitBreaker → Event → CircuitBreaker
unfolding to_half_open record_result
step cb (recheck now) = to_half_open now cb
step cb (result now err) = record_result now err cb

unfoldable pub run : CircuitBreaker → List Event → CircuitBreaker
run cb [] = cb
run cb (e ∷ es) = run (step cb e) es

step-config : (cb : CircuitBreaker) (e : Event) → (step cb e).config ≡ cb.config
unfolding step to_half_open record_result
step-config cb (recheck now) = ground arith
step-config cb (result now none) = ground arith
step-config cb (result now (some err)) = ground arith

step-IsValid :
    (cb : CircuitBreaker) (e : Event) → IsPositive cb.config → IsValid cb → IsValid (step cb e)
unfolding step to_half_open record_result
step-IsValid cb (recheck now) p v = ground arith
step-IsValid cb (result now none) p v = ground arith
step-IsValid cb (result now (some err)) p v = ground arith

run_from-IsValid :
    (cb : CircuitBreaker) (es : List Event)
    → IsPositive cb.config
    → IsValid cb
    → IsValid (run cb es)
unfolding run
run_from-IsValid cb [] p v = v
run_from-IsValid cb (e ∷ es) p v =
    run_from-IsValid (step cb e) es (ground (arith, step-config cb e)) (step-IsValid cb e p v)

-- A new breaker whose two thresholds are positive keeps, after any interleaving of the sections of
-- any calls: closed only below the failure limit, half-open only below the success threshold, and
-- no success counted outside half-open.
pub run-IsValid : (c : Config) (es : List Event) → IsPositive c → IsValid (run (new c) es)
unfolding new
run-IsValid c es p = run_from-IsValid (new c) es p (ground arith)

-- The number of failures since the last success, over the recorded results.
pub streak : ℕ → List Event → ℕ
streak n [] = n
streak n (recheck now ∷ es) = streak n es
streak n (result now none ∷ es) = streak 0 es
streak n (result now (some err) ∷ es) = streak (n + 1) es

failures-recheck : (cb : CircuitBreaker) (now : ℕ) → (step cb (recheck now)).failures ≡ cb.failures
unfolding step to_half_open
failures-recheck cb now = ground arith

failures-success : (cb : CircuitBreaker) (now : ℕ) → (step cb (result now none)).failures ≡ 0
unfolding step record_result
failures-success cb now = ground arith

failures-failure :
    (cb : CircuitBreaker) (now err : ℕ)
    → (step cb (result now (some err))).failures ≡ cb.failures + 1
unfolding step record_result
failures-failure cb now err = ground arith

failures-run_from :
    (cb : CircuitBreaker) (n : ℕ) (es : List Event)
    → cb.failures ≡ n
    → (run cb es).failures ≡ streak n es
unfolding run streak
failures-run_from cb n [] h = h
failures-run_from cb n (recheck now ∷ es) h =
    failures-run_from (step cb (recheck now)) n es (ground (arith, failures-recheck cb now))
failures-run_from cb n (result now none ∷ es) h =
    failures-run_from (step cb (result now none)) 0 es (failures-success cb now)
failures-run_from cb n (result now (some err) ∷ es) h =
    failures-run_from (step cb (result now (some err))) (n + 1) es
      (ground (arith, failures-failure cb now err))

-- The failure counter is the length of the current run of failures, in every interleaving and in
-- every state.
pub failures-run : (c : Config) (es : List Event) → (run (new c) es).failures ≡ streak 0 es
unfolding new
failures-run c es = failures-run_from (new c) 0 es refl

opens_at_limit :
    (cb : CircuitBreaker) (e : Event)
    → cb.state ≡ closed
    → (step cb e).state ≢ closed
    → ((step cb e).state ≡ open_state) × (cb.config.max_failures ≤ (step cb e).failures)
unfolding step to_half_open record_result
opens_at_limit cb (recheck now) h n = ground arith
opens_at_limit cb (result now none) h n = ground arith
opens_at_limit cb (result now (some err)) h n = ground arith

run-config : (cb : CircuitBreaker) (es : List Event) → (run cb es).config ≡ cb.config
unfolding run
run-config cb [] = refl
run-config cb (e ∷ es) = ground (arith, run-config (step cb e) es, step-config cb e)

run-append : (cb : CircuitBreaker) (es fs : List Event) → run cb (es ++ fs) ≡ run (run cb es) fs
unfolding run
run-append cb [] fs = refl
run-append cb (e ∷ es) fs = run-append (step cb e) es fs

run-snoc :
    (cb : CircuitBreaker) (es : List Event) (e : Event) → run cb (es ++ e ∷ []) ≡ step (run cb es) e
unfolding run
run-snoc cb es e = run-append cb es (e ∷ [])

-- A breaker that is closed after some events and not closed after one more is open then, and
-- the results so far end in a run of failures at least as long as the configured maximum.
pub opens_after_streak :
    (c : Config) (es : List Event) (e : Event)
    → (run (new c) es).state ≡ closed
    → (step (run (new c) es) e).state ≢ closed
    → ((step (run (new c) es) e).state ≡ open_state) × (c.max_failures ≤ streak 0 (es ++ e ∷ []))
unfolding new
opens_after_streak c es e h n = ground (
  arith,
  opens_at_limit (run (new c) es) e,
  run-config (new c) es,
  failures-run c (es ++ e ∷ []),
  run-snoc (new c) es e,
)
