-- ===== src/Breaker.antt =====
-- The circuit breaker of services/shared/circuitbreaker/circuitbreaker.go.
-- A method that changes the receiver returns the new record. Each critical section of the code is
-- a function of its own, so that the sections of concurrent calls may be interleaved. Times and
-- durations are natural numbers of nanoseconds; the clock reads are arguments.
pub mod Invariant
pub mod Recovery
mod Tests
use axiaops.Common.{
  ℕ, ◌+◌, ◌-◌, Bool, true, false, ◌&&◌, Option, none, some, String, ltb, leb, if◌then◌else◌,
}

-- `State`; the constructors stand in the order of the `iota` constants.
pub data State : Type 0 where
  closed open_state half_open : State

pub state_name : State → String
state_name closed = "closed"
state_name open_state = "open"
state_name half_open = "half-open"

pub record Config : Type 0 where
  pub max_failures : ℕ
  pub reset_timeout : ℕ
  pub success_threshold : ℕ

abbrev pub second : ℕ
second = 1_000_000_000

unfoldable pub default_config : Config
default_config = record { max_failures = 3; reset_timeout = 30_000_000_000; success_threshold = 2 }

pub record CircuitBreaker : Type 0 where
  pub config : Config
  pub state : State
  pub failures : ℕ
  pub successes : ℕ
  pub last_fail_time : ℕ

-- `New`; the zero `time.Time` is 0.
unfoldable pub new : Config → CircuitBreaker
new c = record { config = c; state = closed; failures = 0; successes = 0; last_fail_time = 0 }

abbrev is_open : State → Bool
is_open open_state = true
is_open _ = false

abbrev pub is_half_open : State → Bool
is_half_open half_open = true
is_half_open _ = false

abbrev pub is_closed : State → Bool
is_closed closed = true
is_closed _ = false

-- `time.Since(cb.lastFailTime) > cb.config.ResetTimeout`
abbrev pub elapsed : ℕ → CircuitBreaker → Bool
elapsed now cb = ltb cb.config.reset_timeout (now - cb.last_fail_time)

-- What the section under the read lock of `canExecute` decides.
pub data Verdict : Type 0 where
  allow deny upgrade : Verdict

-- The `switch` of `canExecute`, on the state.
admit_by : State → Bool → Verdict
admit_by closed due = allow
admit_by open_state due = if due then upgrade else deny
admit_by half_open due = allow

pub admit : ℕ → CircuitBreaker → Verdict
unfolding admit_by
admit now cb = admit_by cb.state (elapsed now cb)

-- The section under the write lock, with the double check.
pub to_half_open : ℕ → CircuitBreaker → CircuitBreaker
to_half_open now cb =
    if is_open cb.state && elapsed now cb
    then record cb { state = half_open; successes = 0 }
    else cb

-- `canExecute` with no other call in between; the two clock reads are `now` and `later`.
pub can_execute : ℕ → ℕ → CircuitBreaker → CircuitBreaker × Bool
unfolding admit to_half_open
can_execute now later cb = elim (admit now cb) [
  | allow ↦ (cb, true)
  | deny ↦ (cb, false)
  | upgrade ↦ let cb' = to_half_open later cb in (cb', is_half_open cb'.state)
]

-- `recordResult(nil)`
record_success : CircuitBreaker → CircuitBreaker
record_success cb =
    if is_half_open cb.state
    then (if leb cb.config.success_threshold (cb.successes + 1)
        then record cb { failures = 0; state = closed; successes = 0 }
        else record cb { failures = 0; successes = cb.successes + 1 })
    else record cb { failures = 0 }

-- `recordResult(err)` for an error
record_failure : ℕ → CircuitBreaker → CircuitBreaker
record_failure now cb =
    let cb' = record cb { failures = cb.failures + 1; last_fail_time = now; successes = 0 } in
    if is_closed cb'.state && leb cb'.config.max_failures cb'.failures
    then record cb' { state = open_state }
    else if is_half_open cb'.state
    then record cb' { state = open_state }
    else cb'

pub record_result {ℓ} : {E : Type ℓ} → ℕ → Option E → CircuitBreaker → CircuitBreaker
unfolding record_success record_failure
record_result now none cb = record_success cb
record_result now (some err) cb = record_failure now cb

-- What `Execute` returns: the breaker's own error, or what `fn` returned.
pub data Outcome {ℓ} (E : Type ℓ) : Type ℓ where
  rejected : Outcome E
  ran : Option E → Outcome E

-- The three clock reads of one call, in order.
pub record Clock : Type 0 where
  pub checked : ℕ
  pub rechecked : ℕ
  pub recorded : ℕ

-- The part of `Execute` after the guard, on the world that `fn` acts on.
execute_if {ℓ κ} :
    {E : Type ℓ} {W : Type κ}
    → ℕ
    → (W → W × Option E)
    → CircuitBreaker × Bool
    → W
    → CircuitBreaker × W × Outcome E
execute_if now fn (cb, false) w = (cb, w, rejected)
execute_if now fn (cb, true) w = let (w', err) = fn w in (record_result now err cb, w', ran err)

unfoldable pub execute {ℓ κ} :
    {E : Type ℓ} {W : Type κ}
    → Clock
    → (W → W × Option E)
    → CircuitBreaker
    → W
    → CircuitBreaker × W × Outcome E
unfolding execute_if can_execute record_result
execute t fn cb w = execute_if t.recorded fn (can_execute t.checked t.rechecked cb) w
