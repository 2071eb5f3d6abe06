-- ===== src/Breaker/Recovery.antt =====
-- Whole calls of `Execute`: what an open breaker does to the wrapped function, and how it closes.
use axiaops.Common.{
  inl, inr, ℕ, ◌+◌, ◌≤◌, ◌<◌, ◌≡◌, refl, ◌≢◌, ◌⊎◌, Option, none, some, List, [], ◌∷◌, length, arith,
}
use axiaops.Breaker.{closed, open_state, half_open, CircuitBreaker, rejected, ran, Clock, execute}

-- Whether the breaker admits a call whose clock reads are `t`: always but in the open state, and
-- there once the reset timeout has passed at both reads.
abbrev pub Admits : Clock → CircuitBreaker → Type 0
Admits t cb =
    (cb.state ≢ open_state)
    ⊎ ((cb.last_fail_time + cb.config.reset_timeout < t.checked)
        × (cb.last_fail_time + cb.config.reset_timeout < t.rechecked))

-- An admitted call runs the function once, on the world as it is, and returns what it returns.
pub execute_admitted {ℓ κ} :
    {E : Type ℓ} {W : Type κ} (t : Clock) (fn : W → W × Option E) (cb : CircuitBreaker) (w : W)
    → Admits t cb
    → ((execute t fn cb w).1 ≡ (fn w).0) × ((execute t fn cb w).2 ≡ ran (fn w).1)
unfolding execute
execute_admitted t fn cb w h = ground arith

-- Whether the breaker refuses such a call: in the open state, where the reset timeout has not passed
-- at one of the reads.
abbrev pub Refuses : Clock → CircuitBreaker → Type 0
Refuses t cb =
    (cb.state ≡ open_state)
    × ((t.checked ≤ cb.last_fail_time + cb.config.reset_timeout)
        ⊎ (t.rechecked ≤ cb.last_fail_time + cb.config.reset_timeout))

-- A refused call runs nothing, and changes neither the breaker nor the world.
pub execute_refused {ℓ κ} :
    {E : Type ℓ} {W : Type κ} (t : Clock) (fn : W → W × Option E) (cb : CircuitBreaker) (w : W)
    → Refuses t cb
    → execute t fn cb w ≡ (cb, w, rejected)
unfolding execute
execute_refused t fn cb w h = ground arith

Admits-or_Refuses : (t : Clock) (cb : CircuitBreaker) → Admits t cb ⊎ Refuses t cb
Admits-or_Refuses t cb = ground arith

-- Every call is admitted or refused. It is admitted in a state that is not open, and in the open
-- state where both reads of the clock lie after the reset timeout: then the function runs once, on
-- the world as it is, and the call returns what it returns. It is refused in the open state where one
-- of the reads does not: then nothing runs, and neither the breaker nor the world changes.
pub execute_lem {ℓ κ} :
    {E : Type ℓ} {W : Type κ} (t : Clock) (fn : W → W × Option E) (cb : CircuitBreaker) (w : W)
    → (Admits t cb × ((execute t fn cb w).1 ≡ (fn w).0) × ((execute t fn cb w).2 ≡ ran (fn w).1))
      ⊎ (Refuses t cb × (execute t fn cb w ≡ (cb, w, rejected)))
execute_lem t fn cb w = elim (Admits-or_Refuses t cb) [
  | inl h ↦ (let (world, answer) = execute_admitted t fn cb w h in inl (h, world, answer))
  | inr h ↦ inr (h, execute_refused t fn cb w h)
]

-- One call with a function that succeeds.
abbrev succeed : Clock → CircuitBreaker → CircuitBreaker
succeed t cb = (execute {E = ℕ} {W = Unit {0}} t (λ w. (w, none)) cb tt).0

-- A sequence of calls that all succeed.
pub succeed_all : List Clock → CircuitBreaker → CircuitBreaker
succeed_all [] cb = cb
succeed_all (t ∷ ts) cb = succeed_all ts (succeed t cb)

succeed-half_open :
    (t : Clock) (cb : CircuitBreaker)
    → cb.state ≡ half_open
    → cb.successes + 1 < cb.config.success_threshold
    → succeed t cb ≡ record cb { failures = 0; successes = cb.successes + 1 }
unfolding execute
succeed-half_open t cb h l = ground arith

succeed-last :
    (t : Clock) (cb : CircuitBreaker)
    → cb.state ≡ half_open
    → cb.config.success_threshold ≤ cb.successes + 1
    → succeed t cb ≡ record cb { failures = 0; state = closed; successes = 0 }
unfolding execute
succeed-last t cb h l = ground arith

succeed-open :
    (t : Clock) (cb : CircuitBreaker)
    → cb.state ≡ open_state
    → Admits t cb
    → succeed t cb ≡ succeed t (record cb { state = half_open; successes = 0 })
unfolding execute
succeed-open t cb h a = ground arith

half_open_closes :
    (ts : List Clock) (cb : CircuitBreaker)
    → cb.state ≡ half_open
    → 0 < length ts
    → cb.successes + length ts ≡ cb.config.success_threshold
    → ((succeed_all ts cb).state ≡ closed) × ((succeed_all ts cb).failures ≡ 0)
unfolding succeed_all
half_open_closes [] cb h p e = absurd (omega arith)
half_open_closes (t ∷ []) cb h p e = ground (arith, succeed-last t cb)
half_open_closes (t ∷ u ∷ ts) cb h p e =
    let next = record cb { failures = 0; successes = cb.successes + 1 } in
    let ih = half_open_closes (u ∷ ts) next h (omega arith) (omega arith) in
    ground (arith, succeed-half_open t cb)

-- An open breaker closes, with its failures forgotten, by as many successful calls as the success
-- threshold asks for, if the first comes after the reset timeout.
pub open_closes :
    (t : Clock) (ts : List Clock) (cb : CircuitBreaker)
    → cb.state ≡ open_state
    → Admits t cb
    → length (t ∷ ts) ≡ cb.config.success_threshold
    → ((succeed_all (t ∷ ts) cb).state ≡ closed) × ((succeed_all (t ∷ ts) cb).failures ≡ 0)
unfolding succeed_all
open_closes t ts cb h a e =
    let ready = record cb { state = half_open; successes = 0 } in
    let ih = half_open_closes (t ∷ ts) ready refl (omega arith) (omega arith) in
    ground (arith, succeed-open t cb)

-- In half-open one failing call opens the breaker again and restarts the timeout at its time.
pub half_open_reopens {ℓ κ} :
    {E : Type ℓ} {W : Type κ} (t : Clock) (fn : W → W × Option E) (cb : CircuitBreaker) (w : W)
    {e : E}
    → cb.state ≡ half_open
    → (fn w).1 ≡ some e
    → let cb' = (execute t fn cb w).0 in
      (cb'.state ≡ open_state) × (cb'.last_fail_time ≡ t.recorded) × (cb'.successes ≡ 0)
unfolding execute
half_open_reopens t fn cb w h f = ground arith
