-- ===== src/Retry.antt =====
-- Retrying with exponential backoff, services/shared/retry/retry.go.
-- The world that `fn` acts on is a parameter; the function also returns what happened, in order,
-- which the code shows to its callers only as calls of `fn` and as time that passes. Durations are
-- natural numbers of nanoseconds.
pub mod Laws
pub mod Delays
mod Tests
use axiaops.Common.{
  ltb, if◌then◌else◌, ◌==◌, string_eq, nat_eq, ℕ, zero, suc, ◌+◌, ◌-◌, ◌*◌, ◌^◌, Bool, true, false,
  Option, none, some, List, [], ◌∷◌, arith,
}
use axiaops.ScanError.{GoError, categorize_error, is_retryable as is_retryable_category}

pub record Config : Type 0 where
  pub max_attempts : ℕ
  pub base_delay : ℕ
  pub max_delay : ℕ

unfoldable pub default_config : Config
default_config = record { max_attempts = 3; base_delay = 100_000_000; max_delay = 5_000_000_000 }

-- `IsRetryable`; a nil error is not retried.
unfoldable pub is_retryable : Option GoError → Bool
unfolding categorize_error is_retryable_category
is_retryable none = false
is_retryable (some err) = is_retryable_category (categorize_error err)

-- The delay before the given attempt, capped. The code goes through a float64, which is exact here,
-- being a base below 2 ^ 53 times a power of two. From 2 ^ 63 on, what its conversion to an int64
-- gives is left to the platform by Go: `overflowed` stands for it, with 0 for a negative duration,
-- which waits no time.
unfoldable pub backoff : (ℕ → ℕ) → Config → ℕ → ℕ
backoff overflowed config attempt =
    let exact = config.base_delay * 2 ^ (attempt - 1) in
    let delay = if ltb exact (2 ^ 63) then exact else overflowed exact in
    if ltb config.max_delay delay then config.max_delay else delay

pub data Entry : Type 0 where
  called : Option GoError → Entry
  waited : ℕ → Entry

-- What `Do` returns: the error of the last call, or the context's error.
pub data Result : Type 0 where
  returned : Option GoError → Result
  context_done : Result

pub record Report {ℓ} (W : Type ℓ) : Type ℓ where
  pub world : W
  pub log : List Entry
  pub result : Result

-- What follows a call of `fn`; `again` runs the later rounds.
abbrev pub after_call {ℓ} :
    {W : Type ℓ} → W × Option GoError → (Option GoError → W → Report W) → Report W
after_call (w, none) again = record { world = w; log = called none ∷ []; result = returned none }
after_call (w, some err) again =
    let rest = again (some err) w in
    if is_retryable (some err)
    then record rest { log = called (some err) ∷ rest.log }
    else record { world = w; log = called (some err) ∷ []; result = returned (some err) }

-- What stands before the call: nothing at the first attempt; else the wait, which the end of the
-- context cuts short. `rest` is the call and what follows it.
abbrev pub before_call {ℓ} : {W : Type ℓ} → Bool → Bool → ℕ → W → Report W → Report W
before_call true cancelled delay w rest = rest
before_call false true delay w rest = record { world = w; log = []; result = context_done }
before_call false false delay w rest = record rest { log = waited delay ∷ rest.log }

module _ {ℓ} {W : Type ℓ} (overflowed : ℕ → ℕ) (config : Config) (cancelled : ℕ → Bool)
    (fn : W → W × Option GoError) where
  -- The loop of `Do`, on the rounds left. `cancelled i` says whether the context ends during the
  -- wait before attempt `i`.
  unfoldable pub do_loop : ℕ → ℕ → Option GoError → W → Report W
  do_loop zero attempt last_err w = record { world = w; log = []; result = returned last_err }
  do_loop (suc rounds) attempt last_err w =
      let rest = after_call (fn w) (do_loop rounds (attempt + 1)) in
      before_call (attempt == 0) (cancelled attempt) (backoff overflowed config attempt) w rest

  -- `Do`
  unfoldable pub retry : W → Report W
  unfolding do_loop is_retryable backoff
  retry w = do_loop config.max_attempts 0 none w
