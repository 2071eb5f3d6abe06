-- ===== src/Breaker/Tests.antt =====
-- Runs of the breaker.
use axiaops.Common.{
  ◌⊎◌, string_eq, nat_eq, ℕ, ◌≤◌, ◌≡◌, refl, inr, Option, some, List, [], ◌∷◌, ◌++◌, arith,
}
use axiaops.Breaker.{
  closed, open_state, half_open, CircuitBreaker, default_config, new, rejected, ran, Clock, execute,
}
use axiaops.Breaker.Invariant.{
  Event, result, run, step, streak, IsValid, run-IsValid, failures-run, opens_after_streak,
}
use axiaops.Breaker.Recovery.{
  Admits, Refuses, execute_lem, execute_admitted, succeed_all, open_closes, half_open_reopens,
}

abbrev three_failures : List Event
three_failures = result 10 (some 1) ∷ result 20 (some 1) ∷ result 30 (some 1) ∷ []

three_failures_open : (run (new default_config) three_failures).state ≡ open_state
unfolding run step new default_config
three_failures_open = refl

run-IsValid_example : IsValid (run (new default_config) three_failures)
unfolding default_config
run-IsValid_example = run-IsValid default_config three_failures (ground arith)

failures-run_test : (run (new default_config) three_failures).failures ≡ streak 0 three_failures
failures-run_test = failures-run default_config three_failures

abbrev two_failures : List Event
two_failures = result 10 (some 1) ∷ result 20 (some 1) ∷ []

opens_after_streak_example :
    ((step (run (new default_config) two_failures) (result 30 (some 1))).state ≡ open_state)
    × (default_config.max_failures ≤ streak 0 (two_failures ++ result 30 (some 1) ∷ []))
unfolding run step new default_config
opens_after_streak_example =
    opens_after_streak default_config two_failures (result 30 (some 1)) refl (λ e. cc)

abbrev opened : CircuitBreaker
opened = record {
  config = record { max_failures = 3; reset_timeout = 30; success_threshold = 2 };
  state = open_state;
  failures = 3;
  successes = 0;
  last_fail_time = 100;
}

abbrev early : Clock
early = record { checked = 120; rechecked = 120; recorded = 121 }

abbrev late : Clock
late = record { checked = 131; rechecked = 132; recorded = 140 }

-- A function that counts its runs and fails with error 7.
abbrev fails : ℕ → ℕ × Option ℕ
fails w = (5, some 7)

execute_lem_example :
    (Admits early opened
      × ((execute early fails opened 0).1 ≡ (fails 0).0)
      × ((execute early fails opened 0).2 ≡ ran (fails 0).1))
    ⊎ (Refuses early opened × (execute early fails opened 0 ≡ (opened, 0, rejected)))
execute_lem_example = execute_lem early fails opened 0

execute_admitted_test :
    ((execute late fails opened 0).1 ≡ (fails 0).0)
    × ((execute late fails opened 0).2 ≡ ran (fails 0).1)
execute_admitted_test = execute_admitted late fails opened 0 (inr (omega arith, omega arith))

open_closes_example :
    ((succeed_all (late ∷ late ∷ []) opened).state ≡ closed)
    × ((succeed_all (late ∷ late ∷ []) opened).failures ≡ 0)
open_closes_example = open_closes late (late ∷ []) opened refl (inr (omega arith, omega arith)) refl

reopens_test :
    let cb' = (execute late fails (record opened { state = half_open }) 0).0 in
    (cb'.state ≡ open_state) × (cb'.last_fail_time ≡ 140) × (cb'.successes ≡ 0)
reopens_test =
    half_open_reopens late fails (record opened { state = half_open }) 0 {e = 7} refl refl
