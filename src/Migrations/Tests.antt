-- ===== src/Migrations/Tests.antt =====
-- Two migrations, one pending.
use axiaops.Common.{
  string_eq, nat_eq, ℕ, String, ◌≡◌, refl, ap, ◌≢◌, Bool, true, false, Option, none, some, List, [],
  ◌∷◌, ◌++◌, map,
}
use axiaops.Migrations.{MigrationFile, index_embedded_migrations, next_pending_up, HistoryRow, Db}
use axiaops.Migrations.Loop.{
  out_of_fuel, up_to_date, StepResult, done, no_change, Engine, version_of, run_up_loop,
}
use axiaops.Migrations.Loop.Ends.{InStep, run_up_loop-Ended}
use axiaops.Migrations.Orphans.{with_verdict, recover_orphans}
use axiaops.Migrations.Orphans.Truthful.{
  Settled, before_step, in_step, died, truth, started_row, recover_orphans-died,
  recover_orphans-fresh,
}

abbrev file : ℕ → MigrationFile
file v = record { version = v; name = "m"; up_path = "up"; dn_path = "" }

abbrev index : List MigrationFile
index = file 0 ∷ file 1 ∷ []

indexed :
    index_embedded_migrations
      (record { version = 1; name = "m"; direction = "up"; path = "up" }
        ∷ record { version = 0; name = "m"; direction = "up"; path = "up" }
        ∷ [])
      []
    ≡ some index
unfolding index_embedded_migrations string_eq nat_eq
indexed = refl

-- An engine that applies the first pending file.
abbrev next_state : Option (ℕ × Bool) → Option MigrationFile → StepResult × Option (ℕ × Bool)
next_state sm none = (no_change, sm)
next_state sm (some f) = (done, some (f.version, false))

abbrev engine : Engine
engine = record {
  steps = λ sm. next_state sm (next_pending_up (version_of sm) index);
  force_works = true;
}

engine-InStep : InStep engine index
engine-InStep sm f p d = rw p refl

abbrev sha : String → Option String
sha path = some "sum"

abbrev at_zero : Db
at_zero = record { history = []; next_id = 1; migration_state = some (0, false) }

abbrev dirty_at_zero : Db
dirty_at_zero = record at_zero { migration_state = some (0, true) }

run_twice :
    ((run_up_loop sha engine index 3 dirty_at_zero).0.migration_state ≡ some (1, false))
    × (map (λ r. r.name) (run_up_loop sha engine index 3 dirty_at_zero).0.history
        ≡ "m (dirty-recovery)" ∷ "m" ∷ [])
unfolding run_up_loop next_pending_up string_eq nat_eq
run_twice = (refl, refl)

run_up_loop-Ended_example :
    ((run_up_loop sha engine index 3 at_zero).1 ≢ out_of_fuel)
    × ((run_up_loop sha engine index 3 at_zero).1 ≡ up_to_date
        → next_pending_up
            (version_of (run_up_loop sha engine index 3 at_zero).0.migration_state)
            index
          ≡ none)
run_up_loop-Ended_example = run_up_loop-Ended sha engine index engine-InStep at_zero

recover_orphans-died_example :
    Settled (recover_orphans (died in_step (file 1) "sum" at_zero)).history
    × ((recover_orphans (died in_step (file 1) "sum" at_zero)).history
        ≡ [] ++ with_verdict (truth in_step) (started_row (file 1) "sum" 1) ∷ [])
recover_orphans-died_example = recover_orphans-died in_step (file 1) "sum" 0 at_zero tt refl refl

fresh_test :
    map
      (λ r. r.status)
      (recover_orphans (
        died before_step
          (file 0)
          "sum"
          (record { history = []; next_id = 1; migration_state = none }))).history
    ≡ "succeeded" ∷ []
fresh_test = ap (map (λ (r : HistoryRow). r.status)) (
    recover_orphans-fresh (file 0) "sum"
      (record { history = []; next_id = 1; migration_state = none }) tt refl)
