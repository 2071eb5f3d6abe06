-- ===== src/Migrations/Loop.antt =====
-- The application of the pending migrations: `runUpLoop` with `reapplyDirty`, on fuel; and `Migrate`
-- from the history's connection on.
pub mod Ends
use axiaops.Common.{
  if◌then◌else◌, ◌==◌, string_eq, nat_eq, ℕ, zero, suc, ◌-◌, ◌<◌, String, ◌<>◌, Bool, true, false,
  Option, none, some, List, [], arith,
}
use axiaops.Migrations.{
  MigrationFile, next_pending_up, by_version, Db, record_started, complete_row,
}

pub data StepResult : Type 0 where
  done no_change : StepResult
  failed : String → StepResult

-- golang-migrate on the state: `Steps(1)`, and whether `Force` works.
pub record Engine : Type 0 where
  pub steps : Option (ℕ × Bool) → StepResult × Option (ℕ × Bool)
  pub force_works : Bool

pub data LoopEnd : Type 0 where
  up_to_date unreadable_file out_of_step not_embedded rewind_failed out_of_fuel : LoopEnd
  step_failed : String → LoopEnd

abbrev pub version_of : Option (ℕ × Bool) → Option ℕ
version_of none = none
version_of (some (v, dirty)) = some v

abbrev pub dirty_of : Option (ℕ × Bool) → Option Bool
dirty_of none = none
dirty_of (some (v, dirty)) = some dirty

-- The row of a step, completed, and the state that the step leaves.
abbrev pub completed : String → String → Option Bool → Option (ℕ × Bool) → ℕ → Db → Db
completed status message dirty sm id db = record db {
  history = complete_row id status message dirty db.history;
  migration_state = sm;
}

-- What a round does with the engine's answer; `none` goes on.
abbrev pub judged : ℕ → Db → StepResult × Option (ℕ × Bool) → Db × Option LoopEnd
judged id db (no_change, sm) = (
  completed "failed" "library returned no-change despite indexed pending version" none sm id db,
  some out_of_step,
)
judged id db (failed message, sm) =
    (completed "failed" message (dirty_of sm) sm id db, some (step_failed message))
judged id db (done, sm) = (completed "succeeded" "" (dirty_of sm) sm id db, none)

abbrev pub go_on : (Db → Db × LoopEnd) → Db × Option LoopEnd → Db × LoopEnd
go_on next (db, none) = next db
go_on next (db, some end) = (db, end)

module _ (sha : String → Option String) (engine : Engine) (idx : List MigrationFile) where
  abbrev pub apply_file : Db → MigrationFile → Option String → Db × Option LoopEnd
  apply_file db f none = (db, some unreadable_file)
  apply_file db f (some sum) =
      judged db.next_id (record_started f.version f.name "up" sum db)
        (engine.steps db.migration_state)

  abbrev pub apply_next : Db → Option MigrationFile → Db × Option LoopEnd
  apply_next db none = (db, some up_to_date)
  apply_next db (some f) = apply_file db f (sha f.up_path)

  -- One round of the loop of `runUpLoop`.
  unfoldable pub up_round : Db → Db × Option LoopEnd
  unfolding record_started complete_row next_pending_up
  up_round db = apply_next db (next_pending_up (version_of db.migration_state) idx)

  -- The loop.
  unfoldable pub up_rounds : ℕ → Db → Db × LoopEnd
  unfolding up_round
  up_rounds zero db = (db, out_of_fuel)
  up_rounds (suc fuel) db = go_on (up_rounds fuel) (up_round db)

  -- The state after `Force(v - 1)`: below version 0 the row goes.
  abbrev pub rewound : ℕ → Option (ℕ × Bool)
  rewound zero = none
  rewound (suc v) = some (v, false)

  -- The answer to the second run of a dirty version.
  abbrev pub reapplied : ℕ → Db → StepResult × Option (ℕ × Bool) → Db × Option LoopEnd
  reapplied id db (no_change, sm) = (
    completed "failed"
        "library returned no-change despite rewound state — manual recovery required (axiaopsctl migrate force N after investigation)"
        (some false) sm id db,
    some out_of_step,
  )
  reapplied id db (failed message, sm) =
      (completed "failed" message (dirty_of sm) sm id db, some (step_failed message))
  reapplied id db (done, sm) = (completed "succeeded" "" (dirty_of sm) sm id db, none)

  abbrev pub reapply_file : Db → MigrationFile → ℕ → Option String → Db × Option LoopEnd
  reapply_file db mf v none = (db, some unreadable_file)
  reapply_file db mf v (some sum) =
      let db' = record_started v (mf.name <> " (dirty-recovery)") "up" sum db in
      if engine.force_works then reapplied db.next_id db' (engine.steps (rewound v)) else (
        completed "failed" "rewind force(v-1)" (some true) db.migration_state db.next_id db',
        some rewind_failed,
      )

  abbrev pub reapply_found : Db → ℕ → Option MigrationFile → Db × Option LoopEnd
  reapply_found db v none = (db, some not_embedded)
  reapply_found db v (some mf) =
      reapply_file db mf v (if mf.up_path == "" then none else sha mf.up_path)

  -- `reapplyDirty`
  unfoldable pub reapply_dirty : Db → Db × Option LoopEnd
  unfolding record_started complete_row by_version
  reapply_dirty db = elim (db.migration_state) [
    | none ↦ (db, none)
    | some (v, dirty) ↦ if dirty then reapply_found db v (by_version v idx) else (db, none)
  ]

  -- `runUpLoop`
  unfoldable pub run_up_loop : ℕ → Db → Db × LoopEnd
  unfolding reapply_dirty up_rounds
  run_up_loop fuel db = go_on (up_rounds fuel) (reapply_dirty db)
