-- ===== src/Migrations/Down.antt =====
-- The rest of services/shared/storage/postgres/migration_history.go: `runDownSteps`, `recordForce` and
-- `detectDrift`. golang-migrate's `Steps(-1)` is a parameter: from the state to an error, if there is
-- one, and the next state. A count of steps of 0 stands for any that is not positive.
pub mod Drift
pub mod Recorded
mod Tests
use axiaops.Common.{
  if◌then◌else◌, ◌==◌, string_eq, nat_eq, ℕ, zero, suc, ◌+◌, String, Bool, true, false, not, ◌&&◌,
  Option, none, some, List, [], ◌∷◌, ◌++◌, arith,
}
use axiaops.Migrations.{
  MigrationFile, by_version, lookup_down, HistoryRow, Db, record_started, complete_row,
}
use axiaops.Migrations.Loop.{version_of, dirty_of, completed}

abbrev pub StepDown : Type 0
StepDown = Option (ℕ × Bool) → Option String × Option (ℕ × Bool)

pub data DownEnd : Type 0 where
  rolled_back not_positive no_down_file unreadable : DownEnd
  step_failed : String → DownEnd

-- The row after the engine's answer.
abbrev pub lowered : ℕ → Db → Option String × Option (ℕ × Bool) → Db × Option DownEnd
lowered id db (none, sm) = (completed "succeeded" "" (dirty_of sm) sm id db, none)
lowered id db (some message, sm) =
    (completed "failed" message (dirty_of sm) sm id db, some (step_failed message))

abbrev pub go_down : (Db → Db × DownEnd) → Db × Option DownEnd → Db × DownEnd
go_down next (db, none) = next db
go_down next (db, some end) = (db, end)

module _ (sha : String → Option String) (down : StepDown) (idx : List MigrationFile) where
  abbrev pub lower_file : Db → ℕ → MigrationFile → Option String → Db × Option DownEnd
  lower_file db v mf none = (db, some unreadable)
  lower_file db v mf (some sum) =
      lowered db.next_id (record_started v mf.name "down" sum db) (down db.migration_state)

  abbrev pub lower_found : Db → ℕ → Option MigrationFile → Db × Option DownEnd
  lower_found db v none = (db, some no_down_file)
  lower_found db v (some mf) = lower_file db v mf (sha mf.dn_path)

  abbrev pub lower_from : Db → Option ℕ → Db × Option DownEnd
  lower_from db none = (db, some rolled_back)
  lower_from db (some v) = lower_found db v (lookup_down v idx)

  -- One round of the loop of `runDownSteps`; without a version there is nothing to roll back.
  unfoldable pub down_round : Db → Db × Option DownEnd
  unfolding record_started complete_row lookup_down
  down_round db = lower_from db (version_of db.migration_state)

  -- The loop.
  unfoldable pub down_rounds : ℕ → Db → Db × DownEnd
  unfolding down_round
  down_rounds zero db = (db, rolled_back)
  down_rounds (suc n) db = go_down (down_rounds n) (down_round db)

  -- `runDownSteps`
  unfoldable pub run_down_steps : ℕ → Db → Db × DownEnd
  unfolding down_rounds
  run_down_steps n db = if n == 0 then (db, not_positive) else down_rounds n db

abbrev pub name_of : Option MigrationFile → String
name_of none = "unknown"
name_of (some mf) = mf.name

-- `recordForce`
unfoldable pub record_force : ℕ → List MigrationFile → Db → Db
unfolding by_version
record_force version idx db = record db {
  history =
      db.history
      ++ record {
        id = db.next_id;
        version = version;
        name = name_of (by_version version idx);
        direction = "force";
        status = "succeeded";
        finished = true;
        error_message = none;
        file_sha256 = none;
        dirty_after = dirty_of db.migration_state;
      }
        ∷ [];
  next_id = db.next_id + 1;
}

-- The checksum of the last step up to a version that succeeded; the rows are in the order of their
-- identifiers.
unfoldable pub expected_sum : ℕ → List HistoryRow → Option String
expected_sum v [] = none
expected_sum v (row ∷ rows) = elim (expected_sum v rows) [
  | none ↦
      (if row.version == v && (row.direction == "up" && row.status == "succeeded")
        then row.file_sha256
        else none)
  | some sum ↦ some sum
]

abbrev pub differs : Option String → String → Bool
differs none observed = false
differs (some expected) observed = not (expected == observed)

abbrev pub with_drift : ℕ → Bool → Option (List ℕ) → Option (List ℕ)
with_drift v drifted none = none
with_drift v drifted (some vs) = some (if drifted then v ∷ vs else vs)

-- The round of a file; `none` is a file that cannot be read.
abbrev pub compared : ℕ → Option String → Option String → Option (List ℕ) → Option (List ℕ)
compared v expected none rest = none
compared v expected (some observed) rest = with_drift v (differs expected observed) rest

-- The versions whose files changed.
unfoldable pub drifts_of :
    (String → Option String) → List HistoryRow → List MigrationFile → Option (List ℕ)
unfolding expected_sum
drifts_of sha rows [] = some []
drifts_of sha rows (mf ∷ idx) =
    let rest = drifts_of sha rows idx in
    if mf.up_path == ""
    then rest
    else compared mf.version (expected_sum mf.version rows) (sha mf.up_path) rest

pub data DriftEnd : Type 0 where
  may_start cannot_read : DriftEnd
  refuses_to_start : List ℕ → DriftEnd

abbrev pub judged_drift : Bool → Option (List ℕ) → DriftEnd
judged_drift strict none = cannot_read
judged_drift strict (some []) = may_start
judged_drift strict (some (v ∷ vs)) = if strict then refuses_to_start (v ∷ vs) else may_start

-- `detectDrift`
unfoldable pub detect_drift : Bool → (String → Option String) → List MigrationFile → Db → DriftEnd
unfolding drifts_of
detect_drift strict sha idx db = judged_drift strict (drifts_of sha db.history idx)
