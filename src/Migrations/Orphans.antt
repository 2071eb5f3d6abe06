-- ===== src/Migrations/Orphans.antt =====
-- The recovery of rows whose wrapper died: `recoverOrphans`, `resolveOrphan` and `backfillIfEmpty`.
pub mod Truthful
use axiaops.Common.{
  ltb, if◌then◌else◌, length, ◌==◌, string_eq, nat_eq, ℕ, ◌+◌, ◌-◌, String, Bool, true, false, not,
  ◌&&◌, Option, none, some, List, [], ◌∷◌, map, arith,
}
use axiaops.Migrations.{MigrationFile, HistoryRow, Db, nullable, is_orphan}

pub record Verdict : Type 0 where
  pub status : String
  pub message : String
  pub dirty : Option Bool

abbrev pub recovered_success : Verdict
recovered_success = record {
  status = "succeeded";
  message = "timing lost; recovered post-crash";
  dirty = some false;
}

abbrev pub recovered_failure : Verdict
recovered_failure = record {
  status = "failed";
  message = "migration failed; details lost in wrapper crash";
  dirty = some true;
}

abbrev pub never_started : Verdict
never_started = record {
  status = "failed";
  message = "wrapper killed before migration step";
  dirty = none;
}

-- The state that fits nothing; the message has the version and the bit as well.
abbrev pub indeterminate : Verdict
indeterminate = record {
  status = "succeeded";
  message = "indeterminate state; recovered post-crash";
  dirty = some false;
}

-- `resolveOrphan`, on the version and direction of the row and the state of the schema.
unfoldable pub resolve_orphan : ℕ → String → Option (ℕ × Bool) → Verdict
resolve_orphan v direction none = indeterminate
resolve_orphan v direction (some (sm_version, sm_dirty)) =
    if direction == "up"
    then if sm_version == v && not sm_dirty
      then recovered_success
      else if sm_version == v && sm_dirty
      then recovered_failure
      else if sm_version + 1 == v && not sm_dirty
      then never_started
      else indeterminate
    else if direction == "down"
    then if sm_version + 1 == v && not sm_dirty
      then recovered_success
      else if sm_version == v && sm_dirty
      then recovered_failure
      else if sm_version == v && not sm_dirty
      then never_started
      else indeterminate
    else indeterminate

abbrev pub with_verdict : Verdict → HistoryRow → HistoryRow
with_verdict verdict row = record row {
  status = verdict.status;
  finished = true;
  error_message = nullable verdict.message;
  dirty_after = verdict.dirty;
}

abbrev pub resolved : Option (ℕ × Bool) → HistoryRow → HistoryRow
resolved sm row =
    if is_orphan row then with_verdict (resolve_orphan row.version row.direction sm) row else row

-- `recoverOrphans`: every orphan is resolved by the state that was read once.
unfoldable pub recover_orphans : Db → Db
unfolding resolve_orphan
recover_orphans db = record db { history = map (resolved db.migration_state) db.history }

-- The rows of `backfillIfEmpty`, up to the version of the state; the versions are sorted.
unfoldable pub backfilled :
    (String → Option String) → ℕ → ℕ → List MigrationFile → Option (List HistoryRow)
backfilled sha next_id current [] = some []
backfilled sha next_id current (mf ∷ idx) =
    let rest = backfilled sha (if mf.up_path == "" then next_id else next_id + 1) current idx in
    if ltb current mf.version
    then some []
    else if mf.up_path == ""
    then rest
    else elim (sha mf.up_path) [
      | none ↦ none
      | some sum ↦ elim rest [
        | none ↦ none
        | some rows ↦ some (
            record {
              id = next_id;
              version = mf.version;
              name = mf.name;
              direction = "up";
              status = "backfilled";
              finished = true;
              error_message = none;
              file_sha256 = some sum;
              dirty_after = none;
            }
            ∷ rows)
      ]
    ]

abbrev pub with_backfill : Db → Option (List HistoryRow) → Option Db
with_backfill db none = none
with_backfill db (some rows) =
    some (record db { history = rows; next_id = db.next_id + length rows })

-- `backfillIfEmpty`; `none` is an error.
unfoldable pub backfill_if_empty : (String → Option String) → List MigrationFile → Db → Option Db
unfolding backfilled
backfill_if_empty sha idx db = elim (db.history) [
  | row ∷ rows ↦ some db
  | [] ↦ elim (db.migration_state) [
    | none ↦ some db
    | some (current, dirty) ↦ with_backfill db (backfilled sha db.next_id current idx)
  ]
]
