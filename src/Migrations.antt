-- ===== src/Migrations.antt =====
-- The schema's migrations and their history: services/shared/storage/postgres/migration_history.go and
-- migrate.go. `Db` has the history's rows and the one row of golang-migrate's `migration_state`, a
-- version with its dirty bit, if it has one. The engine, golang-migrate's `Steps`, is a parameter: from
-- the state to a result and the next state; so are the checksums of the embedded files. The
-- statements on the history succeed; a wrapper that dies leaves a row at "started". Times, the names
-- of actor and image and the texts that `truncateError` cuts are left out.
pub mod Down
pub mod Loop
pub mod Orphans
mod Tests
use axiaops.Common.{
  ltb, leb, if◌then◌else◌, ◌==◌, string_eq, nat_eq, ℕ, ◌+◌, String, Bool, true, false, not, ◌&&◌,
  Option, none, some, List, [], ◌∷◌, ◌++◌, arith,
}

-- `migrationFile`; an empty path is a file that is not there.
pub record MigrationFile : Type 0 where
  pub version : ℕ
  pub name : String
  pub up_path : String
  pub dn_path : String

-- What the file name's regular expression takes from a file: version, name, direction; and the path.
pub record Embedded : Type 0 where
  pub version : ℕ
  pub name : String
  pub direction : String
  pub path : String

abbrev pub with_path : String → String → MigrationFile → MigrationFile
with_path direction path mf =
    if direction == "up"
    then record mf { up_path = path }
    else if direction == "down"
    then record mf { dn_path = path }
    else mf

abbrev pub behind : MigrationFile → Option (List MigrationFile) → Option (List MigrationFile)
behind mf none = none
behind mf (some idx) = some (mf ∷ idx)

-- One file of the walk, put into the index, which is kept in the order of its versions.
unfoldable pub index_one : Embedded → List MigrationFile → Option (List MigrationFile)
index_one e [] = some (
    with_path e.direction e.path
      (record { version = e.version; name = e.name; up_path = ""; dn_path = "" })
    ∷ [])
index_one e (mf ∷ idx) =
    let rest = behind mf (index_one e idx) in
    if mf.version == e.version
    then if mf.name == e.name then some (with_path e.direction e.path mf ∷ idx) else none
    else if ltb e.version mf.version
    then some (
        with_path e.direction e.path
          (record { version = e.version; name = e.name; up_path = ""; dn_path = "" })
        ∷ mf
        ∷ idx)
    else rest

-- `indexEmbeddedMigrations`; `none` is a version with two names.
unfoldable pub index_embedded_migrations :
    List Embedded → List MigrationFile → Option (List MigrationFile)
unfolding index_one
index_embedded_migrations [] idx = some idx
index_embedded_migrations (e ∷ es) idx = elim (index_one e idx) [
  | none ↦ none
  | some idx' ↦ index_embedded_migrations es idx'
]

abbrev pub is_past : Option ℕ → ℕ → Bool
is_past none v = false
is_past (some current) v = leb v current

-- `nextPendingUp`
unfoldable pub next_pending_up : Option ℕ → List MigrationFile → Option MigrationFile
next_pending_up current [] = none
next_pending_up current (mf ∷ idx) =
    if is_past current mf.version
    then next_pending_up current idx
    else if mf.up_path == ""
    then next_pending_up current idx
    else some mf

unfoldable pub by_version : ℕ → List MigrationFile → Option MigrationFile
by_version v [] = none
by_version v (mf ∷ idx) = if mf.version == v then some mf else by_version v idx

-- `lookupDown`, with the whole entry.
unfoldable pub lookup_down : ℕ → List MigrationFile → Option MigrationFile
unfolding by_version
lookup_down v idx = elim (by_version v idx) [
  | none ↦ none
  | some mf ↦ if mf.dn_path == "" then none else some mf
]

pub record HistoryRow : Type 0 where
  pub id : ℕ
  pub version : ℕ
  pub name : String
  pub direction : String
  pub status : String
  pub finished : Bool
  pub error_message : Option String
  pub file_sha256 : Option String
  pub dirty_after : Option Bool

pub record Db : Type 0 where
  pub history : List HistoryRow
  pub next_id : ℕ
  pub migration_state : Option (ℕ × Bool)

-- `recordStarted`
unfoldable pub record_started : ℕ → String → String → String → Db → Db
record_started version name direction sha db = record db {
  history =
      db.history
      ++ record {
        id = db.next_id;
        version = version;
        name = name;
        direction = direction;
        status = "started";
        finished = false;
        error_message = none;
        file_sha256 = if sha == "" then none else some sha;
        dirty_after = none;
      }
        ∷ [];
  next_id = db.next_id + 1;
}

abbrev pub nullable : String → Option String
nullable s = if s == "" then none else some s

-- `completeRow`, and `completeRowOrphan`, which differ in the times.
unfoldable pub complete_row : ℕ → String → String → Option Bool → List HistoryRow → List HistoryRow
complete_row id status message dirty [] = []
complete_row id status message dirty (row ∷ rows) =
    (if row.id == id
      then record row {
        status = status;
        finished = true;
        error_message = nullable message;
        dirty_after = dirty;
      }
      else row)
    ∷ complete_row id status message dirty rows

-- The states of a row at which its wrapper died.
abbrev pub is_orphan : HistoryRow → Bool
is_orphan row = row.status == "started" && not row.finished
