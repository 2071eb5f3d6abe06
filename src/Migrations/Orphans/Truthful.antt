-- ===== src/Migrations/Orphans/Truthful.antt =====
-- What the recovery says of a step whose wrapper died.
use axiaops.Common.{
  if◌then◌else◌, Bool-cases, All, ◌==◌, string_eq, nat_eq, ℕ, ◌+◌, String, ◌≡◌, refl, ◌∙◌, inl, inr,
  Bool, true, false, ◌&&◌, Option, none, some, List, [], ◌∷◌, ◌++◌, map, arith,
}
use axiaops.Migrations.{MigrationFile, HistoryRow, Db, record_started, is_orphan}
use axiaops.Migrations.Orphans.{
  Verdict, recovered_success, recovered_failure, never_started, indeterminate, resolve_orphan,
  with_verdict, resolved, recover_orphans,
}

abbrev pub Settled : List HistoryRow → Type 0
Settled rows = All (λ r. is_orphan r ≡ false) rows

-- Where a wrapper dies: before the engine's step, in it, or before the row is completed. The engine
-- sets the version dirty, runs the file, and sets it clean.
pub data Death : Type 0 where
  before_step in_step after_step : Death

abbrev pub state_at : Death → ℕ → Option (ℕ × Bool) → Option (ℕ × Bool)
state_at before_step v sm = sm
state_at in_step v sm = some (v, true)
state_at after_step v sm = some (v, false)

-- What a wrapper that dies in the step up to a file leaves.
abbrev pub died : Death → MigrationFile → String → Db → Db
died p f sum db = record (record_started f.version f.name "up" sum db) {
  migration_state = state_at p f.version db.migration_state;
}

abbrev pub truth : Death → Verdict
truth before_step = never_started
truth in_step = recovered_failure
truth after_step = recovered_success

abbrev pub started_row : MigrationFile → String → ℕ → HistoryRow
started_row f sum id = record {
  id = id;
  version = f.version;
  name = f.name;
  direction = "up";
  status = "started";
  finished = false;
  error_message = none;
  file_sha256 = if sum == "" then none else some sum;
  dirty_after = none;
}

resolve-truth :
    (p : Death) (v c : ℕ)
    → v ≡ c + 1
    → resolve_orphan v "up" (state_at p v (some (c, false))) ≡ truth p
unfolding resolve_orphan
resolve-truth before_step v c e = ground arith
resolve-truth in_step v c e = ground arith
resolve-truth after_step v c e = ground arith

-- Rows that are settled stay.
map-resolved :
    (sm : Option (ℕ × Bool)) (rows : List HistoryRow) (row : HistoryRow)
    → Settled rows
    → is_orphan row ≡ true
    → map (resolved sm) (rows ++ row ∷ [])
      ≡ rows ++ with_verdict (resolve_orphan row.version row.direction sm) row ∷ []
map-resolved sm [] row h o = rw o refl
map-resolved sm (r ∷ rows) row (h, hs) o = rw (h, map-resolved sm rows row hs o) refl

and_false : (b : Bool) → (b && false) ≡ false
and_false true = refl
and_false false = refl

resolved-Settled : (sm : Option (ℕ × Bool)) (row : HistoryRow) → is_orphan (resolved sm row) ≡ false
resolved-Settled sm row = elim (Bool-cases (is_orphan row)) [
  | inl o ↦ rw o (and_false ((resolve_orphan row.version row.direction sm).status == "started"))
  | inr o ↦ rw o o
]

map-Settled : (sm : Option (ℕ × Bool)) (rows : List HistoryRow) → Settled (map (resolved sm) rows)
map-Settled sm [] = tt
map-Settled sm (row ∷ rows) = (resolved-Settled sm row, map-Settled sm rows)

-- After the recovery no row waits, whatever the history and the state.
recover_orphans-Settled : (db : Db) → Settled (recover_orphans db).history
unfolding recover_orphans
recover_orphans-Settled db = map-Settled db.migration_state db.history

-- For a history without orphans and a clean state one version below the file's, wherever the wrapper
-- dies in the step up: the recovery leaves no orphan and the other rows as they were, and it says of
-- the step that it never started, that it failed with the state dirty, or that it succeeded, as it was.
pub recover_orphans-died :
    (p : Death) (f : MigrationFile) (sum : String) (c : ℕ) (db : Db)
    → Settled db.history
    → db.migration_state ≡ some (c, false)
    → f.version ≡ c + 1
    → Settled (recover_orphans (died p f sum db)).history
      × ((recover_orphans (died p f sum db)).history
          ≡ db.history ++ with_verdict (truth p) (started_row f sum db.next_id) ∷ [])
unfolding recover_orphans record_started
recover_orphans-died p f sum c db h s e = (
  recover_orphans-Settled (died p f sum db),
  map-resolved (state_at p f.version db.migration_state) db.history (started_row f sum db.next_id) h
        (ground arith)
      ∙ rw s (rw (resolve-truth p f.version c e) refl),
)

-- On a schema without a state the step that never started is said to have succeeded.
pub recover_orphans-fresh :
    (f : MigrationFile) (sum : String) (db : Db)
    → Settled db.history
    → db.migration_state ≡ none
    → (recover_orphans (died before_step f sum db)).history
      ≡ db.history ++ with_verdict indeterminate (started_row f sum db.next_id) ∷ []
unfolding recover_orphans record_started resolve_orphan
recover_orphans-fresh f sum db h s =
    map-resolved db.migration_state db.history (started_row f sum db.next_id) h (ground arith)
    ∙ rw s refl
