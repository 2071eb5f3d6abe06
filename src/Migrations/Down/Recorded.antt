-- ===== src/Migrations/Down/Recorded.antt =====
-- What the history has after a rollback.
use mathlib.Core.List.{append-nil, append_assoc}
use axiaops.Common.{
  if◌then◌else◌, length, All, ◌==◌, string_eq, nat_eq, ℕ, zero, suc, ◌+◌, ◌<◌, String, ◌≡◌, refl,
  sym, ap, ◌∙◌, ◌≢◌, ◌⊎◌, inl, inr, Bool, true, false, Option, none, some, List, [], ◌∷◌, ◌++◌,
  arith,
}
use axiaops.Migrations.{
  nullable, MigrationFile, lookup_down, HistoryRow, Db, record_started, complete_row,
}
use axiaops.Migrations.Loop.{version_of, dirty_of}
use axiaops.Migrations.Down.{
  StepDown, DownEnd, rolled_back, not_positive, lowered, go_down, lower_file, lower_found,
  lower_from, down_round, down_rounds, run_down_steps,
}

-- Every identifier is below the next.
abbrev pub Fresh : Db → Type 0
Fresh db = All (λ r. r.id < db.next_id) db.history

abbrev pub Lowered : HistoryRow → Type 0
Lowered row = (row.direction ≡ "down") × (row.status ≡ "succeeded") × (row.finished ≡ true)

-- The row of a step down, as it starts.
abbrev started_down : ℕ → String → String → ℕ → HistoryRow
started_down v name sum id = record {
  id = id;
  version = v;
  name = name;
  direction = "down";
  status = "started";
  finished = false;
  error_message = none;
  file_sha256 = if sum == "" then none else some sum;
  dirty_after = none;
}

abbrev ended : String → String → Option Bool → HistoryRow → HistoryRow
ended status message dirty row = record row {
  status = status;
  finished = true;
  error_message = nullable message;
  dirty_after = dirty;
}

complete_row-new :
    (rows : List HistoryRow) (row : HistoryRow) (status message : String) (dirty : Option Bool)
    → All (λ r. r.id < row.id) rows
    → complete_row row.id status message dirty (rows ++ row ∷ [])
      ≡ rows ++ ended status message dirty row ∷ []
unfolding complete_row
complete_row-new [] row status message dirty h = ground arith
complete_row-new (r ∷ rows) row status message dirty (h, hs) =
    ground (arith, complete_row-new rows row status message dirty hs)

fresh-append :
    (rows : List HistoryRow) (row : HistoryRow)
    → All (λ r. r.id < row.id) rows
    → All (λ r. r.id < row.id + 1) (rows ++ row ∷ [])
fresh-append [] row h = (omega arith, tt)
fresh-append (r ∷ rows) row (h, hs) = (omega (arith, h), fresh-append rows row hs)

-- What a round leaves: one row of a step that succeeded, or an end.
abbrev Round : Db → Db × Option DownEnd → Type 0
Round db (after, none) =
    (row : HistoryRow) × Lowered row × (after.history ≡ db.history ++ row ∷ []) × Fresh after
Round db (after, some end) =
    (end ≢ rolled_back) ⊎ ((after.history ≡ db.history) × (after.migration_state ≡ none))

module _ (sha : String → Option String) (down : StepDown) (idx : List MigrationFile) where
  lowered-Round :
      (db : Db) (v : ℕ) (name sum : String) (answer : Option String × Option (ℕ × Bool))
      → Fresh db
      → Round db (lowered db.next_id (record_started v name "down" sum db) answer)
  unfolding record_started complete_row
  lowered-Round db v name sum (none, sm) f =
      let row = started_down v name sum db.next_id in
      let added = complete_row-new db.history row "succeeded" "" (dirty_of sm) f in
      (
        ended "succeeded" "" (dirty_of sm) row,
        (refl, refl, refl),
        added,
        rw added (fresh-append db.history (ended "succeeded" "" (dirty_of sm) row) f),
      )
  lowered-Round db v name sum (some message, sm) f = inl (λ e. cc)

  lower_file-Round :
      (db : Db) (v : ℕ) (mf : MigrationFile) (sum : Option String)
      → Fresh db
      → Round db (lower_file sha down idx db v mf sum)
  lower_file-Round db v mf none f = inl (λ e. cc)
  lower_file-Round db v mf (some sum) f = lowered-Round db v mf.name sum (down db.migration_state) f

  lower_found-Round :
      (db : Db) (v : ℕ) (found : Option MigrationFile)
      → Fresh db
      → Round db (lower_found sha down idx db v found)
  lower_found-Round db v none f = inl (λ e. cc)
  lower_found-Round db v (some mf) f = lower_file-Round db v mf (sha mf.dn_path) f

  no_version : (sm : Option (ℕ × Bool)) → version_of sm ≡ none → sm ≡ none
  no_version none e = refl
  no_version (some (v, dirty)) e = cc

  lower_from-Round :
      (db : Db) (version : Option ℕ)
      → version_of db.migration_state ≡ version
      → Fresh db
      → Round db (lower_from sha down idx db version)
  lower_from-Round db none e f = inr (refl, no_version db.migration_state e)
  lower_from-Round db (some v) e f = lower_found-Round db v (lookup_down v idx) f

  down_round-Round : (db : Db) → Fresh db → Round db (down_round sha down idx db)
  unfolding down_round lookup_down record_started complete_row
  down_round-Round db f = lower_from-Round db (version_of db.migration_state) refl f

  -- What a rollback of a number of steps has added.
  abbrev pub RolledBack : ℕ → Db → Db → Type 0
  RolledBack n db after =
      (rows : List HistoryRow) × (after.history ≡ db.history ++ rows)
      × All Lowered rows
      × ((length rows ≡ n) ⊎ ((length rows < n) × (after.migration_state ≡ none)))

  go_down-RolledBack :
      (n : ℕ) (db : Db) (next : Db → Db × DownEnd) (r : Db × Option DownEnd)
      → ((after : Db)
          → Fresh after
          → (next after).1 ≡ rolled_back
          → RolledBack n after (next after).0)
      → Round db r
      → (go_down next r).1 ≡ rolled_back
      → RolledBack (suc n) db (go_down next r).0
  go_down-RolledBack n db next (after, none) ih (row, l, h, f) e =
      let (rows, h', ls, count) = ih after f e in
      (
        row ∷ rows,
        h' ∙ ap (λ hs. hs ++ rows) h ∙ append_assoc db.history (row ∷ []) rows,
        (l, ls),
        elim count [
          | inl all ↦ inl (ap suc all)
          | inr (few, gone) ↦ inr (omega (arith, few), gone)
        ],
      )
  go_down-RolledBack n db next (after, some end) ih (inl failed) e = elim (failed e) [ ]
  go_down-RolledBack n db next (after, some end) ih (inr (h, gone)) e =
      ([], h ∙ sym (append-nil db.history), tt, inr (omega arith, gone))

  down_rounds-RolledBack :
      (n : ℕ) (db : Db)
      → Fresh db
      → (down_rounds sha down idx n db).1 ≡ rolled_back
      → RolledBack n db (down_rounds sha down idx n db).0
  unfolding down_rounds
  down_rounds-RolledBack zero db f e = ([], sym (append-nil db.history), tt, inl refl)
  down_rounds-RolledBack (suc n) db f e =
      go_down-RolledBack n db (down_rounds sha down idx n) (down_round sha down idx db)
        (down_rounds-RolledBack n) (down_round-Round db f) e

  is_positive :
      (none_asked : Bool) (db : Db) (rest : Db × DownEnd)
      → (if none_asked then (db, not_positive) else rest).1 ≡ rolled_back
      → (none_asked ≡ false) × ((if none_asked then (db, not_positive) else rest) ≡ rest)
  is_positive true db rest e = cc
  is_positive false db rest e = (refl, refl)

  -- On a history whose identifiers are all below the next, a rollback that is reported as done was
  -- of at least one step, and has only added rows, each of a step down that succeeded: as many as
  -- the steps that were asked for, or fewer if no version is left.
  pub run_down_steps-RolledBack :
      (n : ℕ) (db : Db)
      → Fresh db
      → (run_down_steps sha down idx n db).1 ≡ rolled_back
      → (0 < n) × RolledBack n db (run_down_steps sha down idx n db).0
  unfolding run_down_steps
  run_down_steps-RolledBack n db f e =
      let (some_step, passed) = is_positive (n == 0) db (down_rounds sha down idx n db) e in
      (
        ground (arith, some_step),
        rw passed (down_rounds-RolledBack n db f (sym (ap (λ r. r.1) passed) ∙ e)),
      )
