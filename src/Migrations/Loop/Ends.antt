-- ===== src/Migrations/Loop/Ends.antt =====
-- The loop ends, with nothing pending where no step fails.
use axiaops.Common.{
  if◌then◌else◌, Bool-cases, length, count_if, ◌==◌, string_eq, nat_eq, ℕ, zero, suc, ◌≤◌, ◌<◌,
  String, ◌<>◌, ◌≡◌, refl, sym, ◌≢◌, inl, inr, Bool, true, false, not, Option, none, some, List, [],
  ◌∷◌, arith,
}
use axiaops.Migrations.{MigrationFile, is_past, next_pending_up, by_version, Db, record_started}
use axiaops.Migrations.Loop.{
  StepResult, done, no_change, failed, Engine, LoopEnd, up_to_date, out_of_fuel, version_of, judged,
  go_on, apply_file, apply_next, up_round, up_rounds, rewound, reapplied, reapply_file,
  reapply_found, reapply_dirty, run_up_loop,
}

-- How many versions are ahead.
abbrev pub ahead : Option ℕ → List MigrationFile → ℕ
ahead current idx = count_if (λ mf. not (is_past current mf.version)) idx

next_pending-ahead :
    (current : Option ℕ) (idx : List MigrationFile) (f : MigrationFile)
    → next_pending_up current idx ≡ some f
    → is_past current f.version ≡ false
unfolding next_pending_up
next_pending-ahead current [] f h = cc
next_pending-ahead current (mf ∷ idx) f h = elim (Bool-cases (is_past current mf.version)) [
  | inl e ↦ next_pending-ahead current idx f (ground (arith, e, h))
  | inr e ↦ elim (Bool-cases (mf.up_path == "")) [
    | inl n ↦ next_pending-ahead current idx f (ground (arith, e, n, h))
    | inr n ↦ (let same : mf ≡ f = ground (arith, e, n, h) in rw (sym same) e)
  ]
]

-- Past a version that is ahead, no more are ahead than before.
ahead-le :
    (current : Option ℕ) (v : ℕ) (idx : List MigrationFile)
    → is_past current v ≡ false
    → ahead (some v) idx ≤ ahead current idx
ahead-le none v [] h = omega arith
ahead-le (some c) v [] h = omega arith
ahead-le none v (mf ∷ idx) h = ground (arith, ahead-le none v idx)
ahead-le (some c) v (mf ∷ idx) h = ground (arith, ahead-le (some c) v idx)

next_pending-fewer :
    (current : Option ℕ) (idx : List MigrationFile) (f : MigrationFile)
    → next_pending_up current idx ≡ some f
    → ahead (some f.version) idx < ahead current idx
unfolding next_pending_up
next_pending-fewer none [] f h = cc
next_pending-fewer (some c) [] f h = cc
next_pending-fewer none (mf ∷ idx) f h =
    ground (arith, next_pending-fewer none idx f, ahead-le none f.version idx)
next_pending-fewer (some c) (mf ∷ idx) f h = ground (
  arith,
  next_pending-fewer (some c) idx f,
  next_pending-ahead (some c) idx f,
  ahead-le (some c) f.version idx,
)

-- The code reads a file that the engine then applies: a step that is done leaves the version of
-- the first pending file.
abbrev pub InStep : Engine → List MigrationFile → Type 0
InStep engine idx =
    (sm : Option (ℕ × Bool)) (f : MigrationFile)
    → next_pending_up (version_of sm) idx ≡ some f
    → (engine.steps sm).0 ≡ done
    → version_of (engine.steps sm).1 ≡ some f.version

module _ (sha : String → Option String) (engine : Engine) (idx : List MigrationFile)
    (in_step : InStep engine idx) where
  abbrev pending : Db → ℕ
  pending db = ahead (version_of db.migration_state) idx

  -- A round ends the loop, at the end of the list if it says so, or leaves fewer versions ahead.
  abbrev Rounded : Db → Db × Option LoopEnd → Type 0
  Rounded db (db', none) = pending db' < pending db
  Rounded db (db', some end) =
      (end ≢ out_of_fuel)
      × (end ≡ up_to_date → next_pending_up (version_of db'.migration_state) idx ≡ none)

  judged-Rounded :
      (db started : Db) (f : MigrationFile) (answer : StepResult × Option (ℕ × Bool))
      → next_pending_up (version_of db.migration_state) idx ≡ some f
      → (answer.0 ≡ done → version_of answer.1 ≡ some f.version)
      → Rounded db (judged db.next_id started answer)
  judged-Rounded db started f (done, sm) p k =
      rw (k refl) (next_pending-fewer (version_of db.migration_state) idx f p)
  judged-Rounded db started f (no_change, sm) p k = (λ e. cc, λ e. cc)
  judged-Rounded db started f (failed message, sm) p k = (λ e. cc, λ e. cc)

  apply_file-Rounded :
      (db : Db) (f : MigrationFile) (sum : Option String)
      → next_pending_up (version_of db.migration_state) idx ≡ some f
      → Rounded db (apply_file sha engine idx db f sum)
  apply_file-Rounded db f none p = (λ e. cc, λ e. cc)
  apply_file-Rounded db f (some sum) p =
      judged-Rounded db (record_started f.version f.name "up" sum db) f
        (engine.steps db.migration_state) p (in_step db.migration_state f p)

  apply_next-Rounded :
      (db : Db) (found : Option MigrationFile)
      → next_pending_up (version_of db.migration_state) idx ≡ found
      → Rounded db (apply_next sha engine idx db found)
  apply_next-Rounded db none p = (λ e. cc, λ e. p)
  apply_next-Rounded db (some f) p = apply_file-Rounded db f (sha f.up_path) p

  abbrev pub Ended : Db × LoopEnd → Type 0
  Ended a =
      (a.1 ≢ out_of_fuel)
      × (a.1 ≡ up_to_date → next_pending_up (version_of a.0.migration_state) idx ≡ none)

  go_on-Ended :
      (db : Db) (next : Db → Db × LoopEnd) (a : Db × Option LoopEnd)
      → Rounded db a
      → ((db' : Db) → pending db' < pending db → Ended (next db'))
      → Ended (go_on next a)
  go_on-Ended db next (db', none) r k = k db' r
  go_on-Ended db next (db', some end) r k = r

  up_rounds-Ended :
      (fuel : ℕ) (db : Db) → pending db < fuel → Ended (up_rounds sha engine idx fuel db)
  unfolding up_rounds up_round
  up_rounds-Ended zero db h = ground arith
  up_rounds-Ended (suc fuel) db h =
      go_on-Ended db (up_rounds sha engine idx fuel) (up_round sha engine idx db)
        (apply_next-Rounded db _ refl) (λ db' less. up_rounds-Ended fuel db' (omega arith))

  abbrev Refused : Db × Option LoopEnd → Type 0
  Refused (db, none) = Unit {0}
  Refused (db, some end) = (end ≢ out_of_fuel) × (end ≢ up_to_date)

  reapplied-Refused :
      (id : ℕ) (db : Db) (answer : StepResult × Option (ℕ × Bool))
      → Refused (reapplied sha engine idx id db answer)
  reapplied-Refused id db (done, sm) = tt
  reapplied-Refused id db (no_change, sm) = (λ e. cc, λ e. cc)
  reapplied-Refused id db (failed message, sm) = (λ e. cc, λ e. cc)

  reapply_file-Refused :
      (db : Db) (mf : MigrationFile) (v : ℕ) (sum : Option String)
      → Refused (reapply_file sha engine idx db mf v sum)
  reapply_file-Refused db mf v none = (λ e. cc, λ e. cc)
  reapply_file-Refused db mf v (some sum) = elim (Bool-cases engine.force_works) [
    | inl b ↦ rw b (
        reapplied-Refused db.next_id (record_started v (mf.name <> " (dirty-recovery)") "up" sum db)
          (engine.steps (rewound sha engine idx v)))
    | inr b ↦ rw b (λ e. cc, λ e. cc)
  ]

  reapply_dirty-Refused : (db : Db) → Refused (reapply_dirty sha engine idx db)
  unfolding reapply_dirty
  reapply_dirty-Refused db = state_cases db.migration_state
    where
      found : (v : ℕ) (mf : Option MigrationFile) → Refused (reapply_found sha engine idx db v mf)
      found v none = (λ e. cc, λ e. cc)
      found v (some mf) = reapply_file-Refused db mf v _

      state_cases :
          (sm : Option (ℕ × Bool))
          → Refused (elim sm [
            | none ↦ (db, none)
            | some (v, dirty) ↦
                if dirty then reapply_found sha engine idx db v (by_version v idx) else (db, none)
          ])
      state_cases none = tt
      state_cases (some (v, true)) = found v (by_version v idx)
      state_cases (some (v, false)) = tt

  ahead-le-length : (current : Option ℕ) (l : List MigrationFile) → ahead current l ≤ length l
  ahead-le-length current [] = omega arith
  ahead-le-length current (mf ∷ l) = ground (arith, ahead-le-length current l)

  go_on-Refused :
      (next : Db → Db × LoopEnd) (a : Db × Option LoopEnd)
      → Refused a
      → ((db' : Db) → Ended (next db'))
      → Ended (go_on next a)
  go_on-Refused next (db', none) r k = k db'
  go_on-Refused next (db', some end) (no_fuel, late) k = (no_fuel, λ e. elim (late e) [ ])

  -- With an engine that applies the file that the code has read, one round more than there are
  -- versions is enough for the loop to end, whatever the state at the start, whatever steps fail
  -- and whatever a dirty version needs; and where it says that all is applied, no version with an up
  -- file is ahead of the state.
  pub run_up_loop-Ended :
      (db : Db)
      → ((run_up_loop sha engine idx (suc (length idx)) db).1 ≢ out_of_fuel)
        × ((run_up_loop sha engine idx (suc (length idx)) db).1 ≡ up_to_date
            → next_pending_up
                (version_of (run_up_loop sha engine idx (suc (length idx)) db).0.migration_state)
                idx
              ≡ none)
  unfolding run_up_loop
  run_up_loop-Ended db =
      go_on-Refused (up_rounds sha engine idx (suc (length idx))) (reapply_dirty sha engine idx db)
        (reapply_dirty-Refused db)
        (λ db'.
          up_rounds-Ended (suc (length idx)) db'
            (omega (arith, ahead-le-length (version_of db'.migration_state) idx)))
