-- ===== src/Migrations/Down/Tests.antt =====
-- Two versions, rolled back.
use axiaops.Common.{
  if◌then◌else◌, ◌==◌, string_eq, nat_eq, ℕ, ◌<◌, String, ◌<>◌, ◌≡◌, refl, inl, inr, true, false,
  Option, none, some, List, [], ◌∷◌, map, arith,
}
use axiaops.Migrations.{MigrationFile, HistoryRow, Db}
use axiaops.Migrations.Down.{
  StepDown, rolled_back, not_positive, run_down_steps, record_force, may_start, refuses_to_start,
  detect_drift,
}
use axiaops.Migrations.Down.Drift.{detect_drift-strict}
use axiaops.Migrations.Down.Recorded.{run_down_steps-RolledBack}

abbrev file : ℕ → MigrationFile
file v = record { version = v; name = "m"; up_path = "up"; dn_path = "down" }

abbrev index : List MigrationFile
index = file 1 ∷ file 2 ∷ []

-- An engine that steps down to version 1, and from there to no version.
abbrev down : StepDown
down none = (some "no version", none)
down (some (v, dirty)) = (none, if v == 2 then some (1, false) else none)

abbrev sha : String → Option String
sha path = some ("sum of " <> path)

abbrev applied : HistoryRow
applied = record {
  id = 1;
  version = 2;
  name = "m";
  direction = "up";
  status = "succeeded";
  finished = true;
  error_message = none;
  file_sha256 = some "sum of up";
  dirty_after = some false;
}

abbrev at_two : Db
at_two = record { history = applied ∷ []; next_id = 2; migration_state = some (2, false) }

-- The third step finds no version.
lowered_twice : (run_down_steps sha down index 3 at_two).1 ≡ rolled_back
unfolding run_down_steps string_eq nat_eq
lowered_twice = refl

states :
    map (λ r. r.status) (run_down_steps sha down index 3 at_two).0.history
    ≡ "succeeded" ∷ "succeeded" ∷ "succeeded" ∷ []
unfolding run_down_steps string_eq nat_eq
states = refl

refused : (run_down_steps sha down index 0 at_two).1 ≡ not_positive
unfolding run_down_steps string_eq nat_eq
refused = refl

run_down_steps-RolledBack_example : 0 < 3
run_down_steps-RolledBack_example =
    (run_down_steps-RolledBack sha down index 3 at_two (omega arith, tt) lowered_twice).0

unchanged : detect_drift true sha index at_two ≡ may_start
unfolding detect_drift string_eq nat_eq
unchanged = refl

changed : detect_drift true (λ path. some "other") index at_two ≡ refuses_to_start (2 ∷ [])
unfolding detect_drift string_eq nat_eq
changed = refl

detect_drift-strict_example : sha "up" ≡ some "sum of up"
unfolding detect_drift string_eq nat_eq
detect_drift-strict_example =
    detect_drift-strict sha index at_two (file 2) "sum of up" unchanged (inr (inl refl)) refl refl

forced : map (λ r. r.name) (record_force 7 index at_two).history ≡ "m" ∷ "unknown" ∷ []
unfolding record_force string_eq nat_eq
forced = refl
