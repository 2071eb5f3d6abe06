-- ===== src/Migrations/Down/Drift.antt =====
-- What a strict start has compared.
use axiaops.Common.{
  Bool-cases, In, ◌==◌, string_eq, nat_eq, ℕ, String, ◌≡◌, refl, sym, ap, inl, inr, Bool, true,
  false, Option, none, some, List, [], ◌∷◌, arith,
}
use axiaops.Migrations.{MigrationFile, HistoryRow, Db}
use axiaops.Migrations.Down.{
  expected_sum, differs, with_drift, compared, drifts_of, may_start, judged_drift, detect_drift,
}

differs-same :
    (expected : Option String) (observed s : String)
    → differs expected observed ≡ false
    → expected ≡ some s
    → observed ≡ s
differs-same none observed s d e = cc
differs-same (some expected) observed s d e = ground (arith, d, e)

with_drift-none :
    (v : ℕ) (drifted : Bool) (rest : Option (List ℕ))
    → with_drift v drifted rest ≡ some []
    → (drifted ≡ false) × (rest ≡ some [])
with_drift-none v drifted none e = cc
with_drift-none v true (some vs) e = cc
with_drift-none v false (some vs) e = (refl, e)

compared-none :
    (v : ℕ) (expected found : Option String) (rest : Option (List ℕ))
    → compared v expected found rest ≡ some []
    → rest ≡ some []
compared-none v expected none rest e = cc
compared-none v expected (some observed) rest e =
    (with_drift-none v (differs expected observed) rest e).1

compared-same :
    (v : ℕ) (expected found : Option String) (rest : Option (List ℕ)) (s : String)
    → compared v expected found rest ≡ some []
    → expected ≡ some s
    → found ≡ some s
compared-same v expected none rest s e x = cc
compared-same v expected (some observed) rest s e x =
    ap some
      (differs-same expected observed s (with_drift-none v (differs expected observed) rest e).0 x)

drifts_of-same :
    (sha : String → Option String) (rows : List HistoryRow) (idx : List MigrationFile)
    (mf : MigrationFile) (s : String)
    → drifts_of sha rows idx ≡ some []
    → In mf idx
    → (mf.up_path == "") ≡ false
    → expected_sum mf.version rows ≡ some s
    → sha mf.up_path ≡ some s
unfolding drifts_of
drifts_of-same sha rows [] mf s d i p e = elim i [ ]
drifts_of-same sha rows (n ∷ idx) mf s d (inl same) p e =
    let p' : (n.up_path == "") ≡ false = rw (sym same) p in
    rw same (
      compared-same n.version (expected_sum n.version rows) (sha n.up_path) (drifts_of sha rows idx)
        s (rw p' at d) (rw (sym same) e))
drifts_of-same sha rows (n ∷ idx) mf s d (inr later) p e = elim (Bool-cases (n.up_path == "")) [
  | inl blank ↦ drifts_of-same sha rows idx mf s (ground (arith, blank, d)) later p e
  | inr path ↦
      drifts_of-same sha rows idx mf s
        (compared-none n.version (expected_sum n.version rows) (sha n.up_path)
          (drifts_of sha rows idx) (rw path at d))
        later p e
]

judged_drift-strict :
    (found : Option (List ℕ)) → judged_drift true found ≡ may_start → found ≡ some []
judged_drift-strict none e = cc
judged_drift-strict (some []) e = refl
judged_drift-strict (some (v ∷ vs)) e = cc

-- A strict start that may go on has read every file of a step up for which the history has a
-- checksum, and the file's is the one of the last row of a step up to that version that succeeded.
pub detect_drift-strict :
    (sha : String → Option String) (idx : List MigrationFile) (db : Db) (mf : MigrationFile)
    (s : String)
    → detect_drift true sha idx db ≡ may_start
    → In mf idx
    → (mf.up_path == "") ≡ false
    → expected_sum mf.version db.history ≡ some s
    → sha mf.up_path ≡ some s
unfolding detect_drift
detect_drift-strict sha idx db mf s d i p e =
    drifts_of-same sha db.history idx mf s (judged_drift-strict (drifts_of sha db.history idx) d) i
      p e
