-- ===== src/Session/Selection.antt =====
-- Selecting, sorting, cutting and counting rows of sessions.
use axiaops.Common.{
  Bool-cases, length, take, count_if, All, In, ◌==◌, string_eq, nat_eq, ℕ, zero, suc, ◌+◌, ◌≤◌,
  String, ◌≡◌, refl, sym, ap, inl, inr, Bool, true, false, not, ◌&&◌, ◌||◌, List, [], ◌∷◌, map,
  arith,
}
use axiaops.Session.{Session, Rows, select, before, place, order_by_age}

unfoldable pub has_id : String → Rows → Bool
has_id id [] = false
has_id id (s ∷ rows) = s.id == id || has_id id rows

-- No two rows have one identifier.
unfoldable pub distinct_ids : Rows → Bool
unfolding has_id
distinct_ids [] = true
distinct_ids (s ∷ rows) = not (has_id s.id rows) && distinct_ids rows

abbrev pub ids : Rows → List String
ids = map (λ t. t.id)

-- Lists that are selected, sorted and cut keep what holds of their rows, and their identifiers.
pub All-select :
    (P : Session → Type 0) (p : Session → Bool) (rows : Rows)
    → All P rows
    → All (λ s. P s × (p s ≡ true)) (select p rows)
unfolding select
All-select P p [] a = tt
All-select P p (s ∷ rows) (h, a) = elim (Bool-cases (p s)) [
  | inl hit ↦ rw hit ((h, hit), All-select P p rows a)
  | inr miss ↦ rw miss (All-select P p rows a)
]

pub All-place :
    (P : Session → Type 0) (s : Session) (rows : Rows) → P s → All P rows → All P (place s rows)
unfolding place
All-place P s [] h a = (h, tt)
All-place P s (t ∷ rows) h (k, a) = elim (Bool-cases (before t s)) [
  | inl hit ↦ rw hit (k, All-place P s rows h a)
  | inr miss ↦ rw miss (h, (k, a))
]

pub All-order_by_age : (P : Session → Type 0) (rows : Rows) → All P rows → All P (order_by_age rows)
unfolding order_by_age
All-order_by_age P [] a = tt
All-order_by_age P (s ∷ rows) (h, a) =
    All-place P s (order_by_age rows) h (All-order_by_age P rows a)

pub All-take : (P : Session → Type 0) (n : ℕ) (rows : Rows) → All P rows → All P (take n rows)
All-take P zero rows a = tt
All-take P (suc n) [] a = tt
All-take P (suc n) (s ∷ rows) (h, a) = (h, All-take P n rows a)

pub has_id-select :
    (p : Session → Bool) (id : String) (rows : Rows)
    → has_id id rows ≡ false
    → has_id id (select p rows) ≡ false
unfolding select has_id
has_id-select p id [] h = h
has_id-select p id (s ∷ rows) h = ground (arith, has_id-select p id rows)

pub distinct_ids-select :
    (p : Session → Bool) (rows : Rows)
    → distinct_ids rows ≡ true
    → distinct_ids (select p rows) ≡ true
unfolding distinct_ids select
distinct_ids-select p [] h = h
distinct_ids-select p (s ∷ rows) h =
    ground (arith, distinct_ids-select p rows, has_id-select p s.id rows)

pub has_id-place :
    (id : String) (s : Session) (rows : Rows)
    → has_id id (place s rows) ≡ (s.id == id || has_id id rows)
unfolding has_id place
has_id-place id s [] = refl
has_id-place id s (t ∷ rows) = ground (arith, has_id-place id s rows)

pub distinct_ids-place :
    (s : Session) (rows : Rows)
    → has_id s.id rows ≡ false
    → distinct_ids rows ≡ true
    → distinct_ids (place s rows) ≡ true
unfolding distinct_ids place
distinct_ids-place s [] h d = ground arith
distinct_ids-place s (t ∷ rows) h d =
    ground (arith, distinct_ids-place s rows, has_id-place t.id s rows)

pub has_id-order : (id : String) (rows : Rows) → has_id id (order_by_age rows) ≡ has_id id rows
unfolding has_id order_by_age
has_id-order id [] = refl
has_id-order id (s ∷ rows) =
    ground (arith, has_id-order id rows, has_id-place id s (order_by_age rows))

pub distinct_ids-order :
    (rows : Rows) → distinct_ids rows ≡ true → distinct_ids (order_by_age rows) ≡ true
unfolding distinct_ids order_by_age
distinct_ids-order [] h = h
distinct_ids-order (s ∷ rows) h = ground (
  arith,
  distinct_ids-order rows,
  has_id-order s.id rows,
  distinct_ids-place s (order_by_age rows),
)

pub has_id-take :
    (id : String) (n : ℕ) (rows : Rows) → has_id id rows ≡ false → has_id id (take n rows) ≡ false
unfolding has_id
has_id-take id zero rows h = refl
has_id-take id (suc n) [] h = refl
has_id-take id (suc n) (s ∷ rows) h = ground (arith, has_id-take id n rows)

pub distinct_ids-take :
    (n : ℕ) (rows : Rows) → distinct_ids rows ≡ true → distinct_ids (take n rows) ≡ true
unfolding distinct_ids
distinct_ids-take zero rows h = refl
distinct_ids-take (suc n) [] h = refl
distinct_ids-take (suc n) (s ∷ rows) h =
    ground (arith, distinct_ids-take n rows, has_id-take s.id n rows)

pub length-select : (p : Session → Bool) (rows : Rows) → length (select p rows) ≡ count_if p rows
unfolding select
length-select p [] = refl
length-select p (s ∷ rows) = ground (arith, length-select p rows)

pub length-place : (s : Session) (rows : Rows) → length (place s rows) ≡ suc (length rows)
unfolding place
length-place s [] = refl
length-place s (t ∷ rows) = ground (arith, length-place s rows)

pub length-order_by_age : (rows : Rows) → length (order_by_age rows) ≡ length rows
unfolding order_by_age
length-order_by_age [] = refl
length-order_by_age (s ∷ rows) =
    ground (arith, length-order_by_age rows, length-place s (order_by_age rows))

pub length-take : (n : ℕ) (rows : Rows) → n ≤ length rows → length (take n rows) ≡ n
length-take zero rows h = refl
length-take (suc n) [] h = omega arith
length-take (suc n) (s ∷ rows) h = omega (arith, length-take n rows (omega arith))

-- Taking the row of one identifier out of a count.
pub count_but_none :
    (q : Session → Bool) (id : String) (rows : Rows)
    → has_id id rows ≡ false
    → count_if (λ s. q s && not (s.id == id)) rows ≡ count_if q rows
unfolding has_id
count_but_none q id [] h = refl
count_but_none q id (s ∷ rows) h = ground (arith, count_but_none q id rows)

pub has_id-In : (c : Session) (rows : Rows) → In c rows → has_id c.id rows ≡ true
unfolding has_id
has_id-In c [] i = elim i [ ]
has_id-In c (s ∷ rows) (inl e) = let e' : c.id ≡ s.id = ap (λ t. t.id) e in ground arith
has_id-In c (s ∷ rows) (inr i) = ground (arith, has_id-In c rows i)

pub count_but_one :
    (q : Session → Bool) (c : Session) (rows : Rows)
    → distinct_ids rows ≡ true
    → In c rows
    → q c ≡ true
    → count_if (λ s. q s && not (s.id == c.id)) rows + 1 ≡ count_if q rows
unfolding distinct_ids
count_but_one q c [] d i h = elim i [ ]
count_but_one q c (s ∷ rows) d (inl e) h =
    let e' : c.id ≡ s.id = ap (λ t. t.id) e in
    let h' : q s ≡ true = rw (sym e) h in ground (arith, count_but_none q c.id rows)
count_but_one q c (s ∷ rows) d (inr i) h =
    ground (arith, count_but_one q c rows, has_id-In c rows i)
