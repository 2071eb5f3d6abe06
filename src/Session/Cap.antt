-- ===== src/Session/Cap.antt =====
-- The cap on the live sessions of a user.
use axiaops.Common.{
  if◌then◌else◌, length, take, count_if, All, In, ◌==◌, contains, string_eq, nat_eq, ℕ, ◌+◌, ◌-◌,
  ◌≤◌, String, ◌≡◌, refl, ◌∙◌, inl, inr, Bool, true, false, not, ◌&&◌, ◌||◌, List, [], ◌∷◌, ◌++◌,
  arith, ltb, some, map, In-append_right,
}
use axiaops.Session.{
  Session, Rows, is_live_of, is_peer, select, order_by_age, revoke_ids, taken, excess_peers,
  stamped, create_session_enforcing_cap, is_complete, Created,
}
use axiaops.Session.Selection.{
  has_id, distinct_ids, ids, All-select, All-order_by_age, All-take, distinct_ids-select,
  has_id-order, distinct_ids-order, has_id-take, distinct_ids-take, length-select,
  length-order_by_age, length-take, count_but_none, count_but_one,
}

-- A chosen row stands in the table and passes the test.
abbrev Chosen : (Session → Bool) → Rows → Session → Type 0
Chosen p rows c = In c rows × (p c ≡ true)

contains-ids : (id : String) (cs : Rows) → contains (ids cs) id ≡ has_id id cs
unfolding has_id
contains-ids id [] = refl
contains-ids id (c ∷ cs) = ground (arith, contains-ids id cs)

count_same :
    (p q : Session → Bool) (rows : Rows)
    → ((s : Session) → p s ≡ q s)
    → count_if p rows ≡ count_if q rows
count_same p q [] h = refl
count_same p q (s ∷ rows) h = ground (arith, count_same p q rows h, h s)

-- Leaving out the rows of some distinct identifiers lowers a count by their number.
count_but_ids :
    (p : Session → Bool) (rows cs : Rows)
    → distinct_ids rows ≡ true
    → distinct_ids cs ≡ true
    → All (Chosen p rows) cs
    → count_if (λ s. p s && not (contains (ids cs) s.id)) rows + length cs ≡ count_if p rows
unfolding distinct_ids
count_but_ids p rows [] d e a =
    omega (arith, count_same (λ s. p s && not (contains (ids []) s.id)) p rows (λ s. ground arith))
count_but_ids p rows (c ∷ cs) d e ((i, h), a) =
    let one =
      count_but_one (λ s. p s && not (contains (ids cs) s.id)) c rows d i
        (ground (arith, contains-ids c.id cs)) in
    let rest = count_but_ids p rows cs d (ground arith) a in
    let split =
      count_same (λ s. p s && not (contains (ids (c ∷ cs)) s.id))
        (λ s. (p s && not (contains (ids cs) s.id)) && not (s.id == c.id)) rows
        (λ s. ground arith) in
    omega (arith, one, rest, split)

-- After the revocation the peers are those that were not chosen.
count-revoke_ids :
    (now : ℕ) (user_id id : String) (is : List String) (rows : Rows)
    → count_if (is_peer now user_id id) (revoke_ids now is rows)
      ≡ count_if (λ s. is_peer now user_id id s && not (contains is s.id)) rows
unfolding revoke_ids is_peer
count-revoke_ids now user_id id is [] = refl
count-revoke_ids now user_id id is (s ∷ rows) =
    ground (arith, count-revoke_ids now user_id id is rows)

taken-has_id : (s : Session) (rows : Rows) → taken s rows ≡ false → has_id s.id rows ≡ false
unfolding taken has_id
taken-has_id s [] t = refl
taken-has_id s (r ∷ rows) t = ground (arith, taken-has_id s rows)

has_id-append :
    (id : String) (rows : Rows) (s : Session)
    → has_id id (rows ++ s ∷ []) ≡ (has_id id rows || s.id == id)
unfolding has_id
has_id-append id [] s = ground arith
has_id-append id (r ∷ rows) s = ground (arith, has_id-append id rows s)

distinct_ids-append :
    (rows : Rows) (s : Session)
    → distinct_ids rows ≡ true
    → has_id s.id rows ≡ false
    → distinct_ids (rows ++ s ∷ []) ≡ true
unfolding distinct_ids has_id
distinct_ids-append [] s d t = refl
distinct_ids-append (r ∷ rows) s d t =
    ground (arith, distinct_ids-append rows s, has_id-append r.id rows s)

All-weaken :
    (P Q : Session → Type 0) (rows : Rows) → ((s : Session) → P s → Q s) → All P rows → All Q rows
All-weaken P Q [] h a = tt
All-weaken P Q (s ∷ rows) h (k, a) = (h s k, All-weaken P Q rows h a)

All-In : (rows : Rows) → All (λ c. In c rows) rows
All-In [] = tt
All-In (s ∷ rows) =
    (inl refl, All-weaken (λ c. In c rows) (λ c. In c (s ∷ rows)) rows (λ c i. inr i) (All-In rows))

-- The revocation leaves as many peers as the cap has room for beside the new row.
count-excess :
    (now per_user_cap : ℕ) (s : Session) (rows : Rows)
    → distinct_ids rows ≡ true
    → (per_user_cap == 0) ≡ false
    → let peers = count_if (is_peer now s.user_id s.id) in
      peers (revoke_ids now (ids (excess_peers now per_user_cap s rows)) rows)
        + (peers rows + 1 - per_user_cap)
      ≡ peers rows
unfolding excess_peers nat_eq
count-excess now per_user_cap s rows d c =
    let positive : 1 ≤ per_user_cap = ground arith in
    let p = is_peer now s.user_id s.id in
    let sorted = order_by_age (select p rows) in
    let n = count_if p rows + 1 - per_user_cap in
    let size =
      length-take n sorted
        (omega (arith, length-order_by_age (select p rows), length-select p rows, positive)) in
    let chosen = All-take (Chosen p rows) n sorted (
      All-order_by_age (Chosen p rows) (select p rows)
        (All-select (λ c. In c rows) p rows (All-In rows))) in
    let apart =
      distinct_ids-take n sorted
        (distinct_ids-order (select p rows) (distinct_ids-select p rows d)) in
    omega (
      arith,
      size,
      count-revoke_ids now s.user_id s.id (ids (take n sorted)) rows,
      count_but_ids p rows (take n sorted) d apart chosen,
    )

-- What the creation leaves of the other rows and of the new one.
revoke_ids-append :
    (now : ℕ) (is : List String) (rows : Rows) (s : Session)
    → revoke_ids now is (rows ++ s ∷ []) ≡ revoke_ids now is rows ++ revoke_ids now is (s ∷ [])
unfolding revoke_ids
revoke_ids-append now is [] s = refl
revoke_ids-append now is (r ∷ rows) s = ground (arith, revoke_ids-append now is rows s)

has_id-revoke_ids :
    (now : ℕ) (is : List String) (id : String) (rows : Rows)
    → has_id id (revoke_ids now is rows) ≡ has_id id rows
unfolding revoke_ids has_id
has_id-revoke_ids now is id [] = refl
has_id-revoke_ids now is id (r ∷ rows) = ground (arith, has_id-revoke_ids now is id rows)

count_append :
    (p : Session → Bool) (rows : Rows) (s : Session)
    → count_if p (rows ++ s ∷ []) ≡ count_if p rows + (if p s then 1 else 0)
count_append p [] s = omega arith
count_append p (r ∷ rows) s = omega (arith, count_append p rows s)

has_id-peers :
    (now : ℕ) (user_id id : String) (rows : Rows)
    → has_id id (select (is_peer now user_id id) rows) ≡ false
unfolding has_id select is_peer
has_id-peers now user_id id [] = refl
has_id-peers now user_id id (r ∷ rows) = ground (arith, has_id-peers now user_id id rows)

-- The new row is never among the rows that are revoked.
spares_new :
    (now per_user_cap : ℕ) (s : Session) (rows : Rows)
    → contains (ids (excess_peers now per_user_cap s rows)) s.id ≡ false
unfolding excess_peers
spares_new now per_user_cap s rows =
    let p = is_peer now s.user_id s.id in
    let n = count_if p rows + 1 - per_user_cap in
    contains-ids s.id (take n (order_by_age (select p rows)))
    ∙ has_id-take s.id n (order_by_age (select p rows))
        (has_id-order s.id (select p rows) ∙ has_id-peers now s.user_id s.id rows)

count-is_peer :
    (now : ℕ) (user_id id : String) (rows : Rows)
    → has_id id rows ≡ false
    → count_if (is_peer now user_id id) rows ≡ count_if (is_live_of now user_id) rows
unfolding is_peer
count-is_peer now user_id id rows h = count_but_none (is_live_of now user_id) id rows h

-- The table after a creation, and the identifiers that it revokes.
abbrev rows1 : ℕ → Session → Rows → Rows
rows1 now s rows = rows ++ stamped now s ∷ []

abbrev over : ℕ → Session → ℕ → Rows → List String
over now s per_user_cap rows =
    ids (excess_peers now per_user_cap (stamped now s) (rows1 now s rows))

rows-created :
    (now : ℕ) (s : Session) (per_user_cap : ℕ) (rows : Rows)
    → revoke_ids now (over now s per_user_cap rows) (rows1 now s rows)
      ≡ revoke_ids now (over now s per_user_cap rows) rows ++ stamped now s ∷ []
unfolding revoke_ids
rows-created now s per_user_cap rows =
    let spared = spares_new now per_user_cap (stamped now s) (rows1 now s rows) in
    revoke_ids-append now (over now s per_user_cap rows) rows (stamped now s) ∙ rw spared refl

live-created :
    (now : ℕ) (s : Session) (per_user_cap : ℕ) (rows : Rows)
    → distinct_ids rows ≡ true
    → has_id s.id rows ≡ false
    → (per_user_cap == 0) ≡ false
    → ltb now s.expires_at ≡ true
    → let n = count_if (is_live_of now s.user_id) rows in
      count_if
        (is_live_of now s.user_id)
        (revoke_ids now (over now s per_user_cap rows) (rows1 now s rows))
      ≡ (if ltb n per_user_cap then n + 1 else per_user_cap)
unfolding is_live_of is_peer nat_eq
live-created now s per_user_cap rows d h c l =
    let is = over now s per_user_cap rows in
    let left = revoke_ids now is rows in
    let t = stamped now s in
    let e = count-excess now per_user_cap t (rows1 now s rows) (distinct_ids-append rows t d h) c in
    let e' = rw (rows-created now s per_user_cap rows) at e in
    let new_live : is_live_of now s.user_id t ≡ true = ground arith in
    let no_peer : is_peer now s.user_id s.id t ≡ false = ground arith in
    let others = count-is_peer now s.user_id s.id rows h in
    let others' = count-is_peer now s.user_id s.id left (has_id-revoke_ids now is s.id rows ∙ h) in
    rw (rows-created now s per_user_cap rows) (
      ground (
        arith,
        new_live,
        no_peer,
        others,
        others',
        count_append (is_live_of now s.user_id) left t,
        count_append (is_peer now s.user_id s.id) left t,
        count_append (is_peer now s.user_id s.id) rows t,
      ))

-- Where no two rows have one identifier, the creation of a session that ends later than now, with
-- complete arguments, a new identifier and a new token hash, succeeds for every positive cap: the
-- new session is in the table and not revoked, and the user has one live session
-- more than before, or as many as the cap if they had that many or more.
pub create_session_enforcing_cap_lem :
    (now : ℕ) (s : Session) (per_user_cap : ℕ) (rows : Rows)
    → is_complete s ≡ true
    → taken s rows ≡ false
    → distinct_ids rows ≡ true
    → (per_user_cap == 0) ≡ false
    → ltb now s.expires_at ≡ true
    → (r : Created) × (create_session_enforcing_cap now s per_user_cap rows ≡ some r)
      × In (stamped now s) r.rows
      × (let n = count_if (is_live_of now s.user_id) rows in
          count_if (is_live_of now s.user_id) r.rows
          ≡ (if ltb n per_user_cap then n + 1 else per_user_cap))
unfolding create_session_enforcing_cap
create_session_enforcing_cap_lem now s per_user_cap rows k t d c l =
    let oldest = excess_peers now per_user_cap (stamped now s) (rows1 now s rows) in
    (
      record {
        rows = revoke_ids now (ids oldest) (rows1 now s rows);
        session = stamped now s;
        revoked_hashes = map (λ t. t.session_token_hash) oldest;
      },
      rw (k, t, c) refl,
      rw (rows-created now s per_user_cap rows) (
          In-append_right (stamped now s) (revoke_ids now (ids oldest) rows) (stamped now s ∷ [])
            (inl refl)),
      live-created now s per_user_cap rows d (taken-has_id s rows t) c l,
    )
