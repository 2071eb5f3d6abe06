-- ===== src/Cache/Expiry.antt =====
-- When the cache gives a value back: the sweep never shows, a read and a delete take it once.
use axiaops.Common.{
  leb, if◌then◌else◌, length, ◌==◌, string_eq, nat_eq, ℕ, ◌+◌, ◌≤◌, ◌<◌, String, ◌≡◌, refl, Bool,
  true, false, not, ◌&&◌, ◌||◌, none, some, List, [], ◌∷◌, arith,
}
use axiaops.Common.Dict.{Dict, lookup, lookup-insert, lookup-erase}
use axiaops.Cache.{
  Entry, Cache, unexpired, get, set, del, get_del, bumped, counter_at, incr, sweep_items, sweep,
}

-- A map holds no key twice, as Go's maps do not.
unfoldable pub has_key {ℓ} : {V : Type ℓ} → String → Dict String V → Bool
has_key k [] = false
has_key k ((j, v) ∷ d) = k == j || has_key k d

unfoldable pub distinct {ℓ} : {V : Type ℓ} → Dict String V → Bool
unfolding has_key
distinct [] = true
distinct ((k, v) ∷ d) = not (has_key k d) && distinct d

lookup-absent {ℓ} :
    {V : Type ℓ} (k : String) (d : Dict String V) → has_key k d ≡ false → lookup k d ≡ none
unfolding has_key lookup
lookup-absent k [] h = refl
lookup-absent k (_ ∷ d) h = ground (arith, lookup-absent k d)

module _ {ℓ} {V : Type ℓ} where
  sweep_absent :
      (now : ℕ) (k : String) (d : Dict String (Entry V))
      → has_key k d ≡ false
      → has_key k (sweep_items now d) ≡ false
  unfolding has_key sweep_items
  sweep_absent now k [] h = refl
  sweep_absent now k (_ ∷ d) h = ground (arith, sweep_absent now k d)

  unexpired-sweep :
      (now later : ℕ) (k : String) (d : Dict String (Entry V))
      → now ≤ later
      → distinct d ≡ true
      → unexpired later (lookup k (sweep_items now d)) ≡ unexpired later (lookup k d)
  unfolding distinct lookup sweep_items
  unexpired-sweep now later k [] h u = refl
  unexpired-sweep now later k ((j, e) ∷ d) h u = ground (
    arith,
    unexpired-sweep now later k d,
    sweep_absent now k d,
    lookup-absent k d,
    lookup-absent k (sweep_items now d),
  )

  -- In a map with no key twice, a read at the time of a sweep or later gives the same whether the
  -- sweep ran or not.
  pub get-sweep :
      (now later : ℕ) (k : String) (c : Cache V)
      → now ≤ later
      → distinct c.items ≡ true
      → get later k (sweep now c) ≡ get later k c
  unfolding get sweep
  get-sweep now later k c h u = unexpired-sweep now later k c.items h u

  -- After `Set` a read gives the value up to the end of its time to live and nothing later, and
  -- other keys read as before.
  pub get-set :
      (now later : ℕ) (j k : String) (v : V) (ttl : ℕ) (c : Cache V)
      → get later j (set now k v ttl c)
        ≡ (if j == k then (if leb later (now + ttl) then some v else none) else get later j c)
  unfolding get set
  get-set now later j k v ttl c =
      ground (arith, lookup-insert j k (record { value = v; expires_at = now + ttl }) c.items)

  -- `GetDel` gives what a read gives, and whatever comes after it, a second `GetDel` of the key
  -- gives nothing; other keys read as before.
  pub get_del_once :
      (now later : ℕ) (j k : String) (c : Cache V)
      → ((get_del now k c).1 ≡ get now k c)
        × ((get_del later k (get_del now k c).0).1 ≡ none)
        × ((j == k) ≡ false → get later j (get_del now k c).0 ≡ get later j c)
  unfolding get_del get del
  get_del_once now later j k c = ground (arith, lookup-erase k k c.items, lookup-erase j k c.items)

-- `n` calls of `Incr` on one key.
pub incr_all {ℓ} : {V : Type ℓ} → String → ℕ → List ℕ → Cache V → Cache V
incr_all key ttl [] c = c
incr_all key ttl (now ∷ ts) c = incr_all key ttl ts (incr now key ttl c).0

-- Each time comes at most `ttl` after the one before, the first one after `last`.
unfoldable pub within : ℕ → ℕ → List ℕ → Bool
within ttl last [] = true
within ttl last (now ∷ ts) = leb now (last + ttl) && within ttl now ts

incr_all-from {ℓ} :
    {V : Type ℓ} (key : String) (ttl last : ℕ) (ts : List ℕ) (c : Cache V)
    → within ttl last ts ≡ true
    → (counter_at key c).expires_at ≡ last + ttl
    → (counter_at key (incr_all key ttl ts c)).val ≡ (counter_at key c).val + length ts
unfolding incr_all within incr
incr_all-from key ttl last [] c w h = omega arith
incr_all-from key ttl last (now ∷ ts) c w h = ground (
  arith,
  incr_all-from key ttl now ts (incr now key ttl c).0,
  lookup-insert key key (bumped now ttl (counter_at key c)) c.counters,
)

-- From a call of `Incr` after the counter's expiry on, the counter is the number of the calls, if
-- each further call comes at most the time to live after the one before.
pub incr_all_counts {ℓ} :
    {V : Type ℓ} (key : String) (ttl now : ℕ) (ts : List ℕ) (c : Cache V)
    → (counter_at key c).expires_at < now
    → within ttl now ts ≡ true
    → (counter_at key (incr_all key ttl (now ∷ ts) c)).val ≡ length (now ∷ ts)
unfolding incr_all incr
incr_all_counts key ttl now ts c h w = ground (
  arith,
  incr_all-from key ttl now ts (incr now key ttl c).0,
  lookup-insert key key (bumped now ttl (counter_at key c)) c.counters,
)
