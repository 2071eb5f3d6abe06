-- ===== src/Cache.antt =====
-- The in-memory cache, services/shared/cache/memory/memory.go. A value is of any type where the
-- code has bytes. Times are natural numbers, the clock reads are arguments; an operation runs
-- under the cache's lock and is one step. Two maps, of entries and of counters.
pub mod Expiry
mod Tests
use axiaops.Common.{
  ltb, if◌then◌else◌, is_some, or_else, string_eq, nat_eq, ℕ, ◌+◌, String, Option, none, some, [],
  ◌∷◌, arith,
}
use axiaops.Common.Dict.{Dict, lookup, insert, erase}

pub record Entry {ℓ} (V : Type ℓ) : Type ℓ where
  pub value : V
  pub expires_at : ℕ

-- `counter`; the zero `expiresAt` is 0.
pub record Counter : Type 0 where
  pub val : ℕ
  pub expires_at : ℕ

pub record Cache {ℓ} (V : Type ℓ) : Type ℓ where
  pub items : Dict String (Entry V)
  pub counters : Dict String Counter

-- What `Incr` makes of a counter.
abbrev pub bumped : ℕ → ℕ → Counter → Counter
bumped now ttl ctr = record {
  val = (if ltb ctr.expires_at now then 0 else ctr.val) + 1;
  expires_at = now + ttl;
}

unfoldable pub sweep_counters : ℕ → Dict String Counter → Dict String Counter
sweep_counters now [] = []
sweep_counters now ((k, ctr) ∷ d) =
    let rest = sweep_counters now d in if ltb ctr.expires_at now then rest else (k, ctr) ∷ rest

module _ {ℓ} {V : Type ℓ} where
  -- `New`
  abbrev pub empty : Cache V
  empty = record { items = []; counters = [] }

  abbrev pub unexpired : ℕ → Option (Entry V) → Option V
  unexpired now none = none
  unexpired now (some e) = if ltb e.expires_at now then none else some e.value

  -- `Get`; `none` is `ErrNotFound`.
  unfoldable pub get : ℕ → String → Cache V → Option V
  get now key c = unexpired now (lookup key c.items)

  -- `Set`
  unfoldable pub set : ℕ → String → V → ℕ → Cache V → Cache V
  set now key value ttl c = record c {
    items = insert key (record { value = value; expires_at = now + ttl }) c.items;
  }

  -- `Del`
  unfoldable pub del : String → Cache V → Cache V
  del key c = record c { items = erase key c.items }

  -- `GetDel`: a missing key leaves the map as it is; an expired entry goes too.
  unfoldable pub get_del : ℕ → String → Cache V → Cache V × Option V
  unfolding get del
  get_del now key c = if is_some (lookup key c.items) then (del key c, get now key c) else (c, none)

  abbrev pub counter_at : String → Cache V → Counter
  counter_at key c = or_else (lookup key c.counters) (record { val = 0; expires_at = 0 })

  -- `Incr`, with the new value.
  unfoldable pub incr : ℕ → String → ℕ → Cache V → Cache V × ℕ
  incr now key ttl c =
      let ctr = bumped now ttl (counter_at key c) in
      (record c { counters = insert key ctr c.counters }, ctr.val)

  unfoldable pub sweep_items : ℕ → Dict String (Entry V) → Dict String (Entry V)
  sweep_items now [] = []
  sweep_items now ((k, e) ∷ d) =
      let rest = sweep_items now d in if ltb e.expires_at now then rest else (k, e) ∷ rest

  -- One tick of `sweep`.
  unfoldable pub sweep : ℕ → Cache V → Cache V
  unfolding sweep_items sweep_counters
  sweep now c = record { items = sweep_items now c.items; counters = sweep_counters now c.counters }
