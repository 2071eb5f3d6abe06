-- ===== src/Cache/Tests.antt =====
-- Reads around the end of an entry's life, and counting.
use axiaops.Common.{◌==◌, string_eq, nat_eq, ℕ, ◌<◌, String, ◌≡◌, refl, false, none, [], ◌∷◌, arith}
use axiaops.Common.Dict.{lookup}
use axiaops.Cache.{Cache, get, set, get_del, counter_at, sweep}
use axiaops.Cache.Expiry.{
  has_key, distinct, get-sweep, get-set, get_del_once, incr_all, within, incr_all_counts,
}

abbrev stored : Cache ℕ
stored = record {
  items =
      ("a", record { value = 7; expires_at = 100 })
      ∷ ("b", record { value = 8; expires_at = 50 })
      ∷ [];
  counters = ("hits", record { val = 9; expires_at = 40 }) ∷ [];
}

get-sweep_test : get 90 "b" (sweep 60 stored) ≡ get 90 "b" stored
unfolding distinct has_key string_eq
get-sweep_test = get-sweep 60 90 "b" stored (omega arith) refl

get-set_test : get 151 "b" (set 60 "a" 9 90 stored) ≡ get 151 "b" stored
unfolding string_eq
get-set_test = get-set 60 151 "b" "a" 9 90 stored

get_del_once_test :
    ((get_del 60 "a" stored).1 ≡ get 60 "a" stored)
    × ((get_del 61 "a" (get_del 60 "a" stored).0).1 ≡ none)
    × (◌==◌ {A = String} "b" "a" ≡ false → get 61 "b" (get_del 60 "a" stored).0 ≡ get 61 "b" stored)
get_del_once_test = get_del_once 60 61 "b" "a" stored

incr_all_counts_test : (counter_at "hits" (incr_all "hits" 30 (50 ∷ 80 ∷ 110 ∷ []) stored)).val ≡ 3
unfolding within string_eq lookup
incr_all_counts_test =
    let p : 40 < 50 = omega arith in incr_all_counts "hits" 30 50 (80 ∷ 110 ∷ []) stored p refl
