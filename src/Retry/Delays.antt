-- ===== src/Retry/Delays.antt =====
-- How long `Do` waits in every environment.
use axiaops.Common.{
  ltb, if◌then◌else◌, length, string_eq, ℕ, zero, suc, ◌+◌, ◌*◌, ◌≡◌, List, [], ◌∷◌,
}
use axiaops.Retry.{Config, backoff, Entry, called, waited}

abbrev pub waits : List Entry → List ℕ
waits [] = []
waits (called r ∷ es) = waits es
waits (waited d ∷ es) = d ∷ waits es

abbrev pub delays_from : (ℕ → ℕ) → Config → ℕ → ℕ → List ℕ
delays_from overflowed config attempt zero = []
delays_from overflowed config attempt (suc n) =
    backoff overflowed config attempt ∷ delays_from overflowed config (attempt + 1) n

-- The waits of a log are the delays from the given attempt on.
abbrev pub Delays : (ℕ → ℕ) → Config → ℕ → List Entry → Type 0
Delays overflowed config attempt log =
    waits log ≡ delays_from overflowed config attempt (length (waits log))

-- `n` delays, each the double of the one before, from `delay` on, and capped.
abbrev pub doublings : Config → ℕ → ℕ → List ℕ
doublings config delay zero = []
doublings config delay (suc n) =
    (if ltb config.max_delay delay then config.max_delay else delay)
    ∷ doublings config (delay * 2) n

abbrev pub Doubling : Config → List ℕ → Type 0
Doubling config delays = delays ≡ doublings config config.base_delay (length delays)
