-- ===== src/RateLimit/Caps.antt =====
-- The limits bound what passes: counters of the cache that are bumped in one minute.
use axiaops.Common.{
  ltb, if◌then◌else◌, Bool-cases, All, ◌==◌, string_eq, nat_eq, ℕ, ◌+◌, ◌-◌, ◌≤◌, ◌<◌, String, ◌≡◌,
  refl, ap, inl, inr, Bool, true, false, ◌&&◌, some, List, [], ◌∷◌, arith,
}
use axiaops.Common.Dict.{lookup, insert, lookup-insert}
use axiaops.Cache.{Cache, Counter, counter_at, incr, bumped}
use axiaops.RateLimit.{login_counter_ttl, try_incr, over}

-- What a counter has counted, if it has not expired at a time.
abbrev pub live : ℕ → Counter → ℕ
live end ctr = if ltb ctr.expires_at end then 0 else ctr.val

live-bumped :
    (end now ttl : ℕ) (ctr : Counter)
    → end ≤ now + ttl
    → now ≤ end
    → (live end (bumped now ttl ctr) ≡ (bumped now ttl ctr).val)
      × (live end ctr < (bumped now ttl ctr).val)
live-bumped end now ttl ctr h₁ h₂ = (ground arith, ground arith)

module _ {ℓ} {V : Type ℓ} where
  counter_at-incr :
      (now ttl : ℕ) (key other : String) (c : Cache V)
      → counter_at key (incr now other ttl c).0
        ≡ (if key == other then bumped now ttl (counter_at other c) else counter_at key c)
  unfolding incr
  counter_at-incr now ttl key other c =
      let at : lookup key (insert other (bumped now ttl (counter_at other c)) c.counters) ≡ (
          if key == other
          then some (bumped now ttl (counter_at other c))
          else lookup key c.counters) =
        lookup-insert key other (bumped now ttl (counter_at other c)) c.counters in
      elim (Bool-cases (key == other)) [ inl e ↦ ground (arith, at) | inr e ↦ ground (arith, at) ]

  unfoldable pub fresh : ℕ → String → Cache V → ℕ
  fresh end key c = live end (counter_at key c)

  -- An increment in the window loses no count.
  pub fresh-try_incr :
      (end now : ℕ) (fails : Bool) (key other : String) (c : Cache V)
      → end ≤ now + login_counter_ttl
      → now ≤ end
      → fresh end key c ≤ fresh end key (try_incr fails now other login_counter_ttl c).0
  unfolding try_incr fresh
  fresh-try_incr end now fails key other c h₁ h₂ = ground (
    arith,
    counter_at-incr now login_counter_ttl key other c,
    live-bumped end now login_counter_ttl (counter_at other c),
  )

  -- An increment that works gives the new count, and counts itself.
  pub counted-try_incr :
      (end now : ℕ) (key : String) (c : Cache V)
      → end ≤ now + login_counter_ttl
      → now ≤ end
      → (n : ℕ) × ((try_incr false now key login_counter_ttl c).1 ≡ some n)
        × (n ≡ fresh end key (try_incr false now key login_counter_ttl c).0)
        × (fresh end key c < n)
  unfolding try_incr fresh
  counted-try_incr end now key c h₁ h₂ =
      let b = live-bumped end now login_counter_ttl (counter_at key c) h₁ h₂ in
      (
        (bumped now login_counter_ttl (counter_at key c)).val,
        ap some refl,
        ground (arith, counter_at-incr now login_counter_ttl key key c, b),
        b.1,
      )

  -- An increment that works and stays within a limit finds a count below it, and raises it.
  pub within-try_incr :
      (end now cap : ℕ) (fails : Bool) (key : String) (c : Cache V)
      → end ≤ now + login_counter_ttl
      → now ≤ end
      → fails ≡ false
      → over cap (try_incr fails now key login_counter_ttl c).1 ≡ false
      → (fresh end key c < cap)
        × (fresh end key c < fresh end key (try_incr fails now key login_counter_ttl c).0)
  within-try_incr end now cap true key c h₁ h₂ f e = ground arith
  within-try_incr end now cap false key c h₁ h₂ f e =
      let (n, gives, same, more) = counted-try_incr end now key c h₁ h₂ in
      let below : over cap (some n) ≡ false = rw gives at e in (ground arith, ground arith)

module _ {ℓ κ} {A : Type ℓ} {S : Type κ} (step : A → S → S × Bool) (p : A → Bool) where
  -- How many of the requests that satisfy `p` pass.
  unfoldable pub passes : List A → S → ℕ
  passes [] s = 0
  passes (a ∷ xs) s = let (s', passed) = step a s in (if p a && passed then 1 else 0) + passes xs s'

  -- If a step loses no count, and counts a request that passes below the limit, then the limit
  -- bounds the requests that pass.
  pub passes-le :
      (Ok : A → Type 0) (count : S → ℕ) (cap : ℕ)
      → ((a : A) (s : S) → Ok a → count s ≤ count (step a s).0)
      → ((a : A) (s : S)
          → Ok a
          → p a ≡ true
          → (step a s).1 ≡ true
          → (count s < cap) × (count s < count (step a s).0))
      → (xs : List A) (s : S) → All Ok xs
      → passes xs s ≤ cap - count s
  unfolding passes
  passes-le Ok count cap keeps counts [] s h = ground arith
  passes-le Ok count cap keeps counts (a ∷ xs) s (h, hs) =
      let ih = passes-le Ok count cap keeps counts xs (step a s).0 hs in
      let k = keeps a s h in
      elim (Bool-cases (p a && (step a s).1)) [
        | inl e ↦ (let m = counts a s h (ground arith) (ground arith) in ground (arith, ih, m, e))
        | inr e ↦ ground (arith, ih, k, e)
      ]
