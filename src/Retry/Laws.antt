-- ===== src/Retry/Laws.antt =====
-- What `Do` does in every environment: how often it calls and what it returns.
use axiaops.Common.{
  Bool-cases, ◌==◌, string_eq, nat_eq, ℕ, zero, suc, ◌+◌, ◌≤◌, ◌<◌, ◌≡◌, refl, ap, ◌⊎◌, inl, inr,
  Bool, true, false, Option, none, some, List, [], ◌∷◌, arith,
}
use axiaops.ScanError.{GoError}
use axiaops.Retry.{
  Config, is_retryable, backoff, Entry, called, waited, Result, returned, context_done, Report,
  do_loop, retry, after_call, before_call,
}

-- The calls of `fn` and the waits in a log.
abbrev pub calls : List Entry → ℕ
calls [] = 0
calls (called r ∷ es) = suc (calls es)
calls (waited d ∷ es) = calls es

-- What the last call returned, or `last` if there was none.
abbrev pub last_result : Option GoError → List Entry → Option GoError
last_result last [] = last
last_result last (called r ∷ es) = last_result r es
last_result last (waited d ∷ es) = last_result last es

-- Every call that something follows returned an error that is retried.
abbrev pub Retried : List Entry → Type 0
Retried [] = Unit
Retried (called r ∷ []) = Unit
Retried (called r ∷ e ∷ es) = (is_retryable r ≡ true) × Retried (e ∷ es)
Retried (waited d ∷ es) = Retried es

-- Why the loop ended, for `n` rounds.
abbrev pub Justified : ℕ → Option GoError → List Entry → Result → Type 0
Justified n last log (returned r) =
    (r ≡ last_result last log) × ((is_retryable r ≡ false) ⊎ (calls log ≡ n))
Justified n last log context_done = (is_retryable (last_result last log) ≡ true) × (calls log < n)

Retried-called :
    (err : GoError) (es : List Entry)
    → is_retryable (some err) ≡ true
    → Retried es
    → Retried (called (some err) ∷ es)
Retried-called err [] h r = tt
Retried-called err (e ∷ es) h r = (h, r)

-- What a run of `n` rounds is known to do.
abbrev pub Sound {ℓ} : {W : Type ℓ} → ℕ → Option GoError → Report W → Type 0
Sound n last rep = (calls rep.log ≤ n) × Retried rep.log × Justified n last rep.log rep.result

Justified-called :
    (n : ℕ) (last : Option GoError) (err : GoError) (log : List Entry) (r : Result)
    → Justified n (some err) log r
    → Justified (suc n) last (called (some err) ∷ log) r
Justified-called n last err log (returned r) (e, inl h) = (e, inl h)
Justified-called n last err log (returned r) (e, inr h) = (e, inr (ap suc h))
Justified-called n last err log context_done (h, l) = (h, omega arith)

after_call-Sound {ℓ} :
    {W : Type ℓ} (n : ℕ) (last : Option GoError) (r : W × Option GoError)
    (again : Option GoError → W → Report W)
    → ((err : GoError) (w : W)
        → is_retryable (some err) ≡ true
        → Sound n (some err) (again (some err) w))
    → Sound (suc n) last (after_call r again)
after_call-Sound n last (w, none) again ih =
    (omega arith, tt, (refl, inl (unfold is_retryable in refl)))
after_call-Sound n last (w, some err) again ih = elim (Bool-cases (is_retryable (some err))) [
  | inl h ↦
      let rest = again (some err) w in
      let s : Sound n (some err) rest = ih err w h in
      rw h (
        omega arith,
        Retried-called err rest.log h s.1,
        Justified-called n last err rest.log rest.result s.2,
      )
  | inr h ↦ rw h (omega arith, tt, (refl, inl h))
]

Justified-waited :
    (n : ℕ) (last : Option GoError) (d : ℕ) (log : List Entry) (r : Result)
    → Justified n last log r
    → Justified n last (waited d ∷ log) r
Justified-waited n last d log (returned r) h = h
Justified-waited n last d log context_done h = h

before_call-Sound {ℓ} :
    {W : Type ℓ} (n : ℕ) (last : Option GoError) (first cancelled : Bool) (d : ℕ) (w : W)
    (rest : Report W)
    → (first ≡ false → is_retryable last ≡ true)
    → Sound (suc n) last rest
    → Sound (suc n) last (before_call first cancelled d w rest)
before_call-Sound n last true cancelled d w rest h s = s
before_call-Sound n last false true d w rest h s = (omega arith, tt, (h refl, omega arith))
before_call-Sound n last false false d w rest h s =
    (s.0, s.1, Justified-waited (suc n) last d rest.log rest.result s.2)

module _ {ℓ} {W : Type ℓ} (overflowed : ℕ → ℕ) (config : Config) (cancelled : ℕ → Bool)
    (fn : W → W × Option GoError) where
  do_loop-Sound :
      (rounds attempt : ℕ) (last : Option GoError) (w : W)
      → ((attempt == 0) ≡ false → is_retryable last ≡ true)
      → Sound rounds last (do_loop overflowed config cancelled fn rounds attempt last w)
  unfolding do_loop
  do_loop-Sound zero attempt last w h = (omega arith, tt, (refl, inr refl))
  do_loop-Sound (suc rounds) attempt last w h =
      let again = do_loop overflowed config cancelled fn rounds (attempt + 1) in
      let s : Sound (suc rounds) last (after_call (fn w) again) =
        after_call-Sound rounds last (fn w) again
          (λ err w' r. do_loop-Sound rounds (attempt + 1) (some err) w' (λ z. r)) in
      before_call-Sound rounds last (attempt == 0) (cancelled attempt)
        (backoff overflowed config attempt) w (after_call (fn w) again) h s

  -- In every environment `Do` calls `fn` at most as often as the configuration says; every call
  -- but the last returned an error that is retried; and it returns what the last call returned,
  -- which is no retried error unless all attempts are used up, or the context's error, after a
  -- retried error and with attempts left.
  pub retry-Sound :
      (w : W) → Sound config.max_attempts none (retry overflowed config cancelled fn w)
  unfolding retry nat_eq
  retry-Sound w = do_loop-Sound config.max_attempts 0 none w (λ e. cc)
