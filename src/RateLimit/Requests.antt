-- ===== src/RateLimit/Requests.antt =====
-- What gets through the limit on a subject in one minute, and what a refused client is told.
use axiaops.Common.{
  Bool-cases, All, ◌==◌, string_eq, nat_eq, ℕ, ◌+◌, ◌-◌, ◌*◌, ◌≤◌, ◌<◌, String, ◌≡◌, refl, sym, ap,
  ◌∙◌, ◌⊎◌, inl, inr, Bool, true, false, not, ◌&&◌, ◌||◌, Option, none, some, List, arith,
}
use axiaops.Cache.{Cache}
use axiaops.RateLimit.{
  second, minute, login_counter_ttl, bucket_of, retry_after_for_bucket, over, try_incr, decide,
  subject_key, Request, Answer, next, next_with, too_many_requests, subject_of, answer, check, wrap,
  verdict, respond,
}
use axiaops.RateLimit.Caps.{fresh, fresh-try_incr, within-try_incr, passes, passes-le}
use axiaops.RateLimit.Login.{window_end, in_window, in_window_end}

-- A request that reads the clock in the bucket, and increments in time.
unfoldable pub request_timely : ℕ → Request → Bool
unfolding in_window
request_timely bucket r = bucket_of r.checked_at == bucket && in_window bucket r.incr_at

-- A request that the limiter counts, on a subject: its method, path and organization are none of
-- the exempt ones, and its increment works.
abbrev pub counts_for : String → Request → Bool
counts_for subject r =
    not (r.method == "OPTIONS" || r.path == "/health")
    && (not (r.organization_id == "") && (subject_of r == subject && not r.fails))

abbrev pub goes_on : Answer → Bool
goes_on next = true
goes_on (next_with d) = true
goes_on (too_many_requests d retry) = false

goes_on-answer :
    (max reset_at : ℕ) (r : Request) (n : Option ℕ)
    → goes_on (answer r (decide max reset_at n)) ≡ not (over max n)
goes_on-answer max reset_at r none = refl
goes_on-answer max reset_at r (some n) = ground arith

in_bucket :
    (bucket : ℕ) (r : Request)
    → request_timely bucket r ≡ true
    → (bucket_of r.checked_at ≡ bucket) × (in_window bucket r.incr_at ≡ true)
unfolding request_timely
in_bucket bucket r h = (ground arith, ground arith)

-- The waits that a refused client is told, if the clock does not run backwards past the start of
-- the bucket: from one second to a minute, and not ending before the next bucket starts.
retry_after-bounds :
    (bucket now : ℕ)
    → bucket * minute ≤ now
    → (second ≤ retry_after_for_bucket bucket now)
      × (retry_after_for_bucket bucket now ≤ minute)
      × ((bucket + 1) * minute ≤ now + retry_after_for_bucket bucket now)
unfolding retry_after_for_bucket
retry_after-bounds bucket now h = (ground arith, ground arith, ground arith)

module _ {ℓ} {V : Type ℓ} where
  unfoldable pub wrap_step : ℕ → Request → Cache V → Cache V × Bool
  unfolding wrap
  wrap_step max r c = let (c', reply) = wrap max r c in (c', goes_on reply)

  abbrev counted : ℕ → Request → Cache V → Cache V × Option ℕ
  counted bucket r c =
      try_incr r.fails r.incr_at (subject_key (subject_of r) bucket) login_counter_ttl c

  wrap-check :
      (max : ℕ) (r : Request) (c : Cache V)
      → (r.method == "OPTIONS" || r.path == "/health") ≡ false
      → (r.organization_id == "") ≡ false
      → wrap max r c ≡ respond r (check max (subject_of r) r.checked_at r.incr_at r.fails c)
  unfolding wrap
  wrap-check max r c e f = rw (e, f) refl

  check-counted :
      (max bucket : ℕ) (r : Request) (c : Cache V)
      → bucket_of r.checked_at ≡ bucket
      → check max (subject_of r) r.checked_at r.incr_at r.fails c
        ≡ verdict max bucket (counted bucket r c)
  unfolding check
  check-counted max bucket r c e = ap (λ b. verdict max b (counted b r c)) e

  wrap-counted :
      (max bucket : ℕ) (r : Request) (c : Cache V)
      → (r.method == "OPTIONS" || r.path == "/health") ≡ false
      → (r.organization_id == "") ≡ false
      → bucket_of r.checked_at ≡ bucket
      → wrap max r c ≡ respond r (verdict max bucket (counted bucket r c))
  wrap-counted max bucket r c e f b =
      wrap-check max r c e f ∙ ap (respond r) (check-counted max bucket r c b)

  wrap-cache :
      (max bucket : ℕ) (r : Request) (c : Cache V)
      → bucket_of r.checked_at ≡ bucket
      → ((wrap max r c).0 ≡ c) ⊎ ((wrap max r c).0 ≡ (counted bucket r c).0)
  unfolding wrap
  wrap-cache max bucket r c b = elim (Bool-cases (r.method == "OPTIONS" || r.path == "/health")) [
    | inl x ↦ inl (rw (x, wrap) refl)
    | inr x ↦ elim (Bool-cases (r.organization_id == "")) [
      | inl y ↦ inl (rw (x, y, wrap) refl)
      | inr y ↦ inr (ap (λ p. p.0) (wrap-counted max bucket r c x y b))
    ]
  ]

  fresh-wrap_step :
      (max bucket : ℕ) (key : String) (r : Request) (c : Cache V)
      → request_timely bucket r ≡ true
      → fresh (window_end bucket) key c ≤ fresh (window_end bucket) key (wrap_step max r c).0
  unfolding wrap_step
  fresh-wrap_step max bucket key r c h =
      let (b, i) = in_bucket bucket r h in
      let w = in_window_end bucket r.incr_at i in
      elim (wrap-cache max bucket r c b) [
        | inl e ↦ rw e (omega arith)
        | inr e ↦ rw e (
            fresh-try_incr (window_end bucket) r.incr_at r.fails key
              (subject_key (subject_of r) bucket) c w.0 w.1)
      ]

  counted-wrap_step :
      (max bucket : ℕ) (r : Request) (c : Cache V)
      → request_timely bucket r ≡ true
      → counts_for (subject_of r) r ≡ true
      → (wrap_step max r c).1 ≡ true
      → (fresh (window_end bucket) (subject_key (subject_of r) bucket) c < max)
        × (fresh (window_end bucket) (subject_key (subject_of r) bucket) c
            < fresh (window_end bucket) (subject_key (subject_of r) bucket) (wrap_step max r c).0)
  unfolding wrap_step
  counted-wrap_step max bucket r c h k p =
      let (b, i) = in_bucket bucket r h in
      let w = in_window_end bucket r.incr_at i in
      let e = wrap-counted max bucket r c (ground arith) (ground arith) b in
      let p' : goes_on (respond r (verdict max bucket (counted bucket r c))).1 ≡ true =
        ap (λ q. goes_on q.1) (sym e) ∙ p in
      let o = goes_on-answer max ((bucket + 1) * 60 * second) r (counted bucket r c).1 in
      rw (ap (λ q. q.0) e) (
        within-try_incr (window_end bucket) r.incr_at max r.fails
          (subject_key (subject_of r) bucket) c w.0 w.1 (ground arith) (ground (arith, o, p')))

  -- If all requests read the clock in one minute and increment at most one minute after its end,
  -- then whatever the cache held and whatever requests come between, no more requests on a subject
  -- go on than the limit, those aside that are exempt or whose increment fails.
  pub wrap_passes-le :
      (max bucket : ℕ) (subject : String) (requests : List Request) (c : Cache V)
      → All (λ r. request_timely bucket r ≡ true) requests
      → passes (wrap_step max) (counts_for subject) requests c ≤ max
  wrap_passes-le max bucket subject requests c h =
      let b : passes (wrap_step max) (counts_for subject) requests c
          ≤ max - fresh (window_end bucket) (subject_key subject bucket) c =
        passes-le (wrap_step max) (counts_for subject) (λ r. request_timely bucket r ≡ true)
          (fresh (window_end bucket) (subject_key subject bucket)) max
          (λ r s k. fresh-wrap_step max bucket (subject_key subject bucket) r s k)
          (λ r s k q passed.
            (let same : subject_of r ≡ subject = ground arith in
              rw (sym same) (counted-wrap_step max bucket r s k (ground arith) passed)))
          requests c h in
      omega (arith, b)
