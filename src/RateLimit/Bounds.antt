-- ===== src/RateLimit/Bounds.antt =====
-- What gets through the limits in one minute.
use axiaops.Common.{
  or_else, All, ◌==◌, string_eq, nat_eq, ℕ, ◌-◌, ◌≤◌, ◌<◌, String, ◌≡◌, refl, sym, ap, Bool, true,
  false, not, ◌&&◌, Option, some, List, arith,
}
use axiaops.Cache.{Cache}
use axiaops.RateLimit.{
  bucket_of, ip_id, login_ip_key, LoginRateLimiter, Attempt, login_email_key, allow_ip, allow,
  IpRateLimiter, Request, Answer, too_many_requests, answer, allow_public, wrap,
}
use axiaops.RateLimit.Caps.{fresh, passes, passes-le}
use axiaops.RateLimit.Login.{
  window_end, in_window, timely, fresh-allow_ip, counted-allow_ip, counted-allow_email,
}

-- The attempts from an address, whose increment for it works.
abbrev pub from_ip : Option String → Attempt → Bool
from_ip ip a = ip_id a.ip == ip_id ip && not a.ip_fails

-- The attempts with an email, whose increment for it works.
abbrev pub for_email : (String → String) → String → Attempt → Bool
for_email hash email a = hash a.email == hash email && not a.email_fails

-- A call that reads the clock in the bucket, and increments the counter of the address in time.
unfoldable pub ip_timely : ℕ → Attempt → Bool
unfolding in_window
ip_timely bucket a = bucket_of a.read_at == bucket && in_window bucket a.ip_at

unfoldable pub request_timely : ℕ → Request → Bool
unfolding in_window
request_timely bucket r = bucket_of r.checked_at == bucket && in_window bucket r.incr_at

abbrev pub goes_on : Answer → Bool
goes_on (too_many_requests d retry) = false
goes_on other = true

timely_in :
    (bucket : ℕ) (a : Attempt)
    → timely bucket a ≡ true
    → (bucket_of a.read_at ≡ bucket)
      × (in_window bucket a.ip_at ≡ true)
      × (in_window bucket a.email_at ≡ true)
unfolding timely
timely_in bucket a h = (ground arith, ground arith, ground arith)

same_ip_key :
    (ip jp : Option String) (bucket : ℕ)
    → ip_id ip == ip_id jp ≡ true
    → login_ip_key ip bucket ≡ login_ip_key jp bucket
unfolding login_ip_key
same_ip_key ip jp bucket h = let e : ip_id ip ≡ ip_id jp = ground arith in rw e refl

same_email_key :
    (hash : String → String) (e f : String) (bucket : ℕ)
    → hash e == hash f ≡ true
    → login_email_key hash e bucket ≡ login_email_key hash f bucket
unfolding login_email_key
same_email_key hash e f bucket h = let same : hash e ≡ hash f = ground arith in rw same refl

module _ {ℓ} {V : Type ℓ} where
  -- The limiter with a cache as a step: whether the attempt passes.
  unfoldable pub login_step :
      (String → String) → LoginRateLimiter → Attempt → Cache V → Cache V × Bool
  unfolding allow
  login_step hash l a c =
      let (c', outcome) = allow hash l a (some c) in (or_else c' c, outcome.allowed)

  unfoldable pub public_step : IpRateLimiter → Attempt → Cache V → Cache V × Bool
  unfolding allow_public
  public_step l a c =
      let (c', outcome) = allow_public l a (some c) in (or_else c' c, outcome.allowed)

  unfoldable pub wrap_step : ℕ → Request → Cache V → Cache V × Bool
  unfolding wrap
  wrap_step max r c = let (c', answer) = wrap max r c in (c', goes_on answer)

  login_step-eq :
      (hash : String → String) (l : LoginRateLimiter) (bucket : ℕ) (a : Attempt) (c : Cache V)
      → bucket_of a.read_at ≡ bucket
      → login_step hash l a c
        ≡ ((allow_ip hash l a bucket c).0, (allow_ip hash l a bucket c).1.allowed)
  unfolding login_step allow
  login_step-eq hash l bucket a c e =
      ap (λ b. ((allow_ip hash l a b c).0, (allow_ip hash l a b c).1.allowed)) e

  login_step-fresh :
      (hash : String → String) (l : LoginRateLimiter) (bucket : ℕ) (key : String) (a : Attempt)
      (c : Cache V)
      → timely bucket a ≡ true
      → fresh (window_end bucket) key c ≤ fresh (window_end bucket) key (login_step hash l a c).0
  login_step-fresh hash l bucket key a c h =
      let (e, i, m) = timely_in bucket a h in
      rw (login_step-eq hash l bucket a c e) (fresh-allow_ip hash l a bucket c i m key)

  login_step-counts_ip :
      (hash : String → String) (l : LoginRateLimiter) (bucket : ℕ) (a : Attempt) (c : Cache V)
      → timely bucket a ≡ true
      → a.ip_fails ≡ false
      → (login_step hash l a c).1 ≡ true
      → (fresh (window_end bucket) (login_ip_key a.ip bucket) c < l.per_ip_per_min)
        × (fresh (window_end bucket) (login_ip_key a.ip bucket) c
            < fresh (window_end bucket) (login_ip_key a.ip bucket) (login_step hash l a c).0)
  login_step-counts_ip hash l bucket a c h f =
      let (e, i, m) = timely_in bucket a h in
      rw (login_step-eq hash l bucket a c e) (counted-allow_ip hash l a bucket c i m f)

  login_step-counts_email :
      (hash : String → String) (l : LoginRateLimiter) (bucket : ℕ) (a : Attempt) (c : Cache V)
      → timely bucket a ≡ true
      → a.email_fails ≡ false
      → (login_step hash l a c).1 ≡ true
      → (fresh (window_end bucket) (login_email_key hash a.email bucket) c < l.per_email_per_min)
        × (fresh (window_end bucket) (login_email_key hash a.email bucket) c
            < fresh
                (window_end bucket)
                (login_email_key hash a.email bucket)
                (login_step hash l a c).0)
  login_step-counts_email hash l bucket a c h f =
      let (e, i, m) = timely_in bucket a h in
      rw (login_step-eq hash l bucket a c e) (counted-allow_email hash l a bucket c i m f)

  -- If all attempts read the clock in one minute and increment at most one minute after its end,
  -- then whatever the cache held and whatever other attempts come between, no more attempts of an
  -- address pass than its limit, and no more attempts with an email than its own, those aside
  -- whose increment for it fails.
  pub login_passes-le :
      (hash : String → String) (l : LoginRateLimiter) (bucket : ℕ) (ip : Option String)
      (email : String) (attempts : List Attempt) (c : Cache V)
      → All (λ a. timely bucket a ≡ true) attempts
      → (passes (login_step hash l) (from_ip ip) attempts c ≤ l.per_ip_per_min)
        × (passes (login_step hash l) (for_email hash email) attempts c ≤ l.per_email_per_min)
  login_passes-le hash l bucket ip email attempts c h =
      let in_ip : passes (login_step hash l) (from_ip ip) attempts c
          ≤ l.per_ip_per_min - fresh (window_end bucket) (login_ip_key ip bucket) c =
        passes-le (login_step hash l) (from_ip ip) (λ a. timely bucket a ≡ true)
          (fresh (window_end bucket) (login_ip_key ip bucket)) l.per_ip_per_min
          (λ a s k. login_step-fresh hash l bucket (login_ip_key ip bucket) a s k)
          (λ a s k q passed.
            rw (sym (same_ip_key a.ip ip bucket (ground arith)))
              (login_step-counts_ip hash l bucket a s k (ground arith) passed))
          attempts c h in
      let in_email : passes (login_step hash l) (for_email hash email) attempts c
          ≤ l.per_email_per_min - fresh (window_end bucket) (login_email_key hash email bucket) c =
        passes-le (login_step hash l) (for_email hash email) (λ a. timely bucket a ≡ true)
          (fresh (window_end bucket) (login_email_key hash email bucket)) l.per_email_per_min
          (λ a s k. login_step-fresh hash l bucket (login_email_key hash email bucket) a s k)
          (λ a s k q passed.
            rw (sym (same_email_key hash a.email email bucket (ground arith)))
              (login_step-counts_email hash l bucket a s k (ground arith) passed))
          attempts c h in
      (omega (arith, in_ip), omega (arith, in_email))
