-- ===== src/RateLimit/Login.antt =====
-- The limits on logins: what one address and one email get through in a minute.
use axiaops.Common.{
  leb, Bool-cases, ◌==◌, string_eq, nat_eq, ℕ, ◌+◌, ◌*◌, ◌≤◌, ◌<◌, String, ◌≡◌, refl, ap, inl, inr,
  Bool, true, false, not, ◌&&◌, Option, arith,
}
use axiaops.Cache.{Cache}
use axiaops.RateLimit.{
  minute, login_counter_ttl, bucket_of, blocked, login_ip_key, LoginRateLimiter, Attempt, over,
  try_incr, login_email_key, allow_email, allow_ip, judge_email, judge_ip,
}
use axiaops.RateLimit.Caps.{fresh, fresh-try_incr, within-try_incr}

-- The end of the minute after the bucket's, up to which its counters live.
unfoldable pub window_end : ℕ → ℕ
window_end bucket = (bucket + 2) * minute

-- The increment comes after the start of the bucket and at most one minute after its end.
unfoldable pub in_window : ℕ → ℕ → Bool
unfolding window_end
in_window bucket now = leb (bucket * minute) now && leb now (window_end bucket)

-- A call that reads the clock in the bucket, and increments in time.
unfoldable pub timely : ℕ → Attempt → Bool
unfolding in_window
timely bucket a =
    (bucket_of a.read_at == bucket) && (in_window bucket a.ip_at && in_window bucket a.email_at)

pub in_window_end :
    (bucket now : ℕ)
    → in_window bucket now ≡ true
    → (window_end bucket ≤ now + login_counter_ttl) × (now ≤ window_end bucket)
unfolding in_window window_end
in_window_end bucket now h = (ground arith, ground arith)

module _ {ℓ} {V : Type ℓ} (l : LoginRateLimiter) (a : Attempt) (bucket : ℕ) where
  -- What the judgement of the counters does: the cache stays, and a limit that is passed blocks.
  judge_email-cache :
      (r : Cache V × Option ℕ)
      → ((judge_email l a bucket r).0 ≡ r.0)
        × ((judge_email l a bucket r).1.allowed ≡ not (over l.per_email_per_min r.1))
  judge_email-cache (c, n) = (refl, ground arith)

  module _ (hash : String → String) where
    judge_ip-blocked :
        (r : Cache V × Option ℕ)
        → over l.per_ip_per_min r.1 ≡ true
        → judge_ip hash l a bucket r ≡ (r.0, blocked "ip" bucket a.done_at)
    unfolding judge_ip
    judge_ip-blocked (c, n) e = rw e refl

    judge_ip-goes_on :
        (r : Cache V × Option ℕ)
        → over l.per_ip_per_min r.1 ≡ false
        → judge_ip hash l a bucket r ≡ allow_email hash l a bucket r.0
    unfolding judge_ip
    judge_ip-goes_on (c, n) e = rw e refl

module _ {ℓ} {V : Type ℓ} (hash : String → String) (l : LoginRateLimiter) (a : Attempt) (bucket : ℕ)
    (c : Cache V) (ip_in : in_window bucket a.ip_at ≡ true)
    (email_in : in_window bucket a.email_at ≡ true) where
  abbrev after_ip : Cache V × Option ℕ
  after_ip = try_incr a.ip_fails a.ip_at (login_ip_key a.ip bucket) login_counter_ttl c

  abbrev after_email : Cache V × Option ℕ
  after_email =
      try_incr a.email_fails a.email_at (login_email_key hash a.email bucket) login_counter_ttl
        after_ip.0

  allow_ip-blocked :
      over l.per_ip_per_min after_ip.1 ≡ true
      → allow_ip hash l a bucket c ≡ (after_ip.0, blocked "ip" bucket a.done_at)
  unfolding allow_ip
  allow_ip-blocked e = judge_ip-blocked l a bucket hash after_ip e

  allow_ip-goes_on :
      over l.per_ip_per_min after_ip.1 ≡ false
      → allow_ip hash l a bucket c ≡ judge_email l a bucket after_email
  unfolding allow_ip allow_email
  allow_ip-goes_on e = judge_ip-goes_on l a bucket hash after_ip e

  fresh-after_ip :
      (key : String) → fresh (window_end bucket) key c ≤ fresh (window_end bucket) key after_ip.0
  fresh-after_ip key =
      let b = in_window_end bucket a.ip_at ip_in in
      fresh-try_incr (window_end bucket) a.ip_at a.ip_fails key (login_ip_key a.ip bucket) c b.0 b.1

  fresh-after_email :
      (key : String)
      → fresh (window_end bucket) key after_ip.0 ≤ fresh (window_end bucket) key after_email.0
  fresh-after_email key =
      let b = in_window_end bucket a.email_at email_in in
      fresh-try_incr (window_end bucket) a.email_at a.email_fails key
        (login_email_key hash a.email bucket) after_ip.0 b.0 b.1

  pub fresh-allow_ip :
      (key : String)
      → fresh (window_end bucket) key c
        ≤ fresh (window_end bucket) key (allow_ip hash l a bucket c).0
  fresh-allow_ip key =
      let one = fresh-after_ip key in
      let two = fresh-after_email key in
      elim (Bool-cases (over l.per_ip_per_min after_ip.1)) [
        | inl e ↦ rw (allow_ip-blocked e) one
        | inr e ↦ rw (allow_ip-goes_on e) (ground (arith, one, two))
      ]

  -- An attempt that passes, its increment for the address being made, is one of the counted.
  pub counted-allow_ip :
      a.ip_fails ≡ false
      → (allow_ip hash l a bucket c).1.allowed ≡ true
      → (fresh (window_end bucket) (login_ip_key a.ip bucket) c < l.per_ip_per_min)
        × (fresh (window_end bucket) (login_ip_key a.ip bucket) c
            < fresh (window_end bucket) (login_ip_key a.ip bucket) (allow_ip hash l a bucket c).0)
  counted-allow_ip f e =
      let two = fresh-after_email (login_ip_key a.ip bucket) in
      let b = in_window_end bucket a.ip_at ip_in in
      elim (Bool-cases (over l.per_ip_per_min after_ip.1)) [
        | inl o ↦ (let no = ap (λ r. r.1.allowed) (allow_ip-blocked o) in ground (arith, e, no))
        | inr o ↦ rw (allow_ip-goes_on o) (
            let h =
              within-try_incr (window_end bucket) a.ip_at l.per_ip_per_min a.ip_fails
                (login_ip_key a.ip bucket) c b.0 b.1 f o in
            (h.0, ground (arith, h, two)))
      ]

  pub counted-allow_email :
      a.email_fails ≡ false
      → (allow_ip hash l a bucket c).1.allowed ≡ true
      → (fresh (window_end bucket) (login_email_key hash a.email bucket) c < l.per_email_per_min)
        × (fresh (window_end bucket) (login_email_key hash a.email bucket) c
            < fresh
                (window_end bucket)
                (login_email_key hash a.email bucket)
                (allow_ip hash l a bucket c).0)
  counted-allow_email f e =
      let one = fresh-after_ip (login_email_key hash a.email bucket) in
      let b = in_window_end bucket a.email_at email_in in
      elim (Bool-cases (over l.per_ip_per_min after_ip.1)) [
        | inl o ↦ (let no = ap (λ r. r.1.allowed) (allow_ip-blocked o) in ground (arith, e, no))
        | inr o ↦ rw (allow_ip-goes_on o) (
            let passed = (rw (allow_ip-goes_on o) at e) in
            let kept = (judge_email-cache l a bucket after_email).1 in
            let h =
              within-try_incr (window_end bucket) a.email_at l.per_email_per_min a.email_fails
                (login_email_key hash a.email bucket) after_ip.0 b.0 b.1 f
                (ground (arith, passed, kept)) in
            (ground (arith, h, one), ground (arith, h, one)))
      ]
