-- ===== src/RateLimit.antt =====
-- The limits on requests in one minute: services/api/internal/auth/ratelimit.go and
-- services/api/internal/middleware/ratelimit.go. The cache is the model of Cache; a call of `Incr`
-- may also fail, as that of Redis does, and then leaves the cache as it is. Every read of the
-- clock is a field of the request, in nanoseconds. Limits are natural numbers; 0 stands for the
-- limits up to 0 too, which the constructors replace. The hash of an email is a parameter.
pub mod Caps
pub mod Requests
pub mod Bounds
pub mod Login
mod Tests
use axiaops.Common.{
  ltb, leb, if◌then◌else◌, ◌==◌, string_eq, nat_eq, ℕ, zero, suc, ◌+◌, ◌-◌, ◌*◌, ◌/◌, ◌%◌, ◌^◌, ◌<◌,
  String, ◌<>◌, Bool, true, false, ◌||◌, Option, none, some, List, [], ◌∷◌, arith,
}
use axiaops.Cache.{Cache, incr}

abbrev pub second : ℕ
second = 10 ^ 9

abbrev pub minute : ℕ
minute = 60 * second

-- `loginCounterTTL` and `rateLimitWindow`.
abbrev pub login_counter_ttl : ℕ
login_counter_ttl = 2 * minute

abbrev default_login_per_ip_per_minute : ℕ
default_login_per_ip_per_minute = 10

abbrev default_login_per_email_per_minute : ℕ
default_login_per_email_per_minute = 5

abbrev default_public_per_ip_per_minute : ℕ
default_public_per_ip_per_minute = 30

abbrev default_rate_limit_max : ℕ
default_rate_limit_max = 1000

abbrev pub nth : List String → ℕ → String
nth [] n = ""
nth (x ∷ xs) zero = x
nth (x ∷ xs) (suc n) = nth xs n

abbrev pub digit : ℕ → String
digit = nth ("0" ∷ "1" ∷ "2" ∷ "3" ∷ "4" ∷ "5" ∷ "6" ∷ "7" ∷ "8" ∷ "9" ∷ [])

-- The last `fuel` digits of a number, without leading zeros.
unfoldable pub digits : ℕ → ℕ → String
digits zero n = ""
digits (suc fuel) n =
    let front = digits fuel (n / 10) in if ltb n 10 then digit n else front <> digit (n % 10)

-- `%d` of an `int64` that is not negative: it has at most 19 digits.
unfoldable pub decimal : ℕ → String
unfolding digits
decimal n = digits 19 n

-- `time.Now().Unix() / 60`
abbrev pub bucket_of : ℕ → ℕ
bucket_of now = now / second / 60

pub record RateLimitOutcome : Type 0 where
  pub allowed : Bool
  pub reason : String
  pub retry_after : ℕ

abbrev pub allowed_outcome : RateLimitOutcome
allowed_outcome = record { allowed = true; reason = ""; retry_after = 0 }

-- `retryAfterForBucket`, which reads the clock at `now`.
unfoldable pub retry_after_for_bucket : ℕ → ℕ → ℕ
retry_after_for_bucket bucket now =
    let seconds = now / second in
    let next_bucket = (bucket + 1) * 60 in
    if leb next_bucket seconds then second else (next_bucket - seconds) * second

abbrev pub blocked : String → ℕ → ℕ → RateLimitOutcome
blocked reason bucket now = record {
  allowed = false;
  reason = reason;
  retry_after = retry_after_for_bucket bucket now;
}

-- `id` of an address; `none` is the nil IP.
abbrev pub ip_id : Option String → String
ip_id none = "unknown"
ip_id (some ip) = ip

-- `loginIPKey`
unfoldable pub login_ip_key : Option String → ℕ → String
unfolding decimal
login_ip_key ip bucket = "auth:login:ip:" <> ip_id ip <> ":" <> decimal bucket

-- The limits of `LoginRateLimiter`.
pub record LoginRateLimiter : Type 0 where
  pub per_ip_per_min : ℕ
  pub per_email_per_min : ℕ

-- `NewLoginRateLimiter`
abbrev pub new_login_rate_limiter : LoginRateLimiter
new_login_rate_limiter = record {
  per_ip_per_min = default_login_per_ip_per_minute;
  per_email_per_min = default_login_per_email_per_minute;
}

-- `WithLimits`
abbrev pub with_limits : ℕ → ℕ → LoginRateLimiter → LoginRateLimiter
with_limits per_ip per_email l = record l { per_ip_per_min = per_ip; per_email_per_min = per_email }

-- A call of a limiter: the request, the times at which the call reads the clock and increments
-- the counters, and which increments fail.
pub record Attempt : Type 0 where
  pub ip : Option String
  pub email : String
  pub read_at : ℕ
  pub ip_at : ℕ
  pub email_at : ℕ
  pub done_at : ℕ
  pub ip_fails : Bool
  pub email_fails : Bool

abbrev pub over : ℕ → Option ℕ → Bool
over cap none = false
over cap (some n) = ltb cap n

module _ {ℓ} {V : Type ℓ} where
  -- `Incr` of a cache that may fail; `none` is the error.
  unfoldable pub try_incr : Bool → ℕ → String → ℕ → Cache V → Cache V × Option ℕ
  unfolding incr
  try_incr fails now key ttl c =
      let (c', n) = incr now key ttl c in if fails then (c, none) else (c', some n)

-- `loginEmailKey`: `hash` lower-cases the trimmed text and gives the first eight bytes of its
-- SHA-256 in hexadecimal.
unfoldable pub login_email_key : (String → String) → String → ℕ → String
unfolding decimal
login_email_key hash email bucket = "auth:login:email:" <> hash email <> ":" <> decimal bucket

module _ {ℓ} {V : Type ℓ} where
  -- The end of `Allow`, after the increment for the email.
  abbrev pub judge_email :
      LoginRateLimiter → Attempt → ℕ → Cache V × Option ℕ → Cache V × RateLimitOutcome
  judge_email l a bucket (c, n) =
      (c, if over l.per_email_per_min n then blocked "email" bucket a.done_at else allowed_outcome)

module _ {ℓ} {V : Type ℓ} (hash : String → String) where
  unfoldable pub allow_email : LoginRateLimiter → Attempt → ℕ → Cache V → Cache V × RateLimitOutcome
  unfolding try_incr login_email_key retry_after_for_bucket
  allow_email l a bucket c =
      judge_email l a bucket (
        try_incr a.email_fails a.email_at (login_email_key hash a.email bucket) login_counter_ttl c)

  -- `Allow` from the increment for the address on.
  unfoldable pub judge_ip :
      LoginRateLimiter → Attempt → ℕ → Cache V × Option ℕ → Cache V × RateLimitOutcome
  unfolding retry_after_for_bucket allow_email
  judge_ip l a bucket (c, n) =
      if over l.per_ip_per_min n
      then (c, blocked "ip" bucket a.done_at)
      else allow_email l a bucket c

  unfoldable pub allow_ip : LoginRateLimiter → Attempt → ℕ → Cache V → Cache V × RateLimitOutcome
  unfolding try_incr login_ip_key judge_ip
  allow_ip l a bucket c =
      judge_ip l a bucket
        (try_incr a.ip_fails a.ip_at (login_ip_key a.ip bucket) login_counter_ttl c)

  -- `Allow` of `LoginRateLimiter`; `none` is the limiter that is nil or has no cache.
  unfoldable pub allow :
      LoginRateLimiter → Attempt → Option (Cache V) → Option (Cache V) × RateLimitOutcome
  unfolding allow_ip
  allow l a none = (none, allowed_outcome)
  allow l a (some c) =
      let (c', outcome) = allow_ip l a (bucket_of a.read_at) c in (some c', outcome)

pub record IpRateLimiter : Type 0 where
  pub key_prefix : String
  pub per_ip_per_min : ℕ

-- `NewIPRateLimiter`
unfoldable pub new_ip_rate_limiter : String → ℕ → IpRateLimiter
new_ip_rate_limiter key_prefix per_ip_per_min = record {
  key_prefix = key_prefix;
  per_ip_per_min =
      if leb per_ip_per_min 0 then default_public_per_ip_per_minute else per_ip_per_min;
}

unfoldable pub public_ip_key : String → Option String → ℕ → String
unfolding decimal
public_ip_key key_prefix ip bucket = key_prefix <> ":ip:" <> ip_id ip <> ":" <> decimal bucket

-- `NewRateLimiter`; the limiter is its `max`.
unfoldable pub new_rate_limiter : ℕ → ℕ
new_rate_limiter max = if leb max 0 then default_rate_limit_max else max

pub record Decision : Type 0 where
  pub allowed : Bool
  pub remaining : ℕ
  pub reset_at : ℕ

-- The verdict of `Check` on the counter.
abbrev pub decide : ℕ → ℕ → Option ℕ → Decision
decide max reset_at none = record { allowed = true; remaining = max; reset_at = reset_at }
decide max reset_at (some n) = record {
  allowed = leb n max;
  remaining = max - n;
  reset_at = reset_at;
}

unfoldable pub subject_key : String → ℕ → String
unfolding decimal
subject_key subject bucket = "ratelimit:" <> subject <> ":" <> decimal bucket

-- A request of `Wrap`: what it reads of the request and its context, and its clock reads.
pub record Request : Type 0 where
  pub method : String
  pub path : String
  pub organization_id : String
  pub user_id : String
  pub checked_at : ℕ
  pub incr_at : ℕ
  pub denied_at : ℕ
  pub fails : Bool

-- The answer: the request goes on, with the headers of the limit or without; or it is refused.
pub data Answer : Type 0 where
  next : Answer
  next_with : Decision → Answer
  too_many_requests : Decision → ℕ → Answer

abbrev pub subject_of : Request → String
subject_of r = if r.user_id == "" then r.organization_id else r.organization_id <> ":" <> r.user_id

-- The `Retry-After` of a refused request.
abbrev pub retry_seconds : ℕ → ℕ → ℕ
retry_seconds reset_at now =
    let retry = (reset_at - now) / second in if ltb retry 1 then 1 else retry

abbrev pub answer : Request → Decision → Answer
answer r d =
    if d.allowed then next_with d else too_many_requests d (retry_seconds d.reset_at r.denied_at)

module _ {ℓ} {V : Type ℓ} where
  -- `Allow` of `IPRateLimiter`.
  unfoldable pub allow_public :
      IpRateLimiter → Attempt → Option (Cache V) → Option (Cache V) × RateLimitOutcome
  unfolding try_incr public_ip_key retry_after_for_bucket
  allow_public l a none = (none, allowed_outcome)
  allow_public l a (some c) =
      let bucket = bucket_of a.read_at in
      let (c', n) =
        try_incr a.ip_fails a.ip_at (public_ip_key l.key_prefix a.ip bucket) login_counter_ttl c in
      if over l.per_ip_per_min n
      then (some c', blocked "ip" bucket a.done_at)
      else (some c', allowed_outcome)

  -- The end of `Check`, after the increment.
  abbrev pub verdict : ℕ → ℕ → Cache V × Option ℕ → Cache V × Decision
  verdict max bucket (c, n) = (c, decide max ((bucket + 1) * 60 * second) n)

  -- `Check`
  unfoldable pub check : ℕ → String → ℕ → ℕ → Bool → Cache V → Cache V × Decision
  unfolding try_incr subject_key
  check max subject now incr_at fails c =
      verdict max (bucket_of now)
        (try_incr fails incr_at (subject_key subject (bucket_of now)) login_counter_ttl c)

  abbrev pub respond : Request → Cache V × Decision → Cache V × Answer
  respond r (c, d) = (c, answer r d)

  -- `Wrap`
  unfoldable pub wrap : ℕ → Request → Cache V → Cache V × Answer
  unfolding check
  wrap max r c =
      if r.method == "OPTIONS" || r.path == "/health"
      then (c, next)
      else if r.organization_id == ""
      then (c, next)
      else respond r (check max (subject_of r) r.checked_at r.incr_at r.fails c)
