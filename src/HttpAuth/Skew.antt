-- ===== src/HttpAuth/Skew.antt =====
-- When a timestamp is out of the window, and what a signature lives through.
use axiaops.Common.{
  ltb, leb, if◌then◌else◌, ◌==◌, string_eq, nat_eq, ℕ, ◌+◌, ◌-◌, ◌*◌, ◌<◌, String, ◌≡◌, refl, ap,
  ◌∙◌, Bool, false, not, ◌&&◌, ◌||◌, ◌^◌, none, some, arith,
}
use axiaops.Common.Int.{ℤ, pos, negsuc, end_of_time}
use axiaops.HttpAuth.{
  Wire, timestamp_skew, second, max_duration, sub, is_skewed, canonical, sign_raw, sign, check_mac,
  verify_parsed, verify,
}

abbrev pub distance : ℕ → ℕ → ℕ
distance a b = (a - b) + (b - a)

-- The timestamp is one that Go has a time for, and its distance from the clock is at most the window.
abbrev pub in_window : ℕ → ℕ → ℤ → Bool
in_window max_skew now (pos s) = ltb s end_of_time && leb (distance now (s * second)) max_skew
in_window max_skew now (negsuc k) = leb (now + (k + 1) * second) max_skew

-- The timestamp is one that Go has a time for, and lies ahead by 2 ^ 63 nanoseconds or more.
abbrev pub far_ahead : ℕ → ℤ → Bool
far_ahead now (pos s) = ltb s end_of_time && leb (now + 2 ^ 63) (s * second)
far_ahead now (negsuc k) = false

-- The window, with the least `int64`, whose opposite is itself, written out.
pub is_skewed-in_window :
    (max_skew now : ℕ) (ts : ℤ)
    → max_skew < max_duration
    → is_skewed max_skew now ts ≡ not (in_window max_skew now ts || far_ahead now ts)
unfolding is_skewed sub
is_skewed-in_window max_skew now (pos s) h = ground arith
is_skewed-in_window max_skew now (negsuc k) h = ground arith

pub check_mac-same :
    (w : Wire) (max_skew now : ℕ) (ts : ℤ) (mac : String)
    → check_mac w max_skew now ts mac mac
      ≡ (if is_skewed max_skew now ts then some timestamp_skew else none)
unfolding check_mac
check_mac-same w max_skew now ts mac = ground arith

-- A request whose headers can be read is judged by its time and its MAC.
pub verify-read :
    (w : Wire) (secret : String) (max_skew now : ℕ) (header signature method path body : String)
    (ts : ℤ) (mac : String)
    → header == "" ≡ false
    → signature == "" ≡ false
    → w.parse_int header ≡ some ts
    → w.decode signature ≡ some mac
    → verify w secret max_skew now header signature method path body
      ≡ check_mac w max_skew now ts (sign_raw w secret ts method path body) mac
unfolding verify verify_parsed
verify-read w secret max_skew now header signature method path body ts mac n₁ n₂ p d =
    rw (n₁, n₂, p, d) refl

-- With a window below the greatest duration, what `Sign` signs `Verify` accepts, under the same
-- secret and for the same request, exactly if the signature's time is one that Go has a time for and
-- lies within the window of the clock on either side, or 2 ^ 63 nanoseconds or more ahead of it; else
-- it answers that the timestamp is skewed. The header's number and the encoded MAC are to be read
-- back as they were written, and not empty.
pub verify-sign :
    (w : Wire) (secret : String) (max_skew now : ℕ) (ts : ℤ) (method path body : String)
    → max_skew < max_duration
    → w.parse_int (w.format_int ts) ≡ some ts
    → w.decode (sign w secret ts method path body)
      ≡ some (w.hmac secret (canonical w ts method path body))
    → w.format_int ts == "" ≡ false
    → sign w secret ts method path body == "" ≡ false
    → verify w secret max_skew now
        (w.format_int ts)
        (sign w secret ts method path body)
        method
        path
        body
      ≡ (if not (in_window max_skew now ts || far_ahead now ts) then some timestamp_skew else none)
unfolding sign_raw
verify-sign w secret max_skew now ts method path body h parsed decoded n₁ n₂ =
    verify-read w secret max_skew now (w.format_int ts) (sign w secret ts method path body) method
      path body ts (sign_raw w secret ts method path body) n₁ n₂ parsed decoded
    ∙ check_mac-same w max_skew now ts (sign_raw w secret ts method path body)
    ∙ ap (λ b. if b then some timestamp_skew else none) (is_skewed-in_window max_skew now ts h)
