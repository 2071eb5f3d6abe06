-- ===== src/Common/Int.antt =====
-- Integers over the native numbers, and the seconds of Go's times.
use Prim.Native.Nat.{ℕ, ◌+◌, ◌-◌, ◌^◌}
use axiaops.Common.Tests.{if◌then◌else◌, ltb}

pub data ℤ : Type 0 where
  pos : ℕ → ℤ
  negsuc : ℕ → ℤ

-- The first second from 1970 that Go has no time for: a time is an `int64` of seconds from year 1.
abbrev pub end_of_time : ℕ
end_of_time = 2 ^ 63 - 62_135_596_800

-- The second at which `time.Unix(s, 0)` stands, for an `int64`: from there on the seconds wrap, to
-- 2 ^ 64 - s before 1970.
abbrev pub unix_time : ℤ → ℤ
unix_time (pos s) = if ltb s end_of_time then pos s else negsuc (2 ^ 63 + (2 ^ 63 - 1 - s))
unix_time (negsuc k) = negsuc k
