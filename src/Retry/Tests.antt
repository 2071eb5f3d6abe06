-- ===== src/Retry/Tests.antt =====
-- Runs of `Do`.
use axiaops.Common.{
  if◌then◌else◌, ◌==◌, string_eq, nat_eq, ℕ, ◌+◌, ◌≡◌, refl, Bool, false, Option, none, some, [],
  ◌∷◌,
}
use axiaops.ScanError.{
  GoError, any_pattern, credential_patterns, permission_patterns, throttling_patterns,
}
use axiaops.Retry.{default_config, called, waited, retry}
use axiaops.Retry.Laws.{Sound, retry-Sound}

abbrev throttled : GoError
throttled = record { message = "Throttling: Rate exceeded"; is_data_unavailable = false }

-- A function that is throttled until the count of its calls reaches two.
abbrev flaky : ℕ → ℕ × Option GoError
flaky n = (n + 1, if n == 2 then none else some throttled)

-- No delay here comes near 2 ^ 63.
abbrev not_reached : ℕ → ℕ
not_reached n = 0

abbrev never : ℕ → Bool
never attempt = false

flaky_succeeds :
    (retry not_reached default_config never flaky 0).log
    ≡ called (some throttled)
      ∷ waited 100_000_000
      ∷ called (some throttled)
      ∷ waited 200_000_000
      ∷ called none
      ∷ []
unfolding retry default_config nat_eq any_pattern credential_patterns permission_patterns
    throttling_patterns
flaky_succeeds = refl

retry-Sound_example : Sound 3 none (retry not_reached default_config never flaky 0)
unfolding default_config
retry-Sound_example = retry-Sound not_reached default_config never flaky 0
