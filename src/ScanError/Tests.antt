-- ===== src/ScanError/Tests.antt =====
-- Some errors of a scan and how they are categorized.
use axiaops.Common.{string_eq, nat_eq, ◌≡◌, ◌↔◌, true, false, ◌||◌}
use axiaops.ScanError.{
  GoError, credential_patterns, permission_patterns, throttling_patterns, network_patterns,
  internal_patterns, any_pattern, categorize_error, is_retryable, should_fail_scan,
}
use axiaops.ScanError.Laws.{is_retryable-categorize_error, should_fail_scan-categorize_error}

abbrev throttled : GoError
throttled = record { message = "ThrottlingException: Rate exceeded"; is_data_unavailable = false }

abbrev denied : GoError
denied = record { message = "AccessDeniedException: not authorized"; is_data_unavailable = false }

is_retryable-categorize_error_test : (is_retryable (categorize_error throttled) ≡ true) ↔ (
    (false ≡ false)
    × (any_pattern throttled.message credential_patterns ≡ false)
    × (any_pattern throttled.message permission_patterns ≡ false)
    × ((any_pattern throttled.message throttling_patterns
          || any_pattern throttled.message network_patterns
          || any_pattern throttled.message internal_patterns)
        ≡ true))
is_retryable-categorize_error_test = is_retryable-categorize_error throttled

should_fail_scan-categorize_error_test :
    ((should_fail_scan (categorize_error denied) ≡ true)
      → is_retryable (categorize_error denied) ≡ false)
    × ((should_fail_scan (categorize_error denied) ≡ true) ↔ (
        (false ≡ false)
        × ((any_pattern denied.message credential_patterns
              || any_pattern denied.message permission_patterns)
            ≡ true)))
should_fail_scan-categorize_error_test = should_fail_scan-categorize_error denied
