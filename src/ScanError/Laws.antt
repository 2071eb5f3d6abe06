-- ===== src/ScanError/Laws.antt =====
-- Which errors are retried, in terms of the error itself.
use axiaops.Common.{string_eq, nat_eq, ◌≡◌, ◌↔◌, true, false, ◌||◌, arith}
use axiaops.ScanError.{
  GoError, credential_patterns, permission_patterns, throttling_patterns, network_patterns,
  internal_patterns, any_pattern, categorize_error, is_retryable, should_fail_scan,
}

-- An error is retried exactly when it is no data-unavailable exception, its text has no credential
-- and no permission pattern, and its text has a throttling, network or internal pattern.
pub is_retryable-categorize_error :
    (err : GoError)
    → (is_retryable (categorize_error err) ≡ true) ↔ (
        (err.is_data_unavailable ≡ false)
        × (any_pattern err.message credential_patterns ≡ false)
        × (any_pattern err.message permission_patterns ≡ false)
        × ((any_pattern err.message throttling_patterns
              || any_pattern err.message network_patterns
              || any_pattern err.message internal_patterns)
            ≡ true))
unfolding categorize_error is_retryable
is_retryable-categorize_error err = (λ h. ground arith, λ h. ground arith)

-- No category both fails the scan and is retried; an error fails the scan exactly when it is no
-- data-unavailable exception and its text has a credential or a permission pattern.
pub should_fail_scan-categorize_error :
    (err : GoError)
    → ((should_fail_scan (categorize_error err) ≡ true)
        → is_retryable (categorize_error err) ≡ false)
      × ((should_fail_scan (categorize_error err) ≡ true) ↔ (
          (err.is_data_unavailable ≡ false)
          × ((any_pattern err.message credential_patterns
                || any_pattern err.message permission_patterns)
              ≡ true)))
unfolding categorize_error is_retryable should_fail_scan
should_fail_scan-categorize_error err = (λ h. ground arith, (λ h. ground arith, λ h. ground arith))
