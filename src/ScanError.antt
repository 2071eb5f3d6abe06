-- ===== src/ScanError.antt =====
-- The error categories of services/shared/errors/categorize.go.
-- An `error` is what the code reads of it: its text, and whether `errors.As` finds the SDK's
-- `DataUnavailableException` in its chain.
pub mod Laws
mod Tests
use axiaops.Common.{
  if◌then◌else◌, ◌==◌, string_eq, nat_eq, str_contains, ◌<◌, String, ◌<>◌, Bool, true, false, ◌||◌,
  Option, none, some, List, [], ◌∷◌, arith,
}

pub data ErrorCategory : Type 0 where
  credentials permissions throttling network data_unavail internal unknown : ErrorCategory

pub record GoError : Type 0 where
  pub message : String
  pub is_data_unavailable : Bool

pub record CategorizedError : Type 0 where
  pub category : ErrorCategory
  pub err : GoError
  pub context : String

-- `Error` of a `CategorizedError`
pub error_text : CategorizedError → String
error_text e = if e.context == "" then e.err.message else e.context <> ": " <> e.err.message

unfoldable pub credential_patterns : List String
credential_patterns =
    "InvalidUserID.NotFound" ∷ "AuthFailure" ∷ "SignatureDoesNotMatch" ∷ "TokenRefreshRequired"
    ∷ "ExpiredToken" ∷ "InvalidAccessKeyId" ∷ "InvalidSecretAccessKey" ∷ []

unfoldable pub permission_patterns : List String
permission_patterns =
    "AccessDenied" ∷ "UnauthorizedOperation" ∷ "Forbidden" ∷ "InsufficientPrivileges" ∷ []

unfoldable pub throttling_patterns : List String
throttling_patterns =
    "RequestLimitExceeded" ∷ "Throttling" ∷ "TooManyRequests" ∷ "LimitExceeded" ∷ []

unfoldable pub network_patterns : List String
network_patterns =
    "connection reset" ∷ "timeout" ∷ "network is unreachable" ∷ "no such host"
    ∷ "connection refused" ∷ []

unfoldable pub internal_patterns : List String
internal_patterns = "InternalError" ∷ "ServiceUnavailable" ∷ "InternalFailure" ∷ []

-- `for _, pattern := range patterns { if strings.Contains(errStr, pattern) … }`
unfoldable pub any_pattern : String → List String → Bool
any_pattern text [] = false
any_pattern text (pattern' ∷ ps) = str_contains text pattern' || any_pattern text ps

unfoldable pub categorize_error : GoError → ErrorCategory
categorize_error err =
    if err.is_data_unavailable
    then data_unavail
    else if any_pattern err.message credential_patterns
    then credentials
    else if any_pattern err.message permission_patterns
    then permissions
    else if any_pattern err.message throttling_patterns
    then throttling
    else if any_pattern err.message network_patterns
    then network
    else if any_pattern err.message internal_patterns
    then internal
    else unknown

-- `Categorize`; a nil error gives nil.
unfoldable pub categorize : Option GoError → String → Option CategorizedError
categorize none context = none
categorize (some err) context =
    some (record { category = categorize_error err; err = err; context = context })

-- `ErrorCategory.IsRetryable`
unfoldable pub is_retryable : ErrorCategory → Bool
is_retryable throttling = true
is_retryable network = true
is_retryable internal = true
is_retryable credentials = false
is_retryable permissions = false
is_retryable data_unavail = false
is_retryable unknown = false

-- `ErrorCategory.ShouldFailScan`
unfoldable pub should_fail_scan : ErrorCategory → Bool
should_fail_scan credentials = true
should_fail_scan permissions = true
should_fail_scan _ = false
