-- ===== src/Worker/Failure.antt =====
-- Which failures of a job are retried, and when: `is_non_retryable_job_error` of
-- crates/beampipe-domain/src/job_errors.rs, `classify_job_failure` and `retry_delay_seconds` of
-- crates/beampipe-jobs/src/lib.rs, and `FailureClass` of crates/beampipe-domain/src/diagnostics.rs.
pub mod Laws
use beampipe_core_v.Common.{
  ℕ, ◌+◌, ◌-◌, ◌*◌, ◌%◌, ◌^◌, ◌≡◌, String, Bool, true, false, ◌||◌, ltb, leb, ◌==◌, if◌then◌else◌,
}
use beampipe_core_v.Common.Text.{to_ascii_lowercase, contains_text}

-- `lower` is the error in ASCII lower case.
abbrev execute_error : String → Bool
execute_error lower =
    contains_text lower "unreachable"
    || contains_text lower "authentication failed"
    || contains_text lower "credentials required"
    || contains_text lower "translation manager"
    || contains_text lower "preflight"
    || contains_text lower "dim at"
    || contains_text lower "is unreachable"

abbrev discover_error : String → Bool
discover_error lower = contains_text lower "authentication failed" || contains_text lower "401"

abbrev poll_error : String → Bool
poll_error lower =
    contains_text lower "authentication failed"
    || contains_text lower "connection failed"
    || contains_text lower "unreachable"

unfoldable pub is_non_retryable_job_error : String → String → Bool
is_non_retryable_job_error kind error =
    if kind == "execute"
    then execute_error (to_ascii_lowercase error)
    else if kind == "discover_batch"
    then discover_error (to_ascii_lowercase error)
    else if (kind == "slurm_poll_tick") || (kind == "dim_poll") || (kind == "dim_poll_tick")
    then poll_error (to_ascii_lowercase error)
    else false

pub data FailureClass : Type 0 where
  validation configuration authentication authorization not_found conflict : FailureClass
  dependency_unavailable connectivity timeout rate_limited unsupported : FailureClass
  cancelled inconsistent_state internal : FailureClass

unfoldable pub as_str : FailureClass → String
as_str FailureClass.validation = "validation"
as_str FailureClass.configuration = "configuration"
as_str FailureClass.authentication = "authentication"
as_str FailureClass.authorization = "authorization"
as_str FailureClass.not_found = "not_found"
as_str FailureClass.conflict = "conflict"
as_str FailureClass.dependency_unavailable = "dependency_unavailable"
as_str FailureClass.connectivity = "connectivity"
as_str FailureClass.timeout = "timeout"
as_str FailureClass.rate_limited = "rate_limited"
as_str FailureClass.unsupported = "unsupported"
as_str FailureClass.cancelled = "cancelled"
as_str FailureClass.inconsistent_state = "inconsistent_state"
as_str FailureClass.internal = "internal"

abbrev timeout_text : String → Bool
timeout_text lower = contains_text lower "timeout" || contains_text lower "timed out"

abbrev authentication_text : String → Bool
authentication_text lower =
    contains_text lower "unauthorized"
    || contains_text lower "authentication"
    || contains_text lower "credential"

unfoldable pub classify_job_failure : String → String → FailureClass
unfolding is_non_retryable_job_error
classify_job_failure kind error =
    let lower = to_ascii_lowercase error in
    if timeout_text lower
    then FailureClass.timeout
    else if authentication_text lower
    then FailureClass.authentication
    else if is_non_retryable_job_error kind error
    then FailureClass.configuration
    else if contains_text lower "conflict" || contains_text lower "already exists"
    then FailureClass.conflict
    else FailureClass.dependency_unavailable

-- `attempts.saturating_sub(1).clamp(0, 8)`.
abbrev exponent : ℕ → ℕ
exponent attempts = if leb (attempts - 1) 8 then attempts - 1 else 8

-- A row whose uuid is `uuid`, after so many attempts.
unfoldable pub retry_delay_seconds : ℕ → ℕ → ℕ
retry_delay_seconds uuid attempts =
    let delay = 15 * 2 ^ exponent attempts + uuid % 11 in if leb delay 3600 then delay else 3600
