-- ===== src/ExternalState/SchedulerState.antt =====
-- The scheduler state of an execution: `SchedulerState` of crates/beampipe-domain/src/external_state.rs.
use beampipe_core_v.Common.{
  String, ◌≡◌, refl, ◌↔◌, Bool, true, false, Option, none, some, ◌==◌, ◌||◌, if◌then◌else◌,
}
use beampipe_core_v.Common.Text.{trim, to_ascii_uppercase}
use beampipe_core_v.Common.Naming.{match_arm}

pub data SchedulerState : Type 0 where
  not_submitted pending running succeeded failed cancelled timed_out unknown : SchedulerState

unfoldable pub parse : String → Option SchedulerState
parse value =
    if value == "not_submitted"
    then some not_submitted
    else if value == "pending"
    then some pending
    else if value == "running"
    then some running
    else if value == "succeeded"
    then some succeeded
    else if value == "failed"
    then some failed
    else if value == "cancelled"
    then some cancelled
    else if value == "timed_out"
    then some timed_out
    else if value == "unknown"
    then some unknown
    else none

unfoldable pub as_str : SchedulerState → String
as_str not_submitted = "not_submitted"
as_str pending = "pending"
as_str running = "running"
as_str succeeded = "succeeded"
as_str failed = "failed"
as_str cancelled = "cancelled"
as_str timed_out = "timed_out"
as_str unknown = "unknown"

abbrev pub is_active : SchedulerState → Bool
is_active pending = true
is_active running = true
is_active _ = false

unfoldable pub from_normalized : String → SchedulerState
unfolding trim to_ascii_uppercase
from_normalized raw =
    let u = to_ascii_uppercase (trim raw) in
    if u == "PENDING"
    then pending
    else if u == "RUNNING"
    then running
    else if u == "COMPLETED" || u == "SUCCEEDED"
    then succeeded
    else if u == "FAILED"
    then failed
    else if u == "CANCELLED" || u == "CANCELED"
    then cancelled
    else if u == "TIMEOUT" || u == "TIMED_OUT"
    then timed_out
    else if u == "NOT_SUBMITTED"
    then not_submitted
    else unknown

parse-as_str_self : (state : SchedulerState) → parse (as_str state) ≡ some state
unfolding parse as_str
parse-as_str_self not_submitted = refl
parse-as_str_self pending = refl
parse-as_str_self running = refl
parse-as_str_self succeeded = refl
parse-as_str_self failed = refl
parse-as_str_self cancelled = refl
parse-as_str_self timed_out = refl
parse-as_str_self unknown = refl

as_str-parse :
    (value : String) (state : SchedulerState) → parse value ≡ some state → as_str state ≡ value
unfolding parse as_str
as_str-parse value state = match_arm as_str value not_submitted state _ (
    match_arm as_str value pending state _ (
      match_arm as_str value running state _ (
        match_arm as_str value succeeded state _ (
          match_arm as_str value failed state _ (
            match_arm as_str value cancelled state _ (
              match_arm as_str value timed_out state _
                (match_arm as_str value unknown state _ (λ h. cc))))))))

-- A name is read as a state exactly when it is the name that the state is printed as.
pub parse-as_str :
    (value : String) (state : SchedulerState) → (parse value ≡ some state) ↔ (as_str state ≡ value)
parse-as_str value state = (as_str-parse value state, λ e. rw (← e) (parse-as_str_self state))
