-- ===== src/ExternalState/SubmissionState.antt =====
-- The submission state of an execution: `SubmissionState` of crates/beampipe-domain/src/external_state.rs.
use beampipe_core_v.Common.{String, ◌≡◌, refl, ◌↔◌, Option, none, some, ◌==◌, if◌then◌else◌}
use beampipe_core_v.Common.Naming.{match_arm}

pub data SubmissionState : Type 0 where
  not_started preparing in_flight submitted uncertain failed : SubmissionState

unfoldable pub parse : String → Option SubmissionState
parse value =
    if value == "not_started"
    then some not_started
    else if value == "preparing"
    then some preparing
    else if value == "in_flight"
    then some in_flight
    else if value == "submitted"
    then some submitted
    else if value == "uncertain"
    then some uncertain
    else if value == "failed"
    then some failed
    else none

unfoldable pub as_str : SubmissionState → String
as_str not_started = "not_started"
as_str preparing = "preparing"
as_str in_flight = "in_flight"
as_str submitted = "submitted"
as_str uncertain = "uncertain"
as_str failed = "failed"

parse-as_str_self : (state : SubmissionState) → parse (as_str state) ≡ some state
unfolding parse as_str
parse-as_str_self not_started = refl
parse-as_str_self preparing = refl
parse-as_str_self in_flight = refl
parse-as_str_self submitted = refl
parse-as_str_self uncertain = refl
parse-as_str_self failed = refl

as_str-parse :
    (value : String) (state : SubmissionState) → parse value ≡ some state → as_str state ≡ value
unfolding parse as_str
as_str-parse value state = match_arm as_str value not_started state _ (
    match_arm as_str value preparing state _ (
      match_arm as_str value in_flight state _ (
        match_arm as_str value submitted state _ (
          match_arm as_str value uncertain state _
            (match_arm as_str value failed state _ (λ h. cc))))))

-- A name is read as a state exactly when it is the name that the state is printed as.
pub parse-as_str :
    (value : String) (state : SubmissionState) → (parse value ≡ some state) ↔ (as_str state ≡ value)
parse-as_str value state = (as_str-parse value state, λ e. rw (← e) (parse-as_str_self state))
