-- ===== src/ExternalState/OutputState.antt =====
-- The output state of an execution: `OutputState` of crates/beampipe-domain/src/external_state.rs.
use beampipe_core_v.Common.{String, ◌≡◌, refl, ◌↔◌, Option, none, some, ◌==◌, if◌then◌else◌}
use beampipe_core_v.Common.Naming.{match_arm}

pub data OutputState : Type 0 where
  not_started pending verifying verified failed unknown : OutputState

unfoldable pub parse : String → Option OutputState
parse value =
    if value == "not_started"
    then some not_started
    else if value == "pending"
    then some pending
    else if value == "verifying"
    then some verifying
    else if value == "verified"
    then some verified
    else if value == "failed"
    then some failed
    else if value == "unknown"
    then some unknown
    else none

unfoldable pub as_str : OutputState → String
as_str not_started = "not_started"
as_str pending = "pending"
as_str verifying = "verifying"
as_str verified = "verified"
as_str failed = "failed"
as_str unknown = "unknown"

parse-as_str_self : (state : OutputState) → parse (as_str state) ≡ some state
unfolding parse as_str
parse-as_str_self not_started = refl
parse-as_str_self pending = refl
parse-as_str_self verifying = refl
parse-as_str_self verified = refl
parse-as_str_self failed = refl
parse-as_str_self unknown = refl

as_str-parse :
    (value : String) (state : OutputState) → parse value ≡ some state → as_str state ≡ value
unfolding parse as_str
as_str-parse value state = match_arm as_str value not_started state _ (
    match_arm as_str value pending state _ (
      match_arm as_str value verifying state _ (
        match_arm as_str value verified state _ (
          match_arm as_str value failed state _
            (match_arm as_str value unknown state _ (λ h. cc))))))

-- A name is read as a state exactly when it is the name that the state is printed as.
pub parse-as_str :
    (value : String) (state : OutputState) → (parse value ≡ some state) ↔ (as_str state ≡ value)
parse-as_str value state = (as_str-parse value state, λ e. rw (← e) (parse-as_str_self state))
