-- ===== src/ExternalState/TerminalOutcome.antt =====
-- The terminal outcome of an execution: `TerminalOutcome` of crates/beampipe-domain/src/external_state.rs.
use beampipe_core_v.Common.{String, ◌≡◌, refl, ◌↔◌, Option, none, some, ◌==◌, if◌then◌else◌}
use beampipe_core_v.Common.Naming.{match_arm}

pub data TerminalOutcome : Type 0 where
  succeeded failed cancelled inconsistent : TerminalOutcome

unfoldable pub parse : String → Option TerminalOutcome
parse value =
    if value == "succeeded"
    then some succeeded
    else if value == "failed"
    then some failed
    else if value == "cancelled"
    then some cancelled
    else if value == "inconsistent"
    then some inconsistent
    else none

unfoldable pub as_str : TerminalOutcome → String
as_str succeeded = "succeeded"
as_str failed = "failed"
as_str cancelled = "cancelled"
as_str inconsistent = "inconsistent"

parse-as_str_self : (state : TerminalOutcome) → parse (as_str state) ≡ some state
unfolding parse as_str
parse-as_str_self succeeded = refl
parse-as_str_self failed = refl
parse-as_str_self cancelled = refl
parse-as_str_self inconsistent = refl

as_str-parse :
    (value : String) (state : TerminalOutcome) → parse value ≡ some state → as_str state ≡ value
unfolding parse as_str
as_str-parse value state = match_arm as_str value succeeded state _ (
    match_arm as_str value failed state _ (
      match_arm as_str value cancelled state _
        (match_arm as_str value inconsistent state _ (λ h. cc))))

-- A name is read as a state exactly when it is the name that the state is printed as.
pub parse-as_str :
    (value : String) (state : TerminalOutcome) → (parse value ≡ some state) ↔ (as_str state ≡ value)
parse-as_str value state = (as_str-parse value state, λ e. rw (← e) (parse-as_str_self state))
