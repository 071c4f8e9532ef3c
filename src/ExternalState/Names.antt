-- ===== src/ExternalState/Names.antt =====
-- The names under which the external states are stored
-- (crates/beampipe-domain/src/external_state.rs).
use beampipe_core_v.Common.{String, ◌≡◌, ◌↔◌, some}
use beampipe_core_v.ExternalState.ControlPhase
use beampipe_core_v.ExternalState.ControlPhase.{ControlPhase}
use beampipe_core_v.ExternalState.DaliugeState
use beampipe_core_v.ExternalState.DaliugeState.{DaliugeState}
use beampipe_core_v.ExternalState.OutputState
use beampipe_core_v.ExternalState.OutputState.{OutputState}
use beampipe_core_v.ExternalState.SchedulerState
use beampipe_core_v.ExternalState.SchedulerState.{SchedulerState}
use beampipe_core_v.ExternalState.SubmissionState
use beampipe_core_v.ExternalState.SubmissionState.{SubmissionState}
use beampipe_core_v.ExternalState.TerminalOutcome
use beampipe_core_v.ExternalState.TerminalOutcome.{TerminalOutcome}

-- For each of the six kinds of state, a text is read as a state exactly if it is the name that the
-- state is stored under.
pub names_read_back :
    (value : String)
    → ((s : ControlPhase) → ControlPhase.parse value ≡ some s ↔ ControlPhase.as_str s ≡ value)
      × ((s : SubmissionState)
          → SubmissionState.parse value ≡ some s ↔ SubmissionState.as_str s ≡ value)
      × ((s : SchedulerState)
          → SchedulerState.parse value ≡ some s ↔ SchedulerState.as_str s ≡ value)
      × ((s : DaliugeState) → DaliugeState.parse value ≡ some s ↔ DaliugeState.as_str s ≡ value)
      × ((s : OutputState) → OutputState.parse value ≡ some s ↔ OutputState.as_str s ≡ value)
      × ((s : TerminalOutcome)
          → TerminalOutcome.parse value ≡ some s ↔ TerminalOutcome.as_str s ≡ value)
names_read_back value = (
  ControlPhase.parse-as_str value,
  SubmissionState.parse-as_str value,
  SchedulerState.parse-as_str value,
  DaliugeState.parse-as_str value,
  OutputState.parse-as_str value,
  TerminalOutcome.parse-as_str value,
)
