-- ===== src/ExternalState.antt =====
-- The axes on which an execution is observed from outside, and their reconciliation:
-- crates/beampipe-domain/src/external_state.rs. One module for each enumeration, `Names` for the
-- texts under which all of them are stored, and `Reconcile` for the decision.
pub mod ControlPhase
pub mod SubmissionState
pub mod SchedulerState
pub mod DaliugeState
pub mod OutputState
pub mod TerminalOutcome
pub mod Names
pub mod Reconcile
