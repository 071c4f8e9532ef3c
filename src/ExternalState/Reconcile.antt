-- ===== src/ExternalState/Reconcile.antt =====
-- `ExecutionAxes::reconcile` of crates/beampipe-domain/src/external_state.rs: what the observed
-- axes of an execution decide about its status, its outcome and the next thing to do.
pub mod Cases
pub mod Laws
mod Examples
pub mod Spec
use beampipe_core_v.Common.{
  String, Bool, true, false, ◌&&◌, ◌||◌, not, Option, none, some, when, is_some, if◌then◌else◌,
}
use beampipe_core_v.Execution.Status.{ExecutionStatus}
use beampipe_core_v.ExternalState.ControlPhase.{ControlPhase}
use beampipe_core_v.ExternalState.DaliugeState
use beampipe_core_v.ExternalState.DaliugeState.{DaliugeState}
use beampipe_core_v.ExternalState.OutputState.{OutputState}
use beampipe_core_v.ExternalState.SchedulerState
use beampipe_core_v.ExternalState.SchedulerState.{SchedulerState}
use beampipe_core_v.ExternalState.SubmissionState.{SubmissionState}
use beampipe_core_v.ExternalState.TerminalOutcome.{TerminalOutcome}

pub data ReconciliationAction : Type 0 where
  wait poll_scheduler poll_daliuge verify_outputs operator_review none_action : ReconciliationAction

pub record ReconciliationMismatch : Type 0 where
  pub code : String
  pub message : String
  pub requires_operator : Bool

pub record ReconciliationDecision : Type 0 where
  pub status : ExecutionStatus
  pub terminal_outcome : Option TerminalOutcome
  pub next_action : ReconciliationAction
  pub mismatch : Option ReconciliationMismatch

pub record ExecutionAxes : Type 0 where
  pub control_phase : ControlPhase
  pub submission : SubmissionState
  pub scheduler : SchedulerState
  pub daliuge : DaliugeState
  pub outputs : OutputState
  pub output_verification_required : Bool

-- The comparisons of the source, `self.outputs == OutputState::Failed` and the like.
abbrev pub output_failed : OutputState → Bool
output_failed OutputState.failed = true
output_failed _ = false

abbrev pub output_verified : OutputState → Bool
output_verified OutputState.verified = true
output_verified _ = false

abbrev pub submission_failed : SubmissionState → Bool
submission_failed SubmissionState.failed = true
submission_failed _ = false

abbrev pub submission_uncertain : SubmissionState → Bool
submission_uncertain SubmissionState.uncertain = true
submission_uncertain _ = false

abbrev pub daliuge_failed : DaliugeState → Bool
daliuge_failed DaliugeState.failed = true
daliuge_failed _ = false

abbrev pub daliuge_cancelled : DaliugeState → Bool
daliuge_cancelled DaliugeState.cancelled = true
daliuge_cancelled _ = false

abbrev pub daliuge_finished : DaliugeState → Bool
daliuge_finished DaliugeState.finished = true
daliuge_finished _ = false

-- `matches!(self.daliuge, D::Unknown | D::Unreachable | D::NotCreated)`.
abbrev pub daliuge_unconfirmed : DaliugeState → Bool
daliuge_unconfirmed DaliugeState.unknown = true
daliuge_unconfirmed DaliugeState.unreachable = true
daliuge_unconfirmed DaliugeState.not_created = true
daliuge_unconfirmed _ = false

-- `matches!(self.scheduler, S::Failed | S::TimedOut)`.
abbrev pub scheduler_unsuccessful : SchedulerState → Bool
scheduler_unsuccessful SchedulerState.failed = true
scheduler_unsuccessful SchedulerState.timed_out = true
scheduler_unsuccessful _ = false

abbrev pub scheduler_succeeded : SchedulerState → Bool
scheduler_succeeded SchedulerState.succeeded = true
scheduler_succeeded _ = false

abbrev pub scheduler_cancelled : SchedulerState → Bool
scheduler_cancelled SchedulerState.cancelled = true
scheduler_cancelled _ = false

-- `matches!(self.scheduler, S::Succeeded | S::NotSubmitted)`.
abbrev pub scheduler_settled : SchedulerState → Bool
scheduler_settled SchedulerState.succeeded = true
scheduler_settled SchedulerState.not_submitted = true
scheduler_settled _ = false

abbrev pub scheduler_pending : SchedulerState → Bool
scheduler_pending SchedulerState.pending = true
scheduler_pending _ = false

abbrev pub scheduler_running : SchedulerState → Bool
scheduler_running SchedulerState.running = true
scheduler_running _ = false

abbrev pub scheduler_unknown : SchedulerState → Bool
scheduler_unknown SchedulerState.unknown = true
scheduler_unknown _ = false

pub active : ExecutionStatus → ReconciliationAction → ReconciliationDecision
active status next_action = record {
  status = status;
  terminal_outcome = none;
  next_action = next_action;
  mismatch = none;
}

pub terminal : ExecutionStatus → TerminalOutcome → ReconciliationDecision
terminal status outcome = record {
  status = status;
  terminal_outcome = some outcome;
  next_action = none_action;
  mismatch = none;
}

abbrev failed_with : Option ReconciliationMismatch → ReconciliationAction → ReconciliationDecision
failed_with mismatch poll = record {
  status = ExecutionStatus.failed;
  terminal_outcome = some TerminalOutcome.failed;
  next_action = if is_some mismatch then poll else none_action;
  mismatch = mismatch;
}

abbrev partial_cancellation : Bool → ReconciliationDecision
partial_cancellation other_active = record {
  status = ExecutionStatus.cancelled;
  terminal_outcome =
      some (if other_active then TerminalOutcome.inconsistent else TerminalOutcome.cancelled);
  next_action = if other_active then operator_review else none_action;
  mismatch = when other_active (record {
    code = "partial_cancellation";
    message = "one external execution layer is cancelled while another remains active";
    requires_operator = true;
  });
}

-- The tests that follow those for failure, inconsistency and cancellation.
pub reconcile_sound : ExecutionAxes → ReconciliationDecision
unfolding active terminal
reconcile_sound axes =
    if daliuge_finished axes.daliuge && scheduler_settled axes.scheduler
    then (if axes.output_verification_required && not (output_verified axes.outputs)
        then active ExecutionStatus.running verify_outputs
        else terminal ExecutionStatus.completed TerminalOutcome.succeeded)
    else if submission_uncertain axes.submission
    then record {
      status = ExecutionStatus.awaiting_scheduler;
      terminal_outcome = none;
      next_action = poll_scheduler;
      mismatch = some (record {
        code = "submission_outcome_uncertain";
        message = "submission may have succeeded but its response was not observed";
        requires_operator = false;
      });
    }
    else if scheduler_pending axes.scheduler
    then active ExecutionStatus.awaiting_scheduler poll_scheduler
    else if scheduler_running axes.scheduler || DaliugeState.is_active axes.daliuge
    then active ExecutionStatus.running poll_daliuge
    else if scheduler_succeeded axes.scheduler && daliuge_unconfirmed axes.daliuge
    then record {
      status = ExecutionStatus.awaiting_scheduler;
      terminal_outcome = none;
      next_action = poll_daliuge;
      mismatch = some (record {
        code = "scheduler_finished_daliuge_unconfirmed";
        message = "the scheduler job finished but DALiuGE completion is not confirmed";
        requires_operator = false;
      });
    }
    else if scheduler_unknown axes.scheduler
    then active ExecutionStatus.awaiting_scheduler poll_scheduler
    else active ExecutionStatus.pending wait

unfoldable pub reconcile : ExecutionAxes → ReconciliationDecision
unfolding active terminal reconcile_sound
reconcile axes =
    if output_failed axes.outputs || submission_failed axes.submission
    then terminal ExecutionStatus.failed TerminalOutcome.failed
    else if daliuge_failed axes.daliuge
    then failed_with
        (when (SchedulerState.is_active axes.scheduler) (record {
          code = "daliuge_failed_scheduler_active";
          message = "the DALiuGE session failed while its scheduler allocation is active";
          requires_operator = false;
        }))
        poll_scheduler
    else if scheduler_unsuccessful axes.scheduler
    then failed_with
        (when (DaliugeState.is_active axes.daliuge) (record {
          code = "scheduler_failed_daliuge_active";
          message =
              "the scheduler job ended unsuccessfully while DALiuGE still reports an active session";
          requires_operator = false;
        }))
        poll_daliuge
    else if scheduler_succeeded axes.scheduler && DaliugeState.is_active axes.daliuge
    then record {
      status = ExecutionStatus.failed;
      terminal_outcome = some TerminalOutcome.inconsistent;
      next_action = operator_review;
      mismatch = some (record {
        code = "scheduler_finished_daliuge_active";
        message = "the scheduler allocation finished while DALiuGE still reports an active session";
        requires_operator = true;
      });
    }
    else if scheduler_cancelled axes.scheduler || daliuge_cancelled axes.daliuge
    then partial_cancellation
        (SchedulerState.is_active axes.scheduler || DaliugeState.is_active axes.daliuge)
    else reconcile_sound axes
