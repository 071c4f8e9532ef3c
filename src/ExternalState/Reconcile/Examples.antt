-- ===== src/ExternalState/Reconcile/Examples.antt =====
-- Runs of `ExecutionAxes::reconcile`
-- (crates/beampipe-domain/src/external_state.rs), and its theorems at concrete axes.
use beampipe_core_v.Common.{◌≡◌, ◌↔◌, refl, true, false, some}
use beampipe_core_v.Execution.Status.{ExecutionStatus}
use beampipe_core_v.ExternalState.ControlPhase.{ControlPhase}
use beampipe_core_v.ExternalState.DaliugeState.{DaliugeState}
use beampipe_core_v.ExternalState.OutputState.{OutputState}
use beampipe_core_v.ExternalState.SchedulerState.{SchedulerState}
use beampipe_core_v.ExternalState.SubmissionState.{SubmissionState}
use beampipe_core_v.ExternalState.TerminalOutcome.{TerminalOutcome}
use beampipe_core_v.ExternalState.Reconcile.{ExecutionAxes, reconcile}
use beampipe_core_v.ExternalState.Reconcile.Laws.{IsComplete, reconcile-completed}
use beampipe_core_v.ExternalState.Reconcile.Spec.{IsCoherent, reconcile-IsCoherent}

-- The default axes.
abbrev fresh : ExecutionAxes
fresh = record {
  control_phase = ControlPhase.discovered;
  submission = SubmissionState.not_started;
  scheduler = SchedulerState.not_submitted;
  daliuge = DaliugeState.not_created;
  outputs = OutputState.not_started;
  output_verification_required = false;
}

-- A finished session whose outputs have to be verified.
abbrev unverified : ExecutionAxes
unverified = record fresh {
  submission = SubmissionState.submitted;
  daliuge = DaliugeState.finished;
  output_verification_required = true;
}

rest_execution_completes :
    (reconcile (record fresh {
      submission = SubmissionState.submitted;
      daliuge = DaliugeState.finished;
    })).status
    ≡ ExecutionStatus.completed
unfolding reconcile
rest_execution_completes = refl

finished_allocation_with_active_session :
    (reconcile (record fresh {
      scheduler = SchedulerState.succeeded;
      daliuge = DaliugeState.running;
    })).terminal_outcome
    ≡ some TerminalOutcome.inconsistent
unfolding reconcile
finished_allocation_with_active_session = refl

reconcile-completed_example :
    ((reconcile unverified).status ≡ ExecutionStatus.completed) ↔ IsComplete unverified
reconcile-completed_example = reconcile-completed unverified

reconcile-IsCoherent_example : IsCoherent (reconcile unverified)
reconcile-IsCoherent_example = reconcile-IsCoherent unverified
