-- ===== src/Execution/Retry/Examples.antt =====
-- Runs of `plan_execution_retry` (crates/beampipe-domain/src/execution.rs), and its theorems at
-- concrete contexts.
use beampipe_core_v.Common.{◌≡◌, ◌↔◌, ◌⊎◌, refl, true, false, none, some, ok}
use beampipe_core_v.Execution.Status.{ExecutionStatus}
use beampipe_core_v.ExternalState.ControlPhase.{ControlPhase}
use beampipe_core_v.ExternalState.DaliugeState.{DaliugeState}
use beampipe_core_v.ExternalState.OutputState.{OutputState}
use beampipe_core_v.ExternalState.Reconcile.{reconcile, none_action, wait}
use beampipe_core_v.ExternalState.SchedulerState.{SchedulerState}
use beampipe_core_v.ExternalState.SubmissionState.{SubmissionState}
use beampipe_core_v.ExternalState.TerminalOutcome.{TerminalOutcome}
use beampipe_core_v.Execution.Retry.{
  ExecutionPhase, ExecutionRetryStage, ExecutionRetryContext, ExecutionRetryPlan,
  plan_execution_retry,
}
use beampipe_core_v.Execution.Retry.Laws.{
  IsReplayable, HasManifest, is_ok, retry_iff, axes_of, retry_reconciles,
}

-- A submission that failed before anything was created.
abbrev refused_submission : ExecutionRetryContext
refused_submission = record {
  status = ExecutionStatus.failed;
  phase = some ExecutionPhase.submit;
  submission = SubmissionState.failed;
  scheduler = SchedulerState.not_submitted;
  daliuge = DaliugeState.not_created;
  terminal_outcome = some TerminalOutcome.failed;
  has_manifest = true;
  has_scheduler_job_id = false;
}

abbrev resubmission : ExecutionRetryPlan
resubmission = record { stage = ExecutionRetryStage.submit; do_stage = false; do_submit = true }

resumes : plan_execution_retry refused_submission ≡ ok resubmission
unfolding plan_execution_retry
resumes = refl

retry_iff_example :
    (is_ok (plan_execution_retry refused_submission) ≡ true)
    ↔ (IsReplayable refused_submission × HasManifest refused_submission)
retry_iff_example = retry_iff refused_submission

retry_reconciles_example :
    let d =
      reconcile
        (axes_of ControlPhase.submission_pending OutputState.unknown true refused_submission) in
    (d.mismatch ≡ none)
    × ((d.next_action ≡ none_action) × (d.status ≡ ExecutionStatus.failed) ⊎ (d.next_action ≡ wait))
retry_reconciles_example =
    retry_reconciles refused_submission ControlPhase.submission_pending OutputState.unknown true
      (unfold plan_execution_retry in refl)
