-- ===== src/Execution/Retry.antt =====
-- The plan for retrying a failed execution in place: `plan_execution_retry` of
-- crates/beampipe-domain/src/execution.rs.
pub mod Laws
mod Examples
use beampipe_core_v.Common.{
  String, Bool, true, false, ◌&&◌, ◌||◌, not, Option, none, some, Result, ok, err, if◌then◌else◌,
}
use beampipe_core_v.Execution.Status.{ExecutionStatus}
use beampipe_core_v.ExternalState.DaliugeState.{DaliugeState}
use beampipe_core_v.ExternalState.SchedulerState.{SchedulerState}
use beampipe_core_v.ExternalState.SubmissionState.{SubmissionState}
use beampipe_core_v.ExternalState.TerminalOutcome.{TerminalOutcome}

pub data ExecutionPhase : Type 0 where
  stage_and_manifest submit : ExecutionPhase

pub data ExecutionRetryStage : Type 0 where
  stage_and_manifest submit : ExecutionRetryStage

pub as_str : ExecutionRetryStage → String
as_str ExecutionRetryStage.stage_and_manifest = "stage_and_manifest"
as_str ExecutionRetryStage.submit = "submit"

pub record ExecutionRetryContext : Type 0 where
  pub status : ExecutionStatus
  pub phase : Option ExecutionPhase
  pub submission : SubmissionState
  pub scheduler : SchedulerState
  pub daliuge : DaliugeState
  pub terminal_outcome : Option TerminalOutcome
  pub has_manifest : Bool
  pub has_scheduler_job_id : Bool

pub record ExecutionRetryPlan : Type 0 where
  pub stage : ExecutionRetryStage
  pub do_stage : Bool
  pub do_submit : Bool

pub record ExecutionRetryRejection : Type 0 where
  pub code : String
  pub message : String

-- The comparisons of the source.
abbrev status_failed : ExecutionStatus → Bool
status_failed ExecutionStatus.failed = true
status_failed _ = false

abbrev outcome_inconsistent : Option TerminalOutcome → Bool
outcome_inconsistent (some TerminalOutcome.inconsistent) = true
outcome_inconsistent _ = false

abbrev submission_may_exist : SubmissionState → Bool
submission_may_exist SubmissionState.preparing = true
submission_may_exist SubmissionState.in_flight = true
submission_may_exist SubmissionState.submitted = true
submission_may_exist SubmissionState.uncertain = true
submission_may_exist _ = false

abbrev pub submission_failed : SubmissionState → Bool
submission_failed SubmissionState.failed = true
submission_failed _ = false

abbrev scheduler_not_submitted : SchedulerState → Bool
scheduler_not_submitted SchedulerState.not_submitted = true
scheduler_not_submitted _ = false

abbrev daliuge_not_created : DaliugeState → Bool
daliuge_not_created DaliugeState.not_created = true
daliuge_not_created _ = false

abbrev pub in_submit_phase : Option ExecutionPhase → Bool
in_submit_phase (some ExecutionPhase.submit) = true
in_submit_phase _ = false

reject : String → String → Result ExecutionRetryPlan ExecutionRetryRejection
reject code message = err (record { code = code; message = message })

-- The last step: the plan for a stage.
plan : ExecutionRetryStage → Result ExecutionRetryPlan ExecutionRetryRejection
plan ExecutionRetryStage.stage_and_manifest =
    ok
      (record { stage = ExecutionRetryStage.stage_and_manifest; do_stage = true; do_submit = true })
plan ExecutionRetryStage.submit =
    ok (record { stage = ExecutionRetryStage.submit; do_stage = false; do_submit = true })

pub plan_execution_retry : ExecutionRetryContext → Result ExecutionRetryPlan ExecutionRetryRejection
unfolding reject plan
plan_execution_retry context =
    if not (status_failed context.status)
    then reject "execution_not_failed" "only a failed execution can be retried in place"
    else if outcome_inconsistent context.terminal_outcome
    then reject "external_state_inconsistent"
        "the external state is inconsistent; reconcile or create a new execution instead of replaying work"
    else if submission_may_exist context.submission
    then reject "submission_may_exist"
        "submission may have reached an external system; retry is blocked to prevent duplicate work"
    else if context.has_scheduler_job_id || not (scheduler_not_submitted context.scheduler)
    then reject "scheduler_work_exists"
        "a scheduler job or scheduler observation exists; create a new execution after reconciliation"
    else if not (daliuge_not_created context.daliuge)
    then reject "daliuge_session_may_exist"
        "DALiuGE is not definitively in the not-created state; retry is blocked to prevent duplicate sessions"
    else if in_submit_phase context.phase
        || submission_failed context.submission && context.has_manifest
    then (if not context.has_manifest
        then reject "retry_manifest_missing"
            "the submit stage cannot be retried because its pinned manifest is missing"
        else plan ExecutionRetryStage.submit)
    else plan ExecutionRetryStage.stage_and_manifest
