-- ===== src/Execution/Retry/Laws.antt =====
-- Retries in place (`plan_execution_retry` of crates/beampipe-domain/src/execution.rs).
use beampipe_core_v.Common.{
  ◌≡◌, ◌≢◌, ◌↔◌, ◌⊎◌, true, false, some, none, Result, ok, err, arith, Bool, Bool-cases, inl, inr,
  refl, ◌&&◌, not,
}
use beampipe_core_v.Execution.Status.{ExecutionStatus}
use beampipe_core_v.ExternalState.ControlPhase.{ControlPhase}
use beampipe_core_v.ExternalState.DaliugeState.{DaliugeState}
use beampipe_core_v.ExternalState.OutputState.{OutputState}
use beampipe_core_v.ExternalState.Reconcile.{
  ExecutionAxes, reconcile, none_action, wait, output_failed,
}
use beampipe_core_v.ExternalState.SchedulerState.{SchedulerState}
use beampipe_core_v.ExternalState.SubmissionState.{SubmissionState}
use beampipe_core_v.ExternalState.TerminalOutcome.{TerminalOutcome}
use beampipe_core_v.Execution.Retry.{
  ExecutionPhase, ExecutionRetryStage, ExecutionRetryContext, ExecutionRetryPlan,
  ExecutionRetryRejection, in_submit_phase, plan_execution_retry,
}

-- The execution failed, and nothing of it can exist outside.
pub record IsReplayable (c : ExecutionRetryContext) : Type 0 where
  pub failed : c.status ≡ ExecutionStatus.failed
  pub consistent : c.terminal_outcome ≢ some TerminalOutcome.inconsistent
  pub no_submission :
      (c.submission ≡ SubmissionState.not_started) ⊎ (c.submission ≡ SubmissionState.failed)
  pub no_allocation : c.scheduler ≡ SchedulerState.not_submitted
  pub no_job_id : c.has_scheduler_job_id ≡ false
  pub no_session : c.daliuge ≡ DaliugeState.not_created

-- The run stopped in its submit stage, by its phase or by its evidence.
abbrev pub StoppedInSubmit : ExecutionRetryContext → Type 0
StoppedInSubmit c =
    (c.phase ≡ some ExecutionPhase.submit)
    ⊎ ((c.submission ≡ SubmissionState.failed) × (c.has_manifest ≡ true))

-- What a plan must be for a context: the stage where the run stopped, staged anew only if that is
-- the first one, and submitted in any case; the submit stage needs its manifest.
pub record Fits (c : ExecutionRetryContext) (p : ExecutionRetryPlan) : Type 0 where
  pub replayable : IsReplayable c
  pub submit_stage : (p.stage ≡ ExecutionRetryStage.submit) ↔ StoppedInSubmit c
  pub has_manifest : (p.stage ≡ ExecutionRetryStage.stage_and_manifest) ⊎ (c.has_manifest ≡ true)
  pub stages : (p.do_stage ≡ true) ↔ (p.stage ≡ ExecutionRetryStage.stage_and_manifest)
  pub submits : p.do_submit ≡ true

abbrev pub is_ok : Result ExecutionRetryPlan ExecutionRetryRejection → Bool
is_ok (ok p) = true
is_ok (err e) = false

-- It still has its manifest, if it stopped in its submit phase.
abbrev pub HasManifest : ExecutionRetryContext → Type 0
HasManifest c = in_submit_phase c.phase && not c.has_manifest ≡ false

IsReplayable-ok :
    (c : ExecutionRetryContext)
    → IsReplayable c
    → HasManifest c
    → is_ok (plan_execution_retry c) ≡ true
unfolding plan_execution_retry
IsReplayable-ok c h m = ground arith

IsReplayable-of_ok :
    (c : ExecutionRetryContext)
    → is_ok (plan_execution_retry c) ≡ true
    → IsReplayable c × HasManifest c
unfolding plan_execution_retry
IsReplayable-of_ok c h = (ground arith, ground arith)

-- A retry is planned exactly for a failed execution of which nothing can exist outside, and which
-- still has its manifest if it stopped in its submit phase.
pub retry_iff :
    (c : ExecutionRetryContext)
    → (is_ok (plan_execution_retry c) ≡ true) ↔ (IsReplayable c × HasManifest c)
retry_iff c = (IsReplayable-of_ok c, λ h. IsReplayable-ok c h.0 h.1)

-- A plan that is made fits its context: nothing can exist outside, it is for the submit stage
-- exactly if the run stopped there, with the manifest that this stage needs, it stages exactly if
-- it is not, and it submits.
pub plan_execution_retry-Fits :
    (c : ExecutionRetryContext) (p : ExecutionRetryPlan) → plan_execution_retry c ≡ ok p → Fits c p
unfolding plan_execution_retry
plan_execution_retry-Fits c p h = ground arith

-- The axes from which a retry context was read.
abbrev pub axes_of : ControlPhase → OutputState → Bool → ExecutionRetryContext → ExecutionAxes
axes_of control outputs required c = record {
  control_phase = control;
  submission = c.submission;
  scheduler = c.scheduler;
  daliuge = c.daliuge;
  outputs = outputs;
  output_verification_required = required;
}

-- Where a retry is planned, reconciling the same axes, whatever the outputs and the control phase,
-- finds no mismatch, and either waits or reports the failure with nothing left to do.
pub retry_reconciles :
    (c : ExecutionRetryContext) (control : ControlPhase) (outputs : OutputState) (required : Bool)
    → is_ok (plan_execution_retry c) ≡ true
    → let d = reconcile (axes_of control outputs required c) in
      (d.mismatch ≡ none)
      × ((d.next_action ≡ none_action) × (d.status ≡ ExecutionStatus.failed)
          ⊎ (d.next_action ≡ wait))
unfolding reconcile
retry_reconciles c control outputs required h =
    let r = (IsReplayable-of_ok c h).0 in
    elim (Bool-cases (output_failed outputs)) [
      | inl bad ↦ rw (r.no_session, r.no_allocation, bad) (refl, inl (refl, refl))
      | inr good ↦ elim r.no_submission [
        | inl e ↦ rw (r.no_session, r.no_allocation, good, e) (refl, inr refl)
        | inr e ↦ rw (r.no_session, r.no_allocation, good, e) (refl, inl (refl, refl))
      ]
    ]
