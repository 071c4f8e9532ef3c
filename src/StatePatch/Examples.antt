-- ===== src/StatePatch/Examples.antt =====
-- Tests of the state patch, and its theorems at a concrete execution.
use beampipe_core_v.Common.{String, ◌≡◌, ◌↔◌, refl, Bool, true, false, none, some, ok, [], ◌∷◌, inl}
use beampipe_core_v.Execution.Status
use beampipe_core_v.Execution.Status.{ExecutionStatus}
use beampipe_core_v.ExternalState.DaliugeState
use beampipe_core_v.ExternalState.DaliugeState.{DaliugeState}
use beampipe_core_v.ExternalState.OutputState
use beampipe_core_v.ExternalState.OutputState.{OutputState}
use beampipe_core_v.ExternalState.Reconcile.{reconcile}
use beampipe_core_v.ExternalState.SchedulerState
use beampipe_core_v.ExternalState.SchedulerState.{SchedulerState}
use beampipe_core_v.ExternalState.SubmissionState
use beampipe_core_v.ExternalState.SubmissionState.{SubmissionState}
use beampipe_core_v.ExternalState.TerminalOutcome
use beampipe_core_v.StatePatch.{
  ExecutionRow, ExecutionStatePatch, Applied, status_enum, status_str, current_status,
  apply_execution_state_patch_with_transition,
}
use beampipe_core_v.StatePatch.Laws.{IsSettled}
use beampipe_core_v.StatePatch.Traces.{
  run, run-IsSettled, run_terminal, entered_terminal_iff, completed_is_finalized,
}

-- A running execution whose session has finished, and whose outputs have to be verified.
abbrev running : ExecutionRow String
running = record {
  uuid = 1;
  project_module = "wallaby";
  control_phase = some "output_verification";
  submission_state = some "submitted";
  scheduler_name = some "slurm";
  scheduler_job_id = some "42";
  scheduler_state = some "succeeded";
  scheduler_raw_state = none;
  scheduler_reason = none;
  daliuge_session_id = none;
  daliuge_manager_url = none;
  daliuge_state = some "finished";
  daliuge_raw_status = none;
  output_state = some "pending";
  output_verification_required = true;
  remote_session_dir = none;
  terminal_outcome = none;
  failure_class = some "timeout";
  phase_timestamps = [];
  last_reconciled_at = none;
  last_error = some "poll timed out";
  status = "running";
  updated_at = none;
  completed_at = none;
}

abbrev no_change : ExecutionStatePatch String
no_change = record {
  control_phase = none;
  submission_state = none;
  scheduler_name = none;
  scheduler_job_id = none;
  scheduler_state = none;
  scheduler_raw_state = none;
  scheduler_reason = none;
  daliuge_session_id = none;
  daliuge_manager_url = none;
  daliuge_state = none;
  daliuge_raw_status = none;
  remote_session_dir = none;
  output_state = none;
  terminal_outcome = none;
  failure_class = none;
  last_error = none;
  clear_failure_context = false;
  last_reconciled_at = none;
}

abbrev verified : ExecutionStatePatch String
verified = record no_change { output_state = some OutputState.verified }

abbrev finalize : ExecutionRow String → String → Bool
finalize _ _ = true

abbrev done : ExecutionRow String
done = record running {
  control_phase = some "terminal";
  output_state = some "verified";
  terminal_outcome = some "succeeded";
  failure_class = none;
  phase_timestamps = ("terminal", 50) ∷ [];
  last_reconciled_at = some 50;
  last_error = none;
  status = "completed";
  updated_at = some 50;
  completed_at = some 50;
}

abbrev applied : Applied String
applied = record {
  row = done;
  previous_status = ExecutionStatus.running;
  entered_terminal = true;
  event = none;
}

verified_completes :
    apply_execution_state_patch_with_transition finalize 50
      (some "inventory")
      (some running)
      verified
    ≡ ok (some applied)
unfolding apply_execution_state_patch_with_transition status_enum status_str reconcile
    OutputState.parse OutputState.as_str SubmissionState.parse DaliugeState.parse
    SchedulerState.parse TerminalOutcome.as_str
verified_completes = refl

run-IsSettled_example :
    IsSettled (run finalize running ((50, some "inventory", verified) ∷ (60, none, no_change) ∷ []))
unfolding current_status
run-IsSettled_example = run-IsSettled finalize running _ (inl refl)

run_terminal_example : run finalize done ((60, none, no_change) ∷ []) ≡ done
unfolding current_status
run_terminal_example = run_terminal finalize done ((60, none, no_change) ∷ []) refl

entered_terminal_iff_example : (true ≡ true) ↔ (
    (Status.is_terminal (current_status running) ≡ false)
    × (Status.is_terminal (current_status done) ≡ true))
entered_terminal_iff_example =
    entered_terminal_iff finalize 50 (some "inventory") verified running applied verified_completes

completed_is_finalized_example :
    (x : String) × (some "inventory" ≡ some x) × (finalize done x ≡ true)
unfolding current_status
completed_is_finalized_example =
    completed_is_finalized finalize 50 (some "inventory") verified running applied
      verified_completes refl refl refl
