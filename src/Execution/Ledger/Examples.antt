-- ===== src/Execution/Ledger/Examples.antt =====
-- Runs of `LedgerState::apply_patch` (crates/beampipe-domain/src/execution.rs), and its theorems at
-- concrete rows and patches. Times and documents are numbers here.
use beampipe_core_v.Common.{
  ℕ, ◌+◌, ◌≡◌, ◌≢◌, ◌↔◌, refl, false, none, some, List, [], ◌∷◌, err, arith,
}
use beampipe_core_v.Common.Int.{pos}
use beampipe_core_v.Execution.Retry.{ExecutionPhase}
use beampipe_core_v.Execution.Status.{
  ExecutionStatus, pending, running, completed, failed, retrying, is_locked_terminal, allows,
}
use beampipe_core_v.Execution.Status.Laws.{Reach}
use beampipe_core_v.Execution.Ledger.{LedgerPatch, LedgerState, invalid, apply_patch}
use beampipe_core_v.Execution.Ledger.Laws.{apply_patch_error}
use beampipe_core_v.Execution.Ledger.Traces.{run, retries, run-Reach, run-retry_count}

abbrev row : LedgerState ℕ ℕ
row = record {
  status = pending;
  execution_phase = some ExecutionPhase.stage_and_manifest;
  retry_count = pos 0;
  scheduler_name = none;
  scheduler_job_id = none;
  workflow_manifest = none;
  last_error = none;
  started_at = none;
  completed_at = none;
  updated_at = none;
}

-- A patch that asks for a status and nothing else.
abbrev to : ExecutionStatus → LedgerPatch ℕ
to s = record {
  status = some s;
  scheduler_name = none;
  scheduler_job_id = none;
  workflow_manifest = none;
  error = none;
  execution_phase = none;
  clear_error = false;
}

-- A failure, a retry, and a completion.
abbrev life : List (LedgerPatch ℕ × ℕ)
life =
    (to running, 1)
    ∷ (record (to failed) { error = some "boom" }, 2)
    ∷ (to retrying, 3)
    ∷ (to running, 4)
    ∷ (to completed, 5)
    ∷ []

abbrev done : LedgerState ℕ ℕ
done = record row {
  status = completed;
  execution_phase = none;
  retry_count = pos 1;
  started_at = some 1;
  completed_at = some 2;
  updated_at = some 5;
}

life_completes : run row life ≡ done
unfolding run apply_patch
life_completes = refl

run-retry_count_example : (run row life).retry_count ≡ pos (0 + retries row life)
run-retry_count_example = run-retry_count row life 0 refl (omega arith)

run-Reach_example : Reach pending (run row life).status
run-Reach_example = run-Reach row life

apply_patch_error_example :
    ((apply_patch row (to completed) 1).1 ≡ err (invalid pending completed)) ↔ (
      (pending ≡ row.status)
      × ((to completed).status ≡ some completed)
      × (completed ≢ row.status)
      × (is_locked_terminal row.status ≡ false)
      × (allows row.status completed ≡ false))
apply_patch_error_example = apply_patch_error row (to completed) 1 pending completed
