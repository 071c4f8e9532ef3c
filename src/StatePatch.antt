-- ===== src/StatePatch.antt =====
-- How an execution's row is patched with what was observed of it:
-- `apply_execution_state_patch_with_transition` of crates/beampipe-db/src/repo.rs, with the row and
-- the patch of crates/beampipe-db/src/models.rs. A row here has the columns that the patch reads or
-- writes; NULL is `none`, and a time is a number.
pub mod Laws
pub mod Traces
mod Examples
use beampipe_core_v.Common.{
  ℕ, String, Bool, true, false, not, ◌&&◌, ◌||◌, Option, none, some, is_some, Result, ok, err, List,
  [], ◌∷◌, ◌==◌, if◌then◌else◌,
}
use beampipe_core_v.Common.Rows.{coalesce}
use beampipe_core_v.Execution.Status
use beampipe_core_v.Execution.Status.{ExecutionStatus}
use beampipe_core_v.ExternalState.ControlPhase
use beampipe_core_v.ExternalState.ControlPhase.{ControlPhase}
use beampipe_core_v.ExternalState.DaliugeState
use beampipe_core_v.ExternalState.DaliugeState.{DaliugeState}
use beampipe_core_v.ExternalState.OutputState
use beampipe_core_v.ExternalState.OutputState.{OutputState}
use beampipe_core_v.ExternalState.Reconcile.{
  ExecutionAxes, ReconciliationDecision, ReconciliationMismatch, reconcile, output_verified,
}
use beampipe_core_v.ExternalState.SchedulerState
use beampipe_core_v.ExternalState.SchedulerState.{SchedulerState}
use beampipe_core_v.ExternalState.SubmissionState
use beampipe_core_v.ExternalState.SubmissionState.{SubmissionState}
use beampipe_core_v.ExternalState.TerminalOutcome
use beampipe_core_v.ExternalState.TerminalOutcome.{TerminalOutcome}
use beampipe_core_v.Worker.Failure
use beampipe_core_v.Worker.Failure.{FailureClass}

pub record ExecutionRow (V : Type 0) : Type 0 where
  pub uuid : ℕ
  pub project_module : String
  pub control_phase : Option String
  pub submission_state : Option String
  pub scheduler_name : Option String
  pub scheduler_job_id : Option String
  pub scheduler_state : Option String
  pub scheduler_raw_state : Option String
  pub scheduler_reason : Option String
  pub daliuge_session_id : Option String
  pub daliuge_manager_url : Option String
  pub daliuge_state : Option String
  pub daliuge_raw_status : Option V
  pub output_state : Option String
  pub output_verification_required : Bool
  pub remote_session_dir : Option String
  pub terminal_outcome : Option String
  pub failure_class : Option String
  -- The JSON object of the times at which phases were entered.
  pub phase_timestamps : List (String × ℕ)
  pub last_reconciled_at : Option ℕ
  pub last_error : Option String
  pub status : String
  pub updated_at : Option ℕ
  pub completed_at : Option ℕ

pub record ExecutionStatePatch (V : Type 0) : Type 0 where
  pub control_phase : Option ControlPhase
  pub submission_state : Option SubmissionState
  pub scheduler_name : Option String
  pub scheduler_job_id : Option String
  pub scheduler_state : Option SchedulerState
  pub scheduler_raw_state : Option String
  pub scheduler_reason : Option String
  pub daliuge_session_id : Option String
  pub daliuge_manager_url : Option String
  pub daliuge_state : Option DaliugeState
  pub daliuge_raw_status : Option V
  pub remote_session_dir : Option String
  pub output_state : Option OutputState
  pub terminal_outcome : Option TerminalOutcome
  pub failure_class : Option FailureClass
  pub last_error : Option String
  pub clear_failure_context : Bool
  pub last_reconciled_at : Option ℕ

-- `ExecutionRow::status_enum`, and `status_str` of the repository.
unfoldable pub status_enum : String → Option ExecutionStatus
status_enum s =
    if s == "pending"
    then some ExecutionStatus.pending
    else if s == "running"
    then some ExecutionStatus.running
    else if s == "awaiting_scheduler"
    then some ExecutionStatus.awaiting_scheduler
    else if s == "not_submitted"
    then some ExecutionStatus.not_submitted
    else if s == "completed"
    then some ExecutionStatus.completed
    else if s == "failed"
    then some ExecutionStatus.failed
    else if s == "retrying"
    then some ExecutionStatus.retrying
    else if s == "cancelled"
    then some ExecutionStatus.cancelled
    else none

unfoldable pub status_str : ExecutionStatus → String
status_str ExecutionStatus.pending = "pending"
status_str ExecutionStatus.running = "running"
status_str ExecutionStatus.awaiting_scheduler = "awaiting_scheduler"
status_str ExecutionStatus.not_submitted = "not_submitted"
status_str ExecutionStatus.completed = "completed"
status_str ExecutionStatus.failed = "failed"
status_str ExecutionStatus.retrying = "retrying"
status_str ExecutionStatus.cancelled = "cancelled"

-- `option.as_deref().and_then(parse).unwrap_or(default)`, and `option.map(f)`.
abbrev read_or {ℓ} : {A : Type ℓ} → (String → Option A) → A → Option String → A
read_or parse default none = default
read_or parse default (some s) = elim (parse s) [ none ↦ default | some a ↦ a ]

abbrev over {ℓ κ} : {A : Type ℓ} {B : Type κ} → (A → B) → Option A → Option B
over f none = none
over f (some a) = some (f a)

abbrev same_text : Option String → String → Bool
same_text none t = false
same_text (some s) t = s == t

-- `object || jsonb_build_object(key, time)`, and `object ? key`.
abbrev put : String → ℕ → List (String × ℕ) → List (String × ℕ)
put k t [] = (k, t) ∷ []
put k t ((j, u) ∷ rest) = if j == k then (j, t) ∷ rest else (j, u) ∷ put k t rest

abbrev pub has_key : String → List (String × ℕ) → Bool
has_key k [] = false
has_key k ((j, u) ∷ rest) = (j == k) || has_key k rest

-- The time of a phase that the patch enters.
abbrev stamped : ℕ → Option String → Option String → List (String × ℕ) → List (String × ℕ)
stamped now none old stamps = stamps
stamped now (some phase) old stamps = if same_text old phase then stamps else put phase now stamps

-- `aggregate_status`: a decision to wait keeps the status that the row has.
abbrev pub aggregate_status : ExecutionStatus → ExecutionStatus → ExecutionStatus
aggregate_status current ExecutionStatus.pending = current
aggregate_status current decided = decided

abbrev is_succeeded : Option TerminalOutcome → Bool
is_succeeded (some TerminalOutcome.succeeded) = true
is_succeeded _ = false

abbrev is_completed : ExecutionStatus → Bool
is_completed ExecutionStatus.completed = true
is_completed _ = false

-- What the provenance event of a mismatch holds.
pub record MismatchEvent : Type 0 where
  pub project_module : String
  pub execution_id : ℕ
  pub mismatch : ReconciliationMismatch
  pub previous_control_phase : Option String
  pub scheduler_state : Option String
  pub daliuge_state : Option String

-- The missing artifact of verified outputs, and a failure of the updates that they lead to.
pub data PatchError : Type 0 where
  no_output_inventory side_effects_failed : PatchError

module _ {V : Type 0} where
  pub current_status : ExecutionRow V → ExecutionStatus
  unfolding status_enum
  current_status row = elim (status_enum row.status) [ none ↦ ExecutionStatus.pending | some s ↦ s ]

  -- `ExecutionRow::axes`.
  unfoldable pub axes : ExecutionRow V → ExecutionAxes
  axes row = record {
    control_phase = read_or ControlPhase.parse ControlPhase.discovered row.control_phase;
    submission = read_or SubmissionState.parse SubmissionState.not_started row.submission_state;
    scheduler = read_or SchedulerState.parse SchedulerState.not_submitted row.scheduler_state;
    daliuge = read_or DaliugeState.parse DaliugeState.not_created row.daliuge_state;
    outputs = read_or OutputState.parse OutputState.not_started row.output_state;
    output_verification_required = row.output_verification_required;
  }

  -- The first update: the columns of the patch over those of the row.
  unfoldable pub projected : ℕ → ExecutionStatePatch V → ExecutionRow V → ExecutionRow V
  projected now p row = record row {
    control_phase = coalesce (over ControlPhase.as_str p.control_phase) row.control_phase;
    submission_state =
        coalesce (over SubmissionState.as_str p.submission_state) row.submission_state;
    scheduler_name = coalesce p.scheduler_name row.scheduler_name;
    scheduler_job_id = coalesce p.scheduler_job_id row.scheduler_job_id;
    scheduler_state = coalesce (over SchedulerState.as_str p.scheduler_state) row.scheduler_state;
    scheduler_raw_state = coalesce p.scheduler_raw_state row.scheduler_raw_state;
    scheduler_reason = coalesce p.scheduler_reason row.scheduler_reason;
    daliuge_session_id = coalesce p.daliuge_session_id row.daliuge_session_id;
    daliuge_manager_url = coalesce p.daliuge_manager_url row.daliuge_manager_url;
    daliuge_state = coalesce (over DaliugeState.as_str p.daliuge_state) row.daliuge_state;
    daliuge_raw_status = coalesce p.daliuge_raw_status row.daliuge_raw_status;
    remote_session_dir = coalesce p.remote_session_dir row.remote_session_dir;
    output_state = coalesce (over OutputState.as_str p.output_state) row.output_state;
    terminal_outcome =
        coalesce (over TerminalOutcome.as_str p.terminal_outcome) row.terminal_outcome;
    failure_class =
        if p.clear_failure_context
        then none
        else coalesce (over Failure.as_str p.failure_class) row.failure_class;
    last_error = if p.clear_failure_context then none else coalesce p.last_error row.last_error;
    last_reconciled_at = coalesce p.last_reconciled_at row.last_reconciled_at;
    phase_timestamps =
        stamped now (over ControlPhase.as_str p.control_phase) row.control_phase
          row.phase_timestamps;
    updated_at = some now;
  }

  -- The second update: what the decision says.
  unfoldable pub settled :
      ℕ → ExecutionStatus → Option TerminalOutcome → ExecutionRow V → ExecutionRow V
  unfolding status_str
  settled now status outcome row = record row {
    status = status_str status;
    terminal_outcome = coalesce (over TerminalOutcome.as_str outcome) row.terminal_outcome;
    last_error = if is_succeeded outcome then none else row.last_error;
    failure_class = if is_succeeded outcome then none else row.failure_class;
    control_phase = if Status.is_terminal status then some "terminal" else row.control_phase;
    phase_timestamps =
        if Status.is_terminal status && not (has_key "terminal" row.phase_timestamps)
        then put "terminal" now row.phase_timestamps
        else row.phase_timestamps;
    completed_at =
        if Status.is_terminal status
        then coalesce row.completed_at (some now)
        else row.completed_at;
    last_reconciled_at = some now;
    updated_at = some now;
  }

  abbrev mismatch_event :
      Option String → ExecutionRow V → Option ReconciliationMismatch → Option MismatchEvent
  mismatch_event previous_phase row none = none
  mismatch_event previous_phase row (some mismatch) = some (record {
    project_module = row.project_module;
    execution_id = row.uuid;
    mismatch = mismatch;
    previous_control_phase = previous_phase;
    scheduler_state = row.scheduler_state;
    daliuge_state = row.daliuge_state;
  })

-- `ExecutionStateApplyResult`, with the provenance event that is inserted.
pub record Applied (V : Type 0) : Type 0 where
  pub row : ExecutionRow V
  pub previous_status : ExecutionStatus
  pub entered_terminal : Bool
  pub event : Option MismatchEvent

-- `finalize` is `finalize_verified_execution_side_effects`, which updates other tables: whether it
-- succeeds for a row and the newest artifact of its output inventory.
module _ {V A : Type 0} (finalize : ExecutionRow V → A → Bool) where
  -- Verified outputs, where they are required, complete the execution.
  abbrev finalizes : Bool → ExecutionStatus → ExecutionRow V → Bool
  finalizes entered_terminal status row =
      entered_terminal
      && is_completed status
      && row.output_verification_required
      && output_verified (read_or OutputState.parse OutputState.not_started row.output_state)

  abbrev finalized : Option A → Applied V → Result (Option (Applied V)) PatchError
  finalized none a = err no_output_inventory
  finalized (some artifact) a =
      if finalize a.row artifact then ok (some a) else err side_effects_failed

  abbrev committed : Option A → ExecutionStatus → Applied V → Result (Option (Applied V)) PatchError
  committed artifact status a =
      if finalizes a.entered_terminal status a.row then finalized artifact a else ok (some a)

  -- From the row after the first update and the decision on its axes.
  abbrev decided :
      ℕ
      → Option A
      → ExecutionRow V
      → ExecutionRow V
      → ReconciliationDecision
      → Result (Option (Applied V)) PatchError
  decided now artifact locked row decision =
      let current = current_status locked in
      let status = aggregate_status current decision.status in
      let after = settled now status decision.terminal_outcome row in
      committed artifact status (record {
        row = after;
        previous_status = current;
        entered_terminal = not (Status.is_terminal current) && Status.is_terminal status;
        event = mismatch_event locked.control_phase after decision.mismatch;
      })

  -- `locked` is the row that is selected for the update.
  unfoldable pub apply_execution_state_patch_with_transition :
      ℕ
      → Option A
      → Option (ExecutionRow V)
      → ExecutionStatePatch V
      → Result (Option (Applied V)) PatchError
  unfolding projected settled axes current_status
  apply_execution_state_patch_with_transition now artifact none patch = ok none
  apply_execution_state_patch_with_transition now artifact (some locked) patch =
      if Status.is_terminal (current_status locked)
      then ok (
          some (record {
            row = locked;
            previous_status = current_status locked;
            entered_terminal = false;
            event = none;
          }))
      else decided now artifact locked (projected now patch locked)
          (reconcile (axes (projected now patch locked)))

  -- `apply_execution_state_patch`.
  abbrev row_of :
      Result (Option (Applied V)) PatchError → Result (Option (ExecutionRow V)) PatchError
  row_of (err e) = err e
  row_of (ok none) = ok none
  row_of (ok (some a)) = ok (some a.row)

  pub apply_execution_state_patch :
      ℕ
      → Option A
      → Option (ExecutionRow V)
      → ExecutionStatePatch V
      → Result (Option (ExecutionRow V)) PatchError
  unfolding apply_execution_state_patch_with_transition
  apply_execution_state_patch now artifact locked patch =
      row_of (apply_execution_state_patch_with_transition now artifact locked patch)
