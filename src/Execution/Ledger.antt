-- ===== src/Execution/Ledger.antt =====
-- The ledger row of an execution and the patches that move it: `LedgerState::apply_patch` of
-- crates/beampipe-domain/src/execution.rs. Timestamps and JSON documents are parameters: the code
-- only stores them.
pub mod Laws
mod Examples
pub mod Traces
use beampipe_core_v.Common.{
  String, Bool, true, false, ◌&&◌, ◌||◌, not, Option, none, some, is_none, Result, ok, err,
  if◌then◌else◌,
}
use beampipe_core_v.Common.Int.{ℤ, succ_i32}
use beampipe_core_v.Execution.Retry.{ExecutionPhase}
use beampipe_core_v.Execution.Status.{
  ExecutionStatus, is_terminal, is_locked_terminal, allows, status_eq,
}

pub data TransitionError : Type 0 where
  invalid : ExecutionStatus → ExecutionStatus → TransitionError

pub record LedgerPatch (Json : Type 0) : Type 0 where
  pub status : Option ExecutionStatus
  pub scheduler_name : Option String
  pub scheduler_job_id : Option String
  pub workflow_manifest : Option Json
  pub error : Option String
  pub execution_phase : Option (Option ExecutionPhase)
  pub clear_error : Bool

pub record LedgerState (Time Json : Type 0) : Type 0 where
  pub status : ExecutionStatus
  pub execution_phase : Option ExecutionPhase
  pub retry_count : ℤ
  pub scheduler_name : Option String
  pub scheduler_job_id : Option String
  pub workflow_manifest : Option Json
  pub last_error : Option String
  pub started_at : Option Time
  pub completed_at : Option Time
  pub updated_at : Option Time

-- The comparisons of the source.
abbrev pub is_running : ExecutionStatus → Bool
is_running ExecutionStatus.running = true
is_running _ = false

abbrev is_completed : ExecutionStatus → Bool
is_completed ExecutionStatus.completed = true
is_completed _ = false

-- `matches!((current, next), (Failed, Retrying))`.
abbrev pub starts_retry : ExecutionStatus → ExecutionStatus → Bool
starts_retry ExecutionStatus.failed ExecutionStatus.retrying = true
starts_retry _ _ = false

abbrev failed_or_retrying : ExecutionStatus → Bool
failed_or_retrying ExecutionStatus.failed = true
failed_or_retrying ExecutionStatus.retrying = true
failed_or_retrying _ = false

abbrev running_or_retrying : ExecutionStatus → Bool
running_or_retrying ExecutionStatus.running = true
running_or_retrying ExecutionStatus.retrying = true
running_or_retrying _ = false

-- `if let Some(v) = new { field = Some(v) }`.
abbrev overwrite {ℓ} : {A : Type ℓ} → Option A → Option A → Option A
overwrite none old = old
overwrite (some v) old = some v

-- `if test && field.is_none() { field = Some(now) }`.
abbrev pub stamp {ℓ} : {A : Type ℓ} → Bool → A → Option A → Option A
stamp test now field = if test && is_none field then some now else field

-- The status that a patch puts into effect: a locked terminal status stays, and another change must
-- be an edge of the state machine.
effective_status :
    ExecutionStatus → Option ExecutionStatus → Result (Option ExecutionStatus) TransitionError
effective_status current none = ok none
effective_status current (some next) =
    if is_locked_terminal current && not (status_eq next current)
    then ok none
    else if not (status_eq next current) && not (allows current next)
    then err (invalid current next)
    else ok (some next)

module _ {Time Json : Type 0} where
  -- The block under `if let Some(next) = effective`.
  enter :
      LedgerPatch Json
      → Time
      → Option ExecutionStatus
      → LedgerState Time Json
      → LedgerState Time Json
  enter patch now none self = self
  enter patch now (some next) self =
      let recovering = failed_or_retrying self.status && running_or_retrying next in
      record self {
        status = next;
        started_at = stamp (is_running next) now self.started_at;
        completed_at = stamp (is_terminal next) now self.completed_at;
        retry_count =
            if starts_retry self.status next then succ_i32 self.retry_count else self.retry_count;
        last_error =
            if (recovering || is_completed next) && is_none patch.error
            then none
            else self.last_error;
        execution_phase =
            if is_terminal next && is_none patch.execution_phase
            then none
            else self.execution_phase;
      }

  -- The other fields of the patch.
  amend : LedgerPatch Json → Time → LedgerState Time Json → LedgerState Time Json
  amend patch now self = record self {
    scheduler_name = overwrite patch.scheduler_name self.scheduler_name;
    scheduler_job_id = overwrite patch.scheduler_job_id self.scheduler_job_id;
    workflow_manifest = overwrite patch.workflow_manifest self.workflow_manifest;
    last_error = elim patch.error [
      | some v ↦ some v
      | none ↦ if patch.clear_error then none else self.last_error
    ];
    execution_phase = elim patch.execution_phase [ some v ↦ v | none ↦ self.execution_phase ];
    updated_at = some now;
  }

  finish :
      LedgerPatch Json
      → Time
      → Result (Option ExecutionStatus) TransitionError
      → LedgerState Time Json
      → LedgerState Time Json × Result (Unit {0}) TransitionError
  unfolding enter amend
  finish patch now (err e) self = (self, err e)
  finish patch now (ok effective) self = (amend patch now (enter patch now effective self), ok tt)

  -- The row after the call, and what the call returns.
  pub apply_patch :
      LedgerState Time Json
      → LedgerPatch Json
      → Time
      → LedgerState Time Json × Result (Unit {0}) TransitionError
  unfolding finish effective_status
  apply_patch self patch now = finish patch now (effective_status self.status patch.status) self
