-- ===== src/Execution/Ledger/Laws.antt =====
-- One patch of a ledger row (`LedgerState::apply_patch` of
-- crates/beampipe-domain/src/execution.rs).
use beampipe_core_v.Common.{
  ◌≡◌, ◌≢◌, ◌↔◌, ◌⊎◌, true, false, some, ok, err, arith, is_none, ◌&&◌, if◌then◌else◌,
}
use beampipe_core_v.Common.Int.{succ_i32}
use beampipe_core_v.Execution.Status.{
  ExecutionStatus, completed, is_terminal, is_locked_terminal, allows,
}
use beampipe_core_v.Execution.Ledger.{
  TransitionError, invalid, LedgerPatch, LedgerState, is_running, starts_retry, apply_patch,
}

module _ {Time Json : Type 0} (s : LedgerState Time Json) (p : LedgerPatch Json) (now : Time) where
  -- The row after the patch.
  abbrev after : LedgerState Time Json
  after = (apply_patch s p now).0

  -- The status stays, or changes along an edge of the state machine.
  pub status-apply_patch : (after.status ≡ s.status) ⊎ (allows s.status after.status ≡ true)
  unfolding apply_patch
  status-apply_patch = ground arith

  -- A patch is refused exactly when it asks an unlocked row for another status that is no edge away;
  -- the error names both statuses.
  pub apply_patch_error :
      (from to : ExecutionStatus)
      → ((apply_patch s p now).1 ≡ err (invalid from to)) ↔ (
          (from ≡ s.status)
          × (p.status ≡ some to)
          × (to ≢ s.status)
          × (is_locked_terminal s.status ≡ false)
          × (allows s.status to ≡ false))
  unfolding apply_patch
  apply_patch_error from to = (λ h. ground arith, λ h. ground arith)

  -- A refused patch changes nothing.
  apply_patch_error_unchanged : {e : TransitionError} → (apply_patch s p now).1 ≡ err e → after ≡ s
  unfolding apply_patch
  apply_patch_error_unchanged h = ground arith

  -- Once it is set, a time of start or of completion is never changed.
  pub apply_patch_stamps :
      (t : Time)
      → (s.started_at ≡ some t → after.started_at ≡ some t)
        × (s.completed_at ≡ some t → after.completed_at ≡ some t)
  unfolding apply_patch
  apply_patch_stamps t = (λ h. ground arith, λ h. ground arith)

  -- The retries are counted on the edge from `failed` to `retrying`, and nowhere else.
  pub retry_count-apply_patch :
      after.retry_count
      ≡ (if starts_retry s.status after.status then succ_i32 s.retry_count else s.retry_count)
  unfolding apply_patch
  retry_count-apply_patch = ground arith

  -- A patch that asks for completion, and after which the row is completed, leaves the error of the
  -- patch, or none, as the error of the row: an error of an earlier attempt is gone.
  pub completed-last_error :
      p.status ≡ some completed → after.status ≡ completed → after.last_error ≡ p.error
  unfolding apply_patch
  completed-last_error h k = ground arith

  -- A locked status stays, whatever the patch asks for, and the patch is not refused.
  pub locked-apply_patch :
      is_locked_terminal s.status ≡ true
      → (after.status ≡ s.status) × ((apply_patch s p now).1 ≡ ok tt)
  unfolding apply_patch
  locked-apply_patch h = ground arith

-- A row that was started if it is running, and has a time of completion if its status is terminal.
pub record IsStamped {Time Json : Type 0} (s : LedgerState Time Json) : Type 0 where
  pub running_started : is_running s.status && is_none s.started_at ≡ false
  pub terminal_completed : is_terminal s.status && is_none s.completed_at ≡ false

-- Every patch, accepted or refused, keeps the row stamped.
pub apply_patch-IsStamped :
    {Time Json : Type 0} (s : LedgerState Time Json) (p : LedgerPatch Json) (now : Time)
    → IsStamped s
    → IsStamped (apply_patch s p now).0
unfolding apply_patch
apply_patch-IsStamped s p now h = ground arith
