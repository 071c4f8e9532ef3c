-- ===== src/Execution/Status/Laws.antt =====
-- The edges of the execution status and the statuses that they reach
-- (`ExecutionStatus::allows` of crates/beampipe-domain/src/execution.rs).
use beampipe_core_v.Common.{◌≡◌, refl, ◌≢◌, ◌↔◌, ◌⊎◌, inl, inr, true, false, arith}
use beampipe_core_v.Execution.Status.{
  ExecutionStatus, pending, running, awaiting_scheduler, not_submitted, completed, failed, retrying,
  cancelled, is_locked_terminal, allows, status_eq,
}

status_eq_iff : (s t : ExecutionStatus) → (status_eq s t ≡ true) ↔ (s ≡ t)
status_eq_iff s t = (ground arith, ground arith)

-- A path of allowed changes.
pub data Reach (s : ExecutionStatus) : ExecutionStatus → Type 0 where
  here : Reach s s
  next : {t u : ExecutionStatus} → Reach s t → allows t u ≡ true → Reach s u

pub Reach-trans : {s t u : ExecutionStatus} → Reach s t → Reach t u → Reach s u
Reach-trans p here = p
Reach-trans p (next q e) = next (Reach-trans p q) e

-- A path whose statuses are never `running`, but for the last one.
pub data ReachIdle (s : ExecutionStatus) : ExecutionStatus → Type 0 where
  here : ReachIdle s s
  next : {t u : ExecutionStatus} → ReachIdle s t → t ≢ running → allows t u ≡ true → ReachIdle s u

-- A locked status is the only one with no way out.
locked-Reach : {s t : ExecutionStatus} → is_locked_terminal s ≡ true → Reach s t → s ≡ t
locked-Reach h here = refl
locked-Reach h (next r e) = let ih = locked-Reach h r in ground arith

to_running : (s : ExecutionStatus) → is_locked_terminal s ≡ false → Reach s running
to_running pending h = next here refl
to_running running h = here
to_running awaiting_scheduler h = next here refl
to_running not_submitted h = next here refl
to_running failed h = next here refl
to_running retrying h = next here refl
to_running completed h = cc
to_running cancelled h = cc

-- From every status that is not locked, completion and cancellation are reached along edges of the
-- state machine.
pub unlocked-Reach :
    (s : ExecutionStatus) → is_locked_terminal s ≡ false → Reach s completed × Reach s cancelled
unlocked-Reach s h = (next (to_running s h) refl, next (to_running s h) refl)

idle_keeps :
    {s t : ExecutionStatus}
    → s ≢ awaiting_scheduler
    → s ≢ completed
    → ReachIdle s t
    → (t ≢ awaiting_scheduler) × (t ≢ completed)
idle_keeps h k here = (h, k)
idle_keeps h k (next r n e) = let ih = idle_keeps h k r in ground arith

-- Along edges that do not leave `running`, completion is reached from `awaiting_scheduler` and from
-- itself only.
pub completed_needs_running :
    (s : ExecutionStatus) → ReachIdle s completed → (s ≡ awaiting_scheduler) ⊎ (s ≡ completed)
completed_needs_running awaiting_scheduler r = inl refl
completed_needs_running completed r = inr refl
completed_needs_running pending r = absurd ((idle_keeps (λ e. cc) (λ e. cc) r).1 refl)
completed_needs_running running r = absurd ((idle_keeps (λ e. cc) (λ e. cc) r).1 refl)
completed_needs_running not_submitted r = absurd ((idle_keeps (λ e. cc) (λ e. cc) r).1 refl)
completed_needs_running failed r = absurd ((idle_keeps (λ e. cc) (λ e. cc) r).1 refl)
completed_needs_running retrying r = absurd ((idle_keeps (λ e. cc) (λ e. cc) r).1 refl)
completed_needs_running cancelled r = absurd ((idle_keeps (λ e. cc) (λ e. cc) r).1 refl)
