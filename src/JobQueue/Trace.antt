-- ===== src/JobQueue/Trace.antt =====
-- Sequences of calls on the tables: the workers' claims, renewals and ends of jobs
-- (crates/beampipe-db/src/repo.rs) in any order, and how one call changes the rows.
pub mod Exclusive
pub mod Fencing
pub mod Capacity
pub mod Validity
pub mod Holder
use mathlib.Core.Path.{subst}
use beampipe_core_v.Common.{
  ℕ, String, ◌≡◌, refl, sym, Bool, true, false, ◌&&◌, eqb, Option, none, some, is_some, Result, ok,
  err, List, [], ◌∷◌, if◌then◌else◌, arith, inl, inr, ◌∙◌,
}
use beampipe_core_v.Common.Int.{ℤ}
use beampipe_core_v.JobQueue.{JobRow, Store, is_running, holds_lease}
use beampipe_core_v.JobQueue.Claim.{SqlError, claim_next_job_for_worker, take}
use beampipe_core_v.JobQueue.Claim.Laws.{ClaimCase, raises, idle, takes, Takes, claim-cases}
use beampipe_core_v.JobQueue.Lease.{
  renewable, renewed, renew_job_lease, released, completed, rescheduled, failed, retried, exhausted,
  finish, complete_job_with_lease, reschedule_recurring_job_with_lease,
  fail_job_permanently_with_lease, fail_or_retry_job_with_lease,
}
use beampipe_core_v.JobQueue.Lease.Laws.{
  IsClosing, completed-IsClosing, rescheduled-IsClosing, failed-IsClosing, retried-IsClosing,
}
use beampipe_core_v.Common.Rows.{update_where}

-- A call of a worker. A claim has the rows locked by others, the worker, its pool, the seconds of the
-- lease and the new token; the other calls have the job, the worker, the token and their arguments.
pub data Call : Type 0 where
  claims : (ℕ → Bool) → ℕ → String → ℤ → ℕ → Call
  renews : ℕ → ℕ → ℕ → ℤ → Call
  completes : ℕ → ℕ → ℕ → Call
  reschedules : ℕ → ℕ → ℕ → ℤ → Call
  fails : ℕ → ℕ → ℕ → String → String → Call
  retries : ℕ → ℕ → ℕ → String → String → ℤ → Call

abbrev pub same_lease : ℕ → ℕ → ℕ → ℕ → ℕ → ℕ → Bool
same_lease a b c a' b' c' = eqb a' a && eqb b' b && eqb c' c

-- A call that ends the job of a lease, and a call that ends or renews it.
abbrev pub ends : ℕ → ℕ → ℕ → Call → Bool
ends j w t (completes j' w' t') = same_lease j w t j' w' t'
ends j w t (reschedules j' w' t' _) = same_lease j w t j' w' t'
ends j w t (fails j' w' t' _ _) = same_lease j w t j' w' t'
ends j w t (retries j' w' t' _ _ _) = same_lease j w t j' w' t'
ends j w t _ = false

abbrev pub presents : ℕ → ℕ → ℕ → Call → Bool
presents j w t (renews j' w' t' _) = same_lease j w t j' w' t'
presents j w t c = ends j w t c

pub same_lease_refl : (a b c : ℕ) → same_lease a b c a b c ≡ true
same_lease_refl a b c = ground arith

module _ {V : Type 0} where
  -- Whether a claim has taken a job, and the tables after it.
  abbrev claimed : Store V → Result (Option (JobRow V) × Store V) SqlError → Bool × Store V
  claimed s (err e) = (false, s)
  claimed s (ok (job, s')) = (is_some job, s')

module _ {V : Type 0} (jsonb_contains : V → V → Bool) where
  -- The answer of a call at a time, and the tables after it.
  unfoldable pub step : Store V → ℕ × Call → Bool × Store V
  step s (now, claims locked worker_id pool lock_seconds token) =
      claimed s
        (claim_next_job_for_worker jsonb_contains now locked worker_id pool lock_seconds token s)
  step s (now, renews job_id worker_id token lock_seconds) =
      renew_job_lease now job_id worker_id token lock_seconds s
  step s (now, completes job_id worker_id token) =
      complete_job_with_lease now job_id worker_id token s
  step s (now, reschedules job_id worker_id token delay) =
      reschedule_recurring_job_with_lease now job_id worker_id token delay s
  step s (now, fails job_id worker_id token error class) =
      fail_job_permanently_with_lease now job_id worker_id token error class s
  step s (now, retries job_id worker_id token error class delay) =
      fail_or_retry_job_with_lease now job_id worker_id token error class delay s

  unfoldable pub run : Store V → List (ℕ × Call) → Store V
  unfolding step
  run s [] = s
  run s (c ∷ cs) = run (step s c).1 cs

  -- How a call changes the jobs: not at all, by leasing one, by extending a lease, or by ending one.
  pub data Moves (s : Store V) (now : ℕ) (call : Call) (s' : Store V) : Type 0 where
    keeps :
        (locked : ℕ → Bool) (worker_id : ℕ) (pool : String) (lock_seconds : ℤ) (token : ℕ)
        → call ≡ claims locked worker_id pool lock_seconds token
        → s'.jobs ≡ s.jobs
        → Moves s now call s'
    leases :
        (locked : ℕ → Bool) (worker_id : ℕ) (pool : String) (lock_seconds : ℤ) (token : ℕ)
        (job : JobRow V)
        → call ≡ claims locked worker_id pool lock_seconds token
        → Takes jsonb_contains now locked worker_id pool lock_seconds token s job (
            claim_next_job_for_worker jsonb_contains now locked worker_id pool lock_seconds token s)
        → s'.jobs ≡ (take now worker_id token lock_seconds job s).jobs
        → Moves s now call s'
    extends :
        (job_id worker_id token : ℕ) (lock_seconds : ℤ)
        → call ≡ renews job_id worker_id token lock_seconds
        → s'.jobs
          ≡ update_where (renewable now job_id worker_id token) (renewed now lock_seconds) s.jobs
        → Moves s now call s'
    closes :
        (job_id worker_id token : ℕ) (g : JobRow V → JobRow V)
        → ends job_id worker_id token call ≡ true
        → IsClosing g
        → s'.jobs ≡ update_where (holds_lease job_id worker_id token) g s.jobs
        → Moves s now call s'

  pub step-Moves : (s : Store V) (now : ℕ) (c : Call) → Moves s now c (step s (now, c)).1
  unfolding step renew_job_lease complete_job_with_lease reschedule_recurring_job_with_lease
      fail_job_permanently_with_lease fail_or_retry_job_with_lease finish
  step-Moves s now (claims locked worker_id pool lock_seconds token) =
      elim (claim-cases jsonb_contains now locked worker_id pool lock_seconds token s) [
        | raises e r ↦ keeps locked worker_id pool lock_seconds token refl (rw r refl)
        | idle r ↦ keeps locked worker_id pool lock_seconds token refl (rw r refl)
        | takes job t ↦
            leases locked worker_id pool lock_seconds token job refl t (rw t.result refl)
      ]
  step-Moves s now (renews job_id worker_id token lock_seconds) =
      extends job_id worker_id token lock_seconds refl refl
  step-Moves s now (completes job_id worker_id token) =
      closes job_id worker_id token (completed now) (same_lease_refl job_id worker_id token)
        (completed-IsClosing now) refl
  step-Moves s now (reschedules job_id worker_id token delay) =
      closes job_id worker_id token (rescheduled now delay) (same_lease_refl job_id worker_id token)
        (rescheduled-IsClosing now delay) refl
  step-Moves s now (fails job_id worker_id token error class) =
      closes job_id worker_id token (failed now error class)
        (same_lease_refl job_id worker_id token) (failed-IsClosing now error class) refl
  step-Moves s now (retries job_id worker_id token error class delay) =
      closes job_id worker_id token (retried now error class delay)
        (same_lease_refl job_id worker_id token) (retried-IsClosing now error class delay) refl

  pub step-workers : (s : Store V) (c : ℕ × Call) → (step s c).1.workers ≡ s.workers
  unfolding step renew_job_lease complete_job_with_lease reschedule_recurring_job_with_lease
      fail_job_permanently_with_lease fail_or_retry_job_with_lease finish take
  step-workers s (now, claims locked worker_id pool lock_seconds token) =
      elim (claim-cases jsonb_contains now locked worker_id pool lock_seconds token s) [
        | raises e r ↦ rw r refl
        | idle r ↦ rw r refl
        | takes job t ↦ rw t.result refl
      ]
  step-workers s (now, renews job_id worker_id token lock_seconds) = refl
  step-workers s (now, completes job_id worker_id token) = refl
  step-workers s (now, reschedules job_id worker_id token delay) = refl
  step-workers s (now, fails job_id worker_id token error class) = refl
  step-workers s (now, retries job_id worker_id token error class delay) = refl
