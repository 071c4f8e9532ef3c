-- ===== src/JobQueue/Lease.antt =====
-- What the holder of a lease does with its job: `renew_job_lease`, `complete_job_with_lease`,
-- `reschedule_recurring_job_with_lease`, `fail_job_permanently_with_lease` and
-- `fail_or_retry_job_with_lease` of crates/beampipe-db/src/repo.rs. Each answers whether exactly one
-- row was updated.
pub mod Laws
use beampipe_core_v.Common.{
  ℕ, ◌+◌, String, Bool, not, ◌&&◌, Option, none, some, is_some, List, [], ◌∷◌, eqb, if◌then◌else◌,
}
use beampipe_core_v.Common.Int.{ℤ, pos, ltb_ℤ}
use beampipe_core_v.JobQueue.{
  JobStatus, JobRow, ClaimEventKind, ClaimEvent, Store, at_least_one, seconds, ahead, holds_lease,
}
use beampipe_core_v.Common.Rows.{count, update_where}

-- The row that `record_claim_terminal_event` inserts.
abbrev pub terminal_event : ℕ → ℕ → ℕ → ℕ → ClaimEventKind → ClaimEvent
terminal_event now job_id worker_id token event = record {
  job_id = job_id;
  worker_id = worker_id;
  lease_token = token;
  event = event;
  occurred_at = now;
}

abbrev pub retry_event : JobStatus → ClaimEventKind
retry_event JobStatus.dead_letter = ClaimEventKind.dead_lettered
retry_event _ = ClaimEventKind.requeued

abbrev pub note_retry : ℕ → ℕ → ℕ → ℕ → List ClaimEvent → Option JobStatus → List ClaimEvent
note_retry now job_id worker_id token history none = history
note_retry now job_id worker_id token history (some status) =
    terminal_event now job_id worker_id token (retry_event status) ∷ history

module _ {V : Type 0} where
  -- `attempts >= max_attempts`.
  abbrev pub exhausted : JobRow V → Bool
  exhausted r = not (ltb_ℤ (pos r.attempts) r.max_attempts)

  -- `RETURNING status` of the first row that the condition picks, as it is after the update.
  abbrev pub returned_status :
      (JobRow V → Bool) → (JobRow V → JobRow V) → List (JobRow V) → Option JobStatus
  returned_status p change [] = none
  returned_status p change (r ∷ rs) =
      if p r then some (change r).status else returned_status p change rs

module _ {V : Type 0} (now : ℕ) where
  abbrev pub renewable : ℕ → ℕ → ℕ → JobRow V → Bool
  renewable job_id worker_id token r =
      holds_lease job_id worker_id token r && ahead now r.lease_expires_at

  unfoldable pub renewed : ℤ → JobRow V → JobRow V
  renewed lock_seconds r = record r {
    lease_expires_at = some (now + seconds (at_least_one lock_seconds));
    locked_until = some (now + seconds (at_least_one lock_seconds));
    heartbeat_at = some now;
    updated_at = some now;
  }

  unfoldable pub renew_job_lease : ℕ → ℕ → ℕ → ℤ → Store V → Bool × Store V
  unfolding renewed
  renew_job_lease job_id worker_id token lock_seconds s = (
    eqb (count (renewable job_id worker_id token) s.jobs) 1,
    record s {
      jobs = update_where (renewable job_id worker_id token) (renewed lock_seconds) s.jobs;
    },
  )

  -- The five columns of a lease, which every end of a job sets to NULL.
  unfoldable pub released : JobRow V → JobRow V
  released r = record r {
    locked_until = none;
    lease_owner = none;
    lease_token = none;
    lease_expires_at = none;
    heartbeat_at = none;
    updated_at = some now;
  }

  unfoldable pub completed : JobRow V → JobRow V
  unfolding released
  completed r = record (released r) { status = JobStatus.completed }

  unfoldable pub rescheduled : ℤ → JobRow V → JobRow V
  unfolding released
  rescheduled delay_secs r = record (released r) {
    status = JobStatus.queued;
    next_run_at = now + seconds (at_least_one delay_secs);
    attempts = 0;
    last_error = none;
    failure_class = none;
  }

  unfoldable pub failed : String → String → JobRow V → JobRow V
  unfolding released
  failed error failure_class r = record (released r) {
    status = JobStatus.failed;
    last_error = some error;
    failure_class = some failure_class;
  }

  unfoldable pub retried : String → String → ℤ → JobRow V → JobRow V
  unfolding released
  retried error failure_class delay r = record (released r) {
    status = if exhausted r then JobStatus.dead_letter else JobStatus.queued;
    next_run_at = now + seconds (at_least_one delay);
    last_error = some error;
    failure_class = some failure_class;
    dead_lettered_at = if exhausted r then some now else none;
    dead_letter_reason = if exhausted r then some error else none;
  }

  -- An update of the row that the lease is for, with an event if exactly one row was updated.
  unfoldable pub finish :
      ℕ → ℕ → ℕ → (JobRow V → JobRow V) → ClaimEventKind → Store V → Bool × Store V
  finish job_id worker_id token change event s = (
    eqb (count (holds_lease job_id worker_id token) s.jobs) 1,
    record s {
      jobs = update_where (holds_lease job_id worker_id token) change s.jobs;
      history =
          if eqb (count (holds_lease job_id worker_id token) s.jobs) 1
          then terminal_event now job_id worker_id token event ∷ s.history
          else s.history;
    },
  )

  unfoldable pub complete_job_with_lease : ℕ → ℕ → ℕ → Store V → Bool × Store V
  unfolding finish completed released
  complete_job_with_lease job_id worker_id token =
      finish job_id worker_id token completed ClaimEventKind.completed

  unfoldable pub reschedule_recurring_job_with_lease : ℕ → ℕ → ℕ → ℤ → Store V → Bool × Store V
  unfolding finish rescheduled released
  reschedule_recurring_job_with_lease job_id worker_id token delay_secs =
      finish job_id worker_id token (rescheduled delay_secs) ClaimEventKind.requeued

  unfoldable pub fail_job_permanently_with_lease :
      ℕ → ℕ → ℕ → String → String → Store V → Bool × Store V
  unfolding finish failed released
  fail_job_permanently_with_lease job_id worker_id token error failure_class =
      finish job_id worker_id token (failed error failure_class) ClaimEventKind.failed

  unfoldable pub fail_or_retry_job_with_lease :
      ℕ → ℕ → ℕ → String → String → ℤ → Store V → Bool × Store V
  unfolding retried released
  fail_or_retry_job_with_lease job_id worker_id token error failure_class delay s =
      let holder = holds_lease job_id worker_id token in
      let status = returned_status holder (retried error failure_class delay) s.jobs in
      (
        is_some status,
        record s {
          jobs = update_where holder (retried error failure_class delay) s.jobs;
          history = note_retry now job_id worker_id token s.history status;
        },
      )
