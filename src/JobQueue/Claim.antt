-- ===== src/JobQueue/Claim.antt =====
-- `claim_next_job_for_worker` of crates/beampipe-db/src/repo.rs: one transaction that checks the
-- capacity of the worker and of its pool and leases the first eligible job.
pub mod Contract
pub mod Laws
use beampipe_core_v.Common.{
  ℕ, suc, ◌+◌, ◌-◌, String, Bool, true, false, not, ◌&&◌, ◌||◌, Option, none, some, Result, ok, err,
  List, [], ◌∷◌, ltb, leb, eqb, if◌then◌else◌, ◌==◌,
}
use beampipe_core_v.Common.Int.{ℤ, pos, negsuc}
use beampipe_core_v.JobQueue.{
  JobStatus, JobRow, WorkerInstanceRow, ClaimEventKind, ClaimEvent, Store, at_least_one, seconds,
  is_running, is_queued, is_active, is_uuid, passed, lease_active, lease_expired,
}
use beampipe_core_v.JobQueue.Order.{first_in_order, all_in_range}
use beampipe_core_v.Common.Rows.{count, update_where, select_where}

-- `sqlx::Error`, as far as a statement on whole numbers raises one.
pub data SqlError : Type 0 where
  integer_out_of_range : SqlError

-- `text = ANY(texts)`, and `texts @> required`.
abbrev member : String → List String → Bool
member c [] = false
member c (x ∷ xs) = (x == c) || member c xs

abbrev contains_all : List String → List String → Bool
contains_all caps [] = true
contains_all caps (c ∷ cs) = member c caps && contains_all caps cs

module _ {V : Type 0} where
  abbrev pub find_worker : ℕ → String → List (WorkerInstanceRow V) → Option (WorkerInstanceRow V)
  find_worker id pool [] = none
  find_worker id pool (w ∷ ws) =
      if eqb w.uuid id && is_active w.status && (w.pool == pool)
      then some w
      else find_worker id pool ws

  abbrev pub sum_limits : String → List (WorkerInstanceRow V) → ℕ
  sum_limits pool [] = 0
  sum_limits pool (w ∷ ws) =
      if (w.pool == pool) && is_active w.status
      then w.concurrency_limit + sum_limits pool ws
      else sum_limits pool ws

  -- `FOR UPDATE SKIP LOCKED`: rows that another transaction has locked are passed over.
  abbrev pub unlocked : (ℕ → Bool) → JobRow V → Bool
  unlocked locked r = not (locked r.uuid)

  abbrev pub has_uuid : ℕ → JobRow V → Bool
  has_uuid id r = eqb r.uuid id

module _ {V : Type 0} (now : ℕ) where
  -- `worker_active_leases` and `pool_active_leases` count these rows.
  abbrev pub leased_to : ℕ → JobRow V → Bool
  leased_to id r = is_uuid r.lease_owner id && lease_active now r

  abbrev pub leased_in : String → JobRow V → Bool
  leased_in pool r = (r.pool == pool) && lease_active now r

  abbrev pub due : JobRow V → Bool
  due r =
      is_queued r.status
      && leb r.next_run_at now
      && passed now r.lease_expires_at
      && passed now r.locked_until

  unfoldable pub leased : ℕ → ℕ → ℤ → JobRow V → JobRow V
  leased worker_id token lock_seconds r = record r {
    status = JobStatus.running;
    attempts = r.attempts + 1;
    lease_owner = some worker_id;
    lease_token = some token;
    lease_expires_at = some (now + seconds (at_least_one lock_seconds));
    locked_until = some (now + seconds (at_least_one lock_seconds));
    heartbeat_at = some now;
    updated_at = some now;
  }

  abbrev claim_event : ℕ → ℕ → JobRow V → ClaimEvent
  claim_event worker_id token r = record {
    job_id = r.uuid;
    worker_id = worker_id;
    lease_token = token;
    event = if is_running r.status then ClaimEventKind.recovered else ClaimEventKind.claimed;
    occurred_at = now;
  }

  unfoldable pub take : ℕ → ℕ → ℤ → JobRow V → Store V → Store V
  unfolding leased
  take worker_id token lock_seconds job s = record s {
    jobs = update_where (has_uuid job.uuid) (leased worker_id token lock_seconds) s.jobs;
    history = claim_event worker_id token job ∷ s.history;
  }

  -- `attempts + 1` is an INTEGER.
  abbrev lease_job :
      ℕ
      → ℕ
      → ℤ
      → Store V
      → Result (Option (JobRow V)) SqlError
      → Result (Option (JobRow V) × Store V) SqlError
  lease_job worker_id token lock_seconds s (err e) = err e
  lease_job worker_id token lock_seconds s (ok none) = ok (none, s)
  lease_job worker_id token lock_seconds s (ok (some job)) =
      if ltb job.attempts 2147483647
      then ok
          (some (leased worker_id token lock_seconds job), take worker_id token lock_seconds job s)
      else err SqlError.integer_out_of_range

-- `jsonb_contains` is the operator `@>` of PostgreSQL on JSONB.
module _ {V : Type 0} (jsonb_contains : V → V → Bool) (now : ℕ) where
  abbrev pub eligible : String → WorkerInstanceRow V → JobRow V → Bool
  eligible pool w r =
      (r.pool == pool)
      && contains_all w.capabilities r.required_capabilities
      && jsonb_contains w.labels r.required_labels
      && (due now r || lease_expired now r)

  unfoldable pub candidate :
      (ℕ → Bool)
      → String
      → WorkerInstanceRow V
      → List (JobRow V)
      → Result (Option (JobRow V)) SqlError
  candidate locked pool w rows =
      if all_in_range now (select_where (eligible pool w) rows)
      then ok (
          first_in_order now (select_where (unlocked locked) (select_where (eligible pool w) rows)))
      else err SqlError.integer_out_of_range

  abbrev claim_for :
      (ℕ → Bool)
      → ℕ
      → String
      → ℤ
      → ℕ
      → Store V
      → Option (WorkerInstanceRow V)
      → Result (Option (JobRow V) × Store V) SqlError
  claim_for locked worker_id pool lock_seconds token s none = ok (none, s)
  claim_for locked worker_id pool lock_seconds token s (some w) =
      if leb w.concurrency_limit (count (leased_to now worker_id) s.jobs)
      then ok (none, s)
      else if ltb (sum_limits pool s.workers) 1
      then ok (none, s)
      else if leb (sum_limits pool s.workers) (count (leased_in now pool) s.jobs)
      then ok (none, s)
      else lease_job now worker_id token lock_seconds s (candidate locked pool w s.jobs)

  -- `lock_seconds` is that of the source; `token` is the uuid made by `Uuid::now_v7`. A transaction
  -- that fails leaves the tables as they were.
  unfoldable pub claim_next_job_for_worker :
      (ℕ → Bool) → ℕ → String → ℤ → ℕ → Store V → Result (Option (JobRow V) × Store V) SqlError
  unfolding candidate take leased
  claim_next_job_for_worker locked worker_id pool lock_seconds token s =
      claim_for locked worker_id pool lock_seconds token s (find_worker worker_id pool s.workers)
