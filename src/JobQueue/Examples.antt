-- ===== src/JobQueue/Examples.antt =====
-- Tests of the job queue, and its theorems at a queue of two jobs and two workers.
use mathlib.Core.List.{Memᴰ}
use beampipe_core_v.Common.{
  ℕ, ◌≤◌, ◌≡◌, refl, String, Bool, true, false, ◌||◌, Option, none, some, Result, ok, List, [], ◌∷◌,
  arith, ◌==◌,
}
use beampipe_core_v.Common.Int.{pos}
use beampipe_core_v.JobQueue.{
  JobStatus, JobRow, WorkerStatus, WorkerInstanceRow, ClaimEventKind, Store, seconds,
}
use beampipe_core_v.JobQueue.Claim.{
  SqlError, leased_to, leased_in, leased, take, claim_next_job_for_worker,
}
use beampipe_core_v.JobQueue.Claim.Contract.{IsTaken, claim_takes, claim_serves}
use beampipe_core_v.Common.Rows.{count}
use beampipe_core_v.JobQueue.Order.{all_in_range, first_in_order}
use beampipe_core_v.JobQueue.Trace.{Call, claims, renews, completes, retries, step, run}
use beampipe_core_v.JobQueue.Trace.Capacity.{run-worker_limit}
use beampipe_core_v.JobQueue.Trace.Capacity.Pool.{run_pool_limit}
use beampipe_core_v.JobQueue.Trace.Exclusive.{IsHeld, run-IsHeld}
use beampipe_core_v.JobQueue.Trace.Fencing.{ended_once, overtaken_is_fenced}
use beampipe_core_v.JobQueue.Trace.Holder.{IsSameJob, IsUnleased, IsEnd, holder_ends}
use beampipe_core_v.JobQueue.Trace.Validity.{IsValid, run-IsValid}

-- Labels are one text, and an empty requirement is met by any.
abbrev labels_fit : String → String → Bool
labels_fit have want = (want == "") || (have == want)

-- Queued at time 0, with no lease.
abbrev fresh_job : JobRow String
fresh_job = record {
  uuid = 1;
  kind = "discover_batch";
  payload = "";
  status = JobStatus.queued;
  execution_id = none;
  phase = none;
  attempts = 0;
  max_attempts = pos 3;
  next_run_at = 0;
  locked_until = none;
  lease_owner = none;
  lease_token = none;
  lease_expires_at = none;
  heartbeat_at = none;
  pool = "default";
  required_capabilities = "discovery:tap" ∷ [];
  required_labels = "";
  priority = pos 0;
  idempotency_key = none;
  last_error = none;
  failure_class = none;
  dead_lettered_at = none;
  dead_letter_reason = none;
  created_at = 0;
  updated_at = none;
}

-- Held by worker 8 under token 80, for 60 seconds from the time 10 s on.
abbrev held_job : JobRow String
held_job = record fresh_job {
  uuid = 2;
  priority = pos 5;
  status = JobStatus.running;
  attempts = 1;
  locked_until = some (seconds 70);
  lease_owner = some 8;
  lease_token = some 80;
  lease_expires_at = some (seconds 70);
  heartbeat_at = some (seconds 10);
}

abbrev worker : ℕ → WorkerInstanceRow String
worker id = record {
  uuid = id;
  pool = "default";
  capabilities = "discovery:tap" ∷ "manifest:generic" ∷ [];
  labels = "";
  concurrency_limit = 1;
  status = WorkerStatus.active;
}

abbrev queue : Store String
queue = record {
  jobs = fresh_job ∷ held_job ∷ [];
  workers = worker 7 ∷ worker 8 ∷ [];
  history = [];
}

abbrev none_locked : ℕ → Bool
none_locked _ = false

queue-IsValid : IsValid queue
queue-IsValid = record { unique = λ id. ground arith; rows = (refl, (refl, tt)) }

-- A worker gets the queued job while the other is held, and the other once its lease has run out.
abbrev early : Result (Option (JobRow String) × Store String) SqlError
early = claim_next_job_for_worker labels_fit (seconds 20) none_locked 7 "default" (pos 60) 90 queue

abbrev late : Result (Option (JobRow String) × Store String) SqlError
late = claim_next_job_for_worker labels_fit (seconds 100) none_locked 7 "default" (pos 60) 90 queue

early_takes_fresh :
    early
    ≡ ok (
      some (leased (seconds 20) 7 90 (pos 60) fresh_job),
      take (seconds 20) 7 90 (pos 60) fresh_job queue,
    )
unfolding claim_next_job_for_worker all_in_range first_in_order
early_takes_fresh = refl

late_takes_held :
    late
    ≡ ok (
      some (leased (seconds 100) 7 90 (pos 60) held_job),
      take (seconds 100) 7 90 (pos 60) held_job queue,
    )
unfolding claim_next_job_for_worker all_in_range first_in_order
late_takes_held = refl

run-IsValid_example : IsValid (
    run labels_fit queue (
      (seconds 20, claims none_locked 7 "default" (pos 60) 90)
      ∷ (seconds 30, completes 1 7 90)
      ∷ (seconds 100, claims none_locked 7 "default" (pos 60) 91)
      ∷ []))
run-IsValid_example = run-IsValid labels_fit queue _ queue-IsValid

claim_takes_example :
    (old : JobRow String) × IsTaken labels_fit
      (seconds 100)
      none_locked
      7
      "default"
      (pos 60)
      90
      queue
      old
      (leased (seconds 100) 7 90 (pos 60) held_job)
    × (take (seconds 100) 7 90 (pos 60) held_job queue ≡ take (seconds 100) 7 90 (pos 60) old queue)
claim_takes_example =
    claim_takes labels_fit (seconds 100) none_locked 7 "default" (pos 60) 90 queue
      (leased (seconds 100) 7 90 (pos 60) held_job)
      (take (seconds 100) 7 90 (pos 60) held_job queue) late_takes_held

claim_serves_example : (job : JobRow String) × (s' : Store String) × (early ≡ ok (some job, s'))
unfolding all_in_range
claim_serves_example =
    claim_serves labels_fit (seconds 20) none_locked 7 "default" (pos 60) 90 queue (worker 7) refl
      (omega arith) (omega arith) (omega arith) refl (refl, (refl, tt))

-- The former holder of the job that has been recovered can no longer complete it.
overtaken_is_fenced_example :
    step labels_fit
      (take (seconds 100) 7 90 (pos 60) held_job queue)
      (seconds 110, completes 2 8 80)
    ≡ (false, take (seconds 100) 7 90 (pos 60) held_job queue)
unfolding run leased
overtaken_is_fenced_example =
    overtaken_is_fenced labels_fit 2 8 80 queue (take (seconds 100) 7 90 (pos 60) held_job queue)
      (seconds 100) (seconds 110) none_locked 7 "default" (pos 60) 90
      (leased (seconds 100) 7 90 (pos 60) held_job) (completes 2 8 80) [] late_takes_held refl
      (λ e. absurd (omega arith)) refl refl

abbrev failing : Call
failing = retries 2 8 80 "down" "connectivity" (pos 15)

abbrev completing : Call
completing = completes 2 8 80

ended_once_example :
    step labels_fit (step labels_fit queue (seconds 20, failing)).1 (seconds 30, completing)
    ≡ (false, (step labels_fit queue (seconds 20, failing)).1)
unfolding run
ended_once_example =
    ended_once labels_fit 2 8 80 queue (seconds 20) (seconds 30) failing completing [] refl refl
      refl

holder_ends_example :
    let (answer, s') = step labels_fit queue (seconds 90, completing) in
    (answer ≡ true)
    × ((r' : JobRow String) × (event : ClaimEventKind) × Memᴰ r' s'.jobs
        × IsSameJob held_job r'
        × IsUnleased r'
        × IsEnd (seconds 90) completing held_job r' event
        × (s'.history
            ≡ (record {
              job_id = 2;
              worker_id = 8;
              lease_token = 80;
              event = event;
              occurred_at = seconds 90;
            })
              ∷ []))
holder_ends_example =
    holder_ends 8 80 queue held_job (Memᴰ.tail (Memᴰ.head refl)) refl queue-IsValid labels_fit
      (seconds 90) completing refl

-- Worker 7 claims the other job while worker 8 renews its lease.
abbrev shared : List (ℕ × Call)
shared =
    (seconds 20, claims none_locked 7 "default" (pos 60) 90)
    ∷ (seconds 60, renews 2 8 80 (pos 60))
    ∷ (seconds 100, claims none_locked 7 "default" (pos 60) 91)
    ∷ []

run-IsHeld_example : IsHeld labels_fit 2 8 80 (seconds 120) (run labels_fit queue shared)
run-IsHeld_example =
    run-IsHeld labels_fit 2 8 80 queue (seconds 70) shared queue-IsValid refl
      (record { row = held_job; listed = Memᴰ.tail (Memᴰ.head refl); held = refl; until = refl })

run-worker_limit_example : count (leased_to (seconds 100) 8) (run labels_fit queue shared).jobs ≤ 1
run-worker_limit_example =
    run-worker_limit labels_fit 8 queue (seconds 15) shared queue-IsValid refl (omega arith)

run_pool_limit_example :
    count (leased_in (seconds 100) "default") (run labels_fit queue shared).jobs ≤ 2
run_pool_limit_example =
    run_pool_limit labels_fit "default" queue (seconds 15) shared queue-IsValid refl (omega arith)
