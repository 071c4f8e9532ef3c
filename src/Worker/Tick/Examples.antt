-- ===== src/Worker/Tick/Examples.antt =====
-- Tests of the worker, and its theorems at concrete jobs.
use mathlib.Core.List.{Memᴰ}
use beampipe_core_v.Common.{
  ◌≤◌, ◌≡◌, refl, String, Bool, true, false, none, some, ok, err, List, [], ◌∷◌, arith,
}
use beampipe_core_v.Common.Int.{pos}
use beampipe_core_v.JobQueue.{
  JobStatus, JobRow, ClaimEventKind, ClaimEvent, WorkerStatus, Store, seconds,
}
use beampipe_core_v.JobQueue.Claim.{leased, take, claim_next_job_for_worker}
use beampipe_core_v.JobQueue.Order.{all_in_range, first_in_order}
use beampipe_core_v.JobQueue.Trace.{claims}
use beampipe_core_v.JobQueue.Trace.Holder.{IsSameJob, IsUnleased}
use beampipe_core_v.JobQueue.Trace.Validity.{IsValid}
use beampipe_core_v.Common.Text.{to_ascii_lowercase, contains_text}
use beampipe_core_v.Json.Sample.{sample, Tree}
use beampipe_core_v.Worker.Failure.{
  FailureClass, is_non_retryable_job_error, classify_job_failure, retry_delay_seconds,
}
use beampipe_core_v.Worker.Failure.Laws.{retry_delay_bounds}
use beampipe_core_v.Worker.Tick.{Course, settled, tick_for_worker}
use beampipe_core_v.Worker.Tick.Laws.{tick_settles}
use beampipe_core_v.Worker.Tick.Outcome.{IsOutcome}

abbrev tm_error : String
tm_error = "DALiuGE Translation Manager at http://dlg-tm.desk is unreachable"

tests_of_job_errors :
    (is_non_retryable_job_error "execute" tm_error ≡ true)
    × (is_non_retryable_job_error "execute" "CASDA authentication failed: HTTP 401" ≡ true)
    × (is_non_retryable_job_error "execute" "database timeout" ≡ false)
unfolding is_non_retryable_job_error to_ascii_lowercase contains_text
tests_of_job_errors = (refl, refl, refl)

classes :
    (classify_job_failure "execute" tm_error ≡ FailureClass.configuration)
    × (classify_job_failure "execute" "Database TIMED out" ≡ FailureClass.timeout)
    × (classify_job_failure "execute" "row already exists" ≡ FailureClass.conflict)
    × (classify_job_failure "discover_batch" "connection reset"
        ≡ FailureClass.dependency_unavailable)
unfolding classify_job_failure to_ascii_lowercase contains_text
classes = (refl, refl, refl, refl)

delays :
    (retry_delay_seconds 24 1 ≡ 17)
    × (retry_delay_seconds 24 4 ≡ 122)
    × (retry_delay_seconds 24 9 ≡ 3600)
    × (retry_delay_seconds 24 0 ≡ 17)
unfolding retry_delay_seconds
delays = (refl, refl, refl, refl)

retry_delay_bounds_example :
    (15 ≤ retry_delay_seconds 24 2)
    × (retry_delay_seconds 24 7 ≤ 3600)
    × (retry_delay_seconds 24 2 ≤ retry_delay_seconds 24 7)
retry_delay_bounds_example = retry_delay_bounds 24 2 7 (omega arith)

abbrev all_fit : Tree → Tree → Bool
all_fit _ _ = true

abbrev job : JobRow Tree
job = record {
  uuid = 24;
  kind = "discover_batch";
  payload = Tree.null;
  status = JobStatus.queued;
  execution_id = none;
  phase = none;
  attempts = 0;
  max_attempts = pos 3;
  next_run_at = 0;
  locked_until = none;
  lease_owner = none;
  lease_token = none;
  lease_expires_at = none;
  heartbeat_at = none;
  pool = "default";
  required_capabilities = "discovery:tap" ∷ [];
  required_labels = Tree.null;
  priority = pos 0;
  idempotency_key = none;
  last_error = none;
  failure_class = none;
  dead_lettered_at = none;
  dead_letter_reason = none;
  created_at = 0;
  updated_at = none;
}

abbrev queue : Store Tree
queue = record {
  jobs = job ∷ [];
  workers =
      record {
        uuid = 7;
        pool = "default";
        capabilities = "discovery:tap" ∷ [];
        labels = Tree.null;
        concurrency_limit = 1;
        status = WorkerStatus.active;
      }
      ∷ [];
  history = [];
}

-- The handler fails after one renewal; another worker has found nothing to do.
abbrev course : JobRow Tree → Course
course _ = record {
  rounds = ((seconds 11, claims (λ _. false) 8 "default" (pos 60) 91) ∷ [], seconds 30) ∷ [];
  result = err "connection reset";
  others = [];
  at = seconds 50;
}

queue-IsValid : IsValid queue
queue-IsValid = record { unique = λ id. ground arith; rows = (refl, tt) }

abbrev claimed : JobRow Tree
claimed = leased (seconds 10) 7 90 (pos 60) job

claims_job :
    claim_next_job_for_worker all_fit (seconds 10) (λ _. false) 7 "default" (pos 60) 90 queue
    ≡ ok (some claimed, take (seconds 10) 7 90 (pos 60) job queue)
unfolding claim_next_job_for_worker all_in_range first_in_order
claims_job = refl

tick_settles_example :
    (r : JobRow Tree) × (event : ClaimEventKind) × (earlier : List ClaimEvent) × (s' : Store Tree)
    × (tick_for_worker sample all_fit (seconds 10) (λ _. false) 7 "default" (pos 60) 90 course queue
        ≡ some (settled true, s'))
    × Memᴰ r s'.jobs
    × IsSameJob claimed r
    × IsUnleased r
    × IsOutcome sample (seconds 50) claimed (err "connection reset") r event
    × (s'.history
        ≡ (record {
          job_id = 24;
          worker_id = 7;
          lease_token = 90;
          event = event;
          occurred_at = seconds 50;
        })
          ∷ earlier)
unfolding leased
tick_settles_example =
    tick_settles sample all_fit (seconds 10) (λ _. false) 7 "default" (pos 60) 90 course queue
      (take (seconds 10) 7 90 (pos 60) job queue) claimed queue-IsValid claims_job refl
