-- ===== src/JobQueue/Claim/Laws.antt =====
-- The ends of a call of `claim_next_job_for_worker` (crates/beampipe-db/src/repo.rs).
use mathlib.Core.List.{Memᴰ}
use beampipe_core_v.Common.{
  ℕ, ◌<◌, ◌≡◌, refl, String, Bool, true, Option, none, some, Result, ok, err, List, arith, ltb, leb,
  Option-cases, by_test, inl, inr,
}
use beampipe_core_v.Common.Int.{ℤ}
use beampipe_core_v.Common.Lists.{All}
use beampipe_core_v.JobQueue.{JobRow, WorkerInstanceRow, Store}
use beampipe_core_v.JobQueue.Claim.{
  SqlError, find_worker, sum_limits, leased_to, leased_in, eligible, unlocked, candidate, leased,
  take, lease_job, claim_next_job_for_worker,
}
use beampipe_core_v.JobQueue.Order.{
  first_in_order, all_in_range, IsFirst, first_in_order-IsFirst, first_in_order-All,
}
use beampipe_core_v.Common.Rows.{
  count, select_where, select_where-All, select_where-picked, All-mem,
}

module _ {V : Type 0} (jsonb_contains : V → V → Bool) (now : ℕ) (locked : ℕ → Bool) (worker_id : ℕ)
    (pool : String) (lock_seconds : ℤ) (token : ℕ) (s : Store V) where
  -- The rows that a claim chooses from.
  abbrev pub offered : WorkerInstanceRow V → List (JobRow V)
  offered w =
      select_where (unlocked locked) (select_where (eligible jsonb_contains now pool w) s.jobs)

  -- What has been checked when a job is taken, and the outcome.
  pub record Takes (job : JobRow V) (r : Result (Option (JobRow V) × Store V) SqlError)
      : Type 0 where
    pub worker : WorkerInstanceRow V
    pub found : find_worker worker_id pool s.workers ≡ some worker
    pub room : count (leased_to now worker_id) s.jobs < worker.concurrency_limit
    pub pool_room : count (leased_in now pool) s.jobs < sum_limits pool s.workers
    pub first : first_in_order now (offered worker) ≡ some job
    pub result :
        r
        ≡ ok (
          some (leased now worker_id token lock_seconds job),
          take now worker_id token lock_seconds job s,
        )

  -- A claim raises, takes nothing, or takes a job.
  pub data ClaimCase (r : Result (Option (JobRow V) × Store V) SqlError) : Type 0 where
    raises : (e : SqlError) → r ≡ err e → ClaimCase r
    idle : r ≡ ok (none, s) → ClaimCase r
    takes : (job : JobRow V) → Takes job r → ClaimCase r

  choice-cases :
      (w : WorkerInstanceRow V)
      → find_worker worker_id pool s.workers ≡ some w
      → count (leased_to now worker_id) s.jobs < w.concurrency_limit
      → count (leased_in now pool) s.jobs < sum_limits pool s.workers
      → ClaimCase (
          lease_job now worker_id token lock_seconds s
            (candidate jsonb_contains now locked pool w s.jobs))
  unfolding candidate
  choice-cases w found room pool_room =
      by_test (λ c. ClaimCase (lease_job now worker_id token lock_seconds s c))
        (all_in_range now (select_where (eligible jsonb_contains now pool w) s.jobs))
        (λ _. elim (Option-cases (first_in_order now (offered w))) [
          | inl n ↦ rw n (idle refl)
          | inr (job, e) ↦ rw e (
              by_test ClaimCase (ltb job.attempts 2147483647)
                (λ _. takes job (record {
                  worker = w;
                  found = found;
                  room = room;
                  pool_room = pool_room;
                  first = e;
                  result = refl;
                }))
                λ _. raises SqlError.integer_out_of_range refl)
        ])
        λ _. raises SqlError.integer_out_of_range refl

  pub claim-cases :
      ClaimCase
        (claim_next_job_for_worker jsonb_contains now locked worker_id pool lock_seconds token s)
  unfolding claim_next_job_for_worker
  claim-cases = elim (Option-cases (find_worker worker_id pool s.workers)) [
    | inl n ↦ rw n (idle refl)
    | inr (w, e) ↦ rw e (
        by_test ClaimCase (leb w.concurrency_limit (count (leased_to now worker_id) s.jobs))
          (λ _. idle refl)
          λ a.
            by_test ClaimCase (ltb (sum_limits pool s.workers) 1) (λ _. idle refl)
              λ b.
                by_test ClaimCase
                  (leb (sum_limits pool s.workers) (count (leased_in now pool) s.jobs))
                  (λ _. idle refl) λ c. choice-cases w e (ground arith) (ground arith))
  ]

  -- A claim that returns a job has taken it.
  pub claimed-Takes :
      (job : JobRow V) (s' : Store V)
      → claim_next_job_for_worker jsonb_contains now locked worker_id pool lock_seconds token s
        ≡ ok (some job, s')
      → (old : JobRow V) × Takes old
          (claim_next_job_for_worker jsonb_contains now locked worker_id pool lock_seconds token s)
        × (job ≡ leased now worker_id token lock_seconds old)
        × (s' ≡ take now worker_id token lock_seconds old s)
  claimed-Takes job s' h = elim claim-cases [
    | raises e r ↦ absurd (cc (h, r))
    | idle r ↦ absurd (cc (h, r))
    | takes old t ↦ (old, t, cc (h, t.result), cc (h, t.result))
  ]

  -- What is known of a row of the table is known of the row that is taken; and it is eligible, and
  -- not locked by another transaction.
  pub offered-mem : (w : WorkerInstanceRow V) → All (λ r. Memᴰ r s.jobs) (offered w)
  offered-mem w =
      select_where-All (λ r. Memᴰ r s.jobs) (unlocked locked) _
        (select_where-All (λ r. Memᴰ r s.jobs) (eligible jsonb_contains now pool w) s.jobs
          (All-mem s.jobs))

  module _ (job : JobRow V) (r : Result (Option (JobRow V) × Store V) SqlError)
      (t : Takes job r) where
    pub taken-mem : Memᴰ job s.jobs
    taken-mem =
        first_in_order-All now (λ x. Memᴰ x s.jobs) (offered t.worker) job (offered-mem t.worker)
          t.first

    pub taken-eligible : eligible jsonb_contains now pool t.worker job ≡ true
    taken-eligible =
        first_in_order-All now (λ x. eligible jsonb_contains now pool t.worker x ≡ true)
          (offered t.worker) job
          (select_where-All _ (unlocked locked) _
            (select_where-picked (eligible jsonb_contains now pool t.worker) s.jobs))
          t.first

    pub taken-unlocked : unlocked locked job ≡ true
    taken-unlocked =
        first_in_order-All now (λ x. unlocked locked x ≡ true) (offered t.worker) job
          (select_where-picked (unlocked locked)
            (select_where (eligible jsonb_contains now pool t.worker) s.jobs))
          t.first

    pub taken-IsFirst : IsFirst now job (offered t.worker)
    taken-IsFirst = first_in_order-IsFirst now (offered t.worker) job t.first
