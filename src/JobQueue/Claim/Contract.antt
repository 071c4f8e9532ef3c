-- ===== src/JobQueue/Claim/Contract.antt =====
-- The contract of `claim_next_job_for_worker` of crates/beampipe-db/src/repo.rs.
use mathlib.Core.List.{Memᴰ}
use beampipe_core_v.Common.{ℕ, ◌<◌, ◌≡◌, refl, String, Bool, true, false, some, ok, arith, ltb, leb}
use beampipe_core_v.Common.Int.{ℤ}
use beampipe_core_v.Common.Lists.{All, length}
use beampipe_core_v.JobQueue.{JobRow, WorkerInstanceRow, Store, lease_active}
use beampipe_core_v.JobQueue.Claim.{
  find_worker, sum_limits, leased_to, leased_in, eligible, candidate, leased, take,
  claim_next_job_for_worker,
}
use beampipe_core_v.JobQueue.Claim.Laws.{
  claimed-Takes, offered, offered-mem, taken-mem, taken-eligible, taken-unlocked, taken-IsFirst,
}
use beampipe_core_v.JobQueue.Order.{IsFirst, all_in_range, first_in_order-All, first_in_order-some}
use beampipe_core_v.Common.Rows.{count, select_where, All-of_mem}

module _ {V : Type 0} (jsonb_contains : V → V → Bool) (now : ℕ) (locked : ℕ → Bool) (worker_id : ℕ)
    (pool : String) (lock_seconds : ℤ) (token : ℕ) (s : Store V) where
  pub eligible-inactive :
      (w : WorkerInstanceRow V) (r : JobRow V)
      → eligible jsonb_contains now pool w r ≡ true
      → lease_active now r ≡ false
  eligible-inactive w r h = ground arith

  -- What a job was before it was taken.
  pub record IsTaken (old job : JobRow V) : Type 0 where
    pub worker : WorkerInstanceRow V
    pub registered : find_worker worker_id pool s.workers ≡ some worker
    pub listed : Memᴰ old s.jobs
    pub fits : eligible jsonb_contains now pool worker old ≡ true
    pub idle : lease_active now old ≡ false
    pub free : locked old.uuid ≡ false
    pub first :
        IsFirst now old
          (offered jsonb_contains now locked worker_id pool lock_seconds token s worker)
    pub row : job ≡ leased now worker_id token lock_seconds old

  -- A job that a claim returns is a row of the table that fits the registered worker, with no active
  -- lease and not locked by another transaction, before which no other such row comes in the order of
  -- score, due time and age; it is returned as it is stored, under the new lease.
  pub claim_takes :
      (job : JobRow V) (s' : Store V)
      → claim_next_job_for_worker jsonb_contains now locked worker_id pool lock_seconds token s
        ≡ ok (some job, s')
      → (old : JobRow V) × IsTaken old job × (s' ≡ take now worker_id token lock_seconds old s)
  claim_takes job s' h =
      let (old, t, row, store) =
        claimed-Takes jsonb_contains now locked worker_id pool lock_seconds token s job s' h in
      let fits =
        taken-eligible jsonb_contains now locked worker_id pool lock_seconds token s old _ t in
      (
        old,
        record {
          worker = t.worker;
          registered = t.found;
          listed = taken-mem jsonb_contains now locked worker_id pool lock_seconds token s old _ t;
          fits = fits;
          idle = eligible-inactive t.worker old fits;
          free = ground (
            arith,
            taken-unlocked jsonb_contains now locked worker_id pool lock_seconds token s old _ t,
          );
          first =
              taken-IsFirst jsonb_contains now locked worker_id pool lock_seconds token s old _ t;
          row = row;
        },
        store,
      )

  -- A registered worker with room, in a pool with room, gets a job if there is an eligible row that no
  -- other transaction has locked, as long as no score and no count of attempts overflows.
  pub claim_serves :
      (w : WorkerInstanceRow V)
      → find_worker worker_id pool s.workers ≡ some w
      → count (leased_to now worker_id) s.jobs < w.concurrency_limit
      → count (leased_in now pool) s.jobs < sum_limits pool s.workers
      → 0 < length (offered jsonb_contains now locked worker_id pool lock_seconds token s w)
      → all_in_range now (select_where (eligible jsonb_contains now pool w) s.jobs) ≡ true
      → All (λ r. ltb r.attempts 2147483647 ≡ true) s.jobs
      → (job : JobRow V) × (s' : Store V) × (claim_next_job_for_worker jsonb_contains now locked
            worker_id pool lock_seconds token s
          ≡ ok (some job, s'))
  unfolding claim_next_job_for_worker candidate
  claim_serves w found room pool_room some_offered in_range small =
      let rows = offered jsonb_contains now locked worker_id pool lock_seconds token s w in
      let (job, e) = first_in_order-some now rows some_offered in
      let m =
        first_in_order-All now (λ r. Memᴰ r s.jobs) rows job
          (offered-mem jsonb_contains now locked worker_id pool lock_seconds token s w) e in
      let fits = All-of_mem (λ r. ltb r.attempts 2147483647 ≡ true) m small in
      let room' : leb w.concurrency_limit (count (leased_to now worker_id) s.jobs) ≡ false =
        ground arith in
      let some_limit : ltb (sum_limits pool s.workers) 1 ≡ false = ground arith in
      let pool_room' : leb (sum_limits pool s.workers) (count (leased_in now pool) s.jobs) ≡ false =
        ground arith in
      (
        leased now worker_id token lock_seconds job,
        take now worker_id token lock_seconds job s,
        rw (found, room', some_limit, pool_room', in_range, e, fits) refl,
      )
