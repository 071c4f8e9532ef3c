-- ===== src/JobQueue/Trace/Capacity/Pool.antt =====
-- The leases of a pool and the limits of its workers
-- (`claim_next_job_for_worker` of crates/beampipe-db/src/repo.rs).
use mathlib.Core.Path.{subst}
use beampipe_core_v.Common.{
  ℕ, ◌+◌, ◌≤◌, ◌≡◌, ◌⊎◌, refl, String, Bool, true, false, List, [], ◌∷◌, arith, inl, inr,
  Bool-cases, ◌==◌, eq_iff,
}
use beampipe_core_v.Common.Int.{ℤ}
use beampipe_core_v.Common.Lists.{All}
use beampipe_core_v.JobQueue.{JobRow, WorkerInstanceRow, Store}
use beampipe_core_v.JobQueue.Claim.{
  has_uuid, eligible, sum_limits, leased_in, leased, take, claim_next_job_for_worker,
}
use beampipe_core_v.JobQueue.Claim.Laws.{taken-mem, taken-eligible}
use beampipe_core_v.JobQueue.Lease.{renewed}
use beampipe_core_v.Common.Rows.{count, count-update_where_le, count-update_where_add, only_row}
use beampipe_core_v.JobQueue.Trace.{
  Call, keeps, leases, extends, closes, step, step-Moves, step-workers, run,
}
use beampipe_core_v.JobQueue.Trace.Capacity.{
  in_order, end_time, held_kept, held_extended, held_closed,
}
use beampipe_core_v.JobQueue.Trace.Validity.{IsValid, step-IsValid}

module _ {V : Type 0} (jsonb_contains : V → V → Bool) (pool : String) where
  abbrev inside : JobRow V → Bool
  inside r = r.pool == pool

  eligible-pool :
      (now : ℕ) (q : String) (w : WorkerInstanceRow V) (r : JobRow V)
      → eligible jsonb_contains now q w r ≡ true
      → (r.pool == q) ≡ true
  eligible-pool now q w r h = ground arith

  claim_adds_one :
      (s : Store V) (now w token : ℕ) (n : ℤ) (job : JobRow V)
      → IsValid s
      → count (leased_in now pool) (take now w token n job s).jobs
        ≤ count (leased_in now pool) s.jobs + 1
  unfolding take
  claim_adds_one s now w token n job v =
      let le =
        count-update_where_add (leased_in now pool) (leased_in now pool) (has_uuid job.uuid)
          (leased now w token n) (λ r h. h) s.jobs in
      omega (arith, le, v.unique job.uuid)

  -- A claim in another pool changes a row of the other pool.
  claim_elsewhere :
      (s : Store V) (now w token : ℕ) (n : ℤ) (job : JobRow V)
      → (job.pool == pool) ≡ false
      → All (λ r. (has_uuid job.uuid r ≡ false) ⊎ (r ≡ job)) s.jobs
      → count (leased_in now pool) (take now w token n job s).jobs
        ≤ count (leased_in now pool) s.jobs
  unfolding take leased
  claim_elsewhere s now w token n job other only =
      count-update_where_le (λ r. (has_uuid job.uuid r ≡ false) ⊎ (r ≡ job)) (leased_in now pool)
        (leased_in now pool) (has_uuid job.uuid) (leased now w token n) (λ r h. h)
        (λ r o p q. outside r o p q) s.jobs only
    where
      outside :
          (r : JobRow V)
          → (has_uuid job.uuid r ≡ false) ⊎ (r ≡ job)
          → has_uuid job.uuid r ≡ true
          → leased_in now pool (leased now w token n r) ≡ true
          → leased_in now pool r ≡ true
      outside r (inl miss) p q = absurd (cc (miss, p))
      outside r (inr same) p q =
          let there : (r.pool == pool) ≡ false = rw same other in absurd (ground arith)

  step_pool_limit :
      (s : Store V) (t now : ℕ) (c : Call)
      → t ≤ now
      → IsValid s
      → count (leased_in t pool) s.jobs ≤ sum_limits pool s.workers
      → count (leased_in now pool) (step jsonb_contains s (now, c)).1.jobs
        ≤ sum_limits pool s.workers
  unfolding renewed
  step_pool_limit s t now c le v h = elim (step-Moves jsonb_contains s now c) [
    | keeps _ _ _ _ _ _ e ↦ rw e (omega (arith, h, held_kept inside t now s.jobs le))
    | leases locked w q n token job _ took e ↦ elim (Bool-cases (q == pool)) [
      | inl same ↦
          let q_is : q ≡ pool = (eq_iff q pool).0 same in
          rw e (omega (arith, claim_adds_one s now w token n job v, rw q_is at took.pool_room))
      | inr other ↦
          let r = claim_next_job_for_worker jsonb_contains now locked w q n token s in
          let m = taken-mem jsonb_contains now locked w q n token s job r took in
          let picked = taken-eligible jsonb_contains now locked w q n token s job r took in
          let at_q : job.pool ≡ q =
            (eq_iff job.pool q).0 (eligible-pool now q took.worker job picked) in
          let only = only_row (has_uuid job.uuid) job s.jobs m (ground arith) (v.unique job.uuid) in
          rw e (
            omega (
              arith,
              h,
              held_kept inside t now s.jobs le,
              claim_elsewhere s now w token n job (rw at_q other) only,
            ))
    ]
    | extends j w k n _ e ↦
        rw e (omega (arith, h, held_extended inside t now j w k n s.jobs le (λ r. refl)))
    | closes j w k g _ closing e ↦
        rw e (omega (arith, h, held_closed inside t now j w k g s.jobs le closing))
  ]

  -- No pool ever has more active leases than the limits of its active workers add up to: where this
  -- holds at some time, it holds after any calls of any workers that come in the order of time, if no
  -- two jobs have the same uuid and a job has the columns of a lease exactly if it is running.
  pub run_pool_limit :
      (s : Store V) (t : ℕ) (cs : List (ℕ × Call))
      → IsValid s
      → in_order t cs ≡ true
      → count (leased_in t pool) s.jobs ≤ sum_limits pool s.workers
      → count (leased_in (end_time t cs) pool) (run jsonb_contains s cs).jobs
        ≤ sum_limits pool s.workers
  unfolding run
  run_pool_limit s t [] v o h = h
  run_pool_limit s t ((now, c) ∷ cs) v o h =
      let s' = (step jsonb_contains s (now, c)).1 in
      let same = step-workers jsonb_contains s (now, c) in
      subst
        (λ ws.
          count (leased_in (end_time now cs) pool) (run jsonb_contains s' cs).jobs
          ≤ sum_limits pool ws)
        same
        (run_pool_limit s' now cs (step-IsValid jsonb_contains s (now, c) v) (ground arith)
          (rw same (step_pool_limit s t now c (ground arith) v h)))
