-- ===== src/JobQueue/Trace/Capacity.antt =====
-- The leases of one worker and its limit
-- (`claim_next_job_for_worker` of crates/beampipe-db/src/repo.rs).
pub mod Pool
use mathlib.Core.Path.{subst}
use mathlib.Core.List.{Memᴰ}
use beampipe_core_v.Common.{
  ℕ, ◌+◌, ◌≤◌, ◌<◌, ◌≡◌, ◌⊎◌, refl, sym, String, Bool, true, false, not, ◌&&◌, none, some, List, [],
  ◌∷◌, arith, eqb, leb, if◌then◌else◌, inl, inr, Bool-cases, ◌==◌, eq_iff,
}
use beampipe_core_v.Common.Int.{ℤ}
use beampipe_core_v.Common.Lists.{All}
use beampipe_core_v.JobQueue.{
  JobRow, WorkerInstanceRow, Store, is_uuid, passed, lease_active, holds_lease,
}
use beampipe_core_v.JobQueue.Claim.{
  has_uuid, find_worker, sum_limits, leased_to, leased_in, leased, take,
}
use beampipe_core_v.JobQueue.Claim.Laws.{Takes}
use beampipe_core_v.JobQueue.Lease.{renewable, renewed}
use beampipe_core_v.JobQueue.Lease.Laws.{IsClosing}
use beampipe_core_v.Common.Rows.{
  count, update_where, count-update_where_le, count-update_where_add, count-le, All-unit,
}
use beampipe_core_v.JobQueue.Trace.{
  Call, Moves, keeps, leases, extends, closes, step, step-Moves, step-workers, run,
}
use beampipe_core_v.JobQueue.Trace.Validity.{IsValid, step-IsValid}

-- The calls come in the order of time, from `t` on; and the time of the last one.
abbrev pub in_order : ℕ → List (ℕ × Call) → Bool
in_order t [] = true
in_order t ((now, _) ∷ cs) = leb t now && in_order now cs

abbrev pub end_time : ℕ → List (ℕ × Call) → ℕ
end_time t [] = t
end_time t ((now, _) ∷ cs) = end_time now cs

module _ {V : Type 0} where
  -- The highest limit among the rows of a worker.
  abbrev pub worker_limit : ℕ → List (WorkerInstanceRow V) → ℕ
  worker_limit id [] = 0
  worker_limit id (w ∷ ws) =
      if eqb w.uuid id && leb (worker_limit id ws) w.concurrency_limit
      then w.concurrency_limit
      else worker_limit id ws

  find_worker_limit :
      (id : ℕ) (pool : String) (ws : List (WorkerInstanceRow V)) (w : WorkerInstanceRow V)
      → find_worker id pool ws ≡ some w
      → w.concurrency_limit ≤ worker_limit id ws
  find_worker_limit id pool [] w e = cc
  find_worker_limit id pool (v ∷ ws) w e = ground (arith, find_worker_limit id pool ws w)

  -- A lease that is active now was active before, if nothing has changed.
  lease_active_mono :
      (t now : ℕ) (r : JobRow V) → t ≤ now → lease_active now r ≡ true → lease_active t r ≡ true
  lease_active_mono t now r le h = ground arith

  renewable_active :
      (now j w t : ℕ) (r : JobRow V) → renewable now j w t r ≡ true → lease_active now r ≡ true
  renewable_active now j w t r h = ground arith

  closed_inactive :
      (g : JobRow V → JobRow V) (now : ℕ) (r : JobRow V)
      → IsClosing g
      → lease_active now (g r) ≡ false
  closed_inactive g now r c = rw (c.stopped r) refl

-- The active leases that a test picks.
module _ {V : Type 0} (pick : JobRow V → Bool) where
  abbrev held : ℕ → JobRow V → Bool
  held now r = pick r && lease_active now r

  held_mono : (t now : ℕ) → t ≤ now → (r : JobRow V) → held now r ≡ true → held t r ≡ true
  held_mono t now le r h = ground (arith, lease_active_mono t now r le)

  -- Time alone ends leases, and an update adds none that changes no row to an active one.
  held_kept :
      (t now : ℕ) (rows : List (JobRow V)) → t ≤ now → count (held now) rows ≤ count (held t) rows
  held_kept t now rows le = count-le (held t) (held now) (held_mono t now le) rows

  held_updated :
      (t now : ℕ) (rows : List (JobRow V)) (p : JobRow V → Bool) (f : JobRow V → JobRow V)
      → t ≤ now
      → ((r : JobRow V) → p r ≡ true → held now (f r) ≡ true → held now r ≡ true)
      → count (held now) (update_where p f rows) ≤ count (held t) rows
  held_updated t now rows p f le keep =
      count-update_where_le (λ _. Unit {0}) (held t) (held now) p f (held_mono t now le)
        (λ r _ k q. held_mono t now le r (keep r k q)) rows (All-unit rows)

  held_extended :
      (t now j w k : ℕ) (n : ℤ) (rows : List (JobRow V))
      → t ≤ now
      → ((r : JobRow V) → pick (renewed now n r) ≡ pick r)
      → count (held now) (update_where (renewable now j w k) (renewed now n) rows)
        ≤ count (held t) rows
  held_extended t now j w k n rows le same =
      held_updated t now rows (renewable now j w k) (renewed now n) le
        λ r p q. ground (arith, renewable_active now j w k r, same r)

  held_closed :
      (t now j w k : ℕ) (g : JobRow V → JobRow V) (rows : List (JobRow V))
      → t ≤ now
      → IsClosing g
      → count (held now) (update_where (holds_lease j w k) g rows) ≤ count (held t) rows
  held_closed t now j w k g rows le closing =
      held_updated t now rows (holds_lease j w k) g le
        λ r p q. ground (arith, closed_inactive g now r closing)

module _ {V : Type 0} (jsonb_contains : V → V → Bool) (id : ℕ) where
  abbrev owned : JobRow V → Bool
  owned r = is_uuid r.lease_owner id

  -- A claim by another worker adds no lease to this one; a claim by this worker adds one.
  claim_adds :
      (s : Store V) (now w token : ℕ) (n : ℤ) (job : JobRow V)
      → eqb w id ≡ false
      → count (leased_to now id) (take now w token n job s).jobs ≤ count (leased_to now id) s.jobs
  unfolding take leased
  claim_adds s now w token n job other =
      held_updated owned now now s.jobs (has_uuid job.uuid) (leased now w token n) (omega arith)
        λ r p q. ground arith

  claim_adds_one :
      (s : Store V) (now w token : ℕ) (n : ℤ) (job : JobRow V)
      → IsValid s
      → count (leased_to now id) (take now w token n job s).jobs
        ≤ count (leased_to now id) s.jobs + 1
  unfolding take
  claim_adds_one s now w token n job v =
      let le =
        count-update_where_add (leased_to now id) (leased_to now id) (has_uuid job.uuid)
          (leased now w token n) (λ r h. h) s.jobs in
      omega (arith, le, v.unique job.uuid)

  step-worker_limit :
      (s : Store V) (t now : ℕ) (c : Call)
      → t ≤ now
      → IsValid s
      → count (leased_to t id) s.jobs ≤ worker_limit id s.workers
      → count (leased_to now id) (step jsonb_contains s (now, c)).1.jobs ≤ worker_limit id s.workers
  unfolding renewed
  step-worker_limit s t now c le v h = elim (step-Moves jsonb_contains s now c) [
    | keeps _ _ _ _ _ _ e ↦ rw e (omega (arith, h, held_kept owned t now s.jobs le))
    | leases locked w pool n token job _ took e ↦ elim (Bool-cases (eqb w id)) [
      | inl same ↦
          let w_is : w ≡ id = ground arith in
          let bound = find_worker_limit w pool s.workers took.worker took.found in
          let more = claim_adds_one s now w token n job v in
          rw e (omega (arith, more, rw w_is at bound, rw w_is at took.room))
      | inr other ↦
          rw e (
            omega (arith, h, held_kept owned t now s.jobs le, claim_adds s now w token n job other))
    ]
    | extends j w k n _ e ↦
        rw e (omega (arith, h, held_extended owned t now j w k n s.jobs le (λ r. refl)))
    | closes j w k g _ closing e ↦
        rw e (omega (arith, h, held_closed owned t now j w k g s.jobs le closing))
  ]

  -- No worker ever holds more active leases than its limit: where this holds at some time, it holds
  -- after any calls of any workers that come in the order of time, if no two jobs have the same uuid
  -- and a job has the columns of a lease exactly if it is running.
  pub run-worker_limit :
      (s : Store V) (t : ℕ) (cs : List (ℕ × Call))
      → IsValid s
      → in_order t cs ≡ true
      → count (leased_to t id) s.jobs ≤ worker_limit id s.workers
      → count (leased_to (end_time t cs) id) (run jsonb_contains s cs).jobs
        ≤ worker_limit id s.workers
  unfolding run
  run-worker_limit s t [] v o h = h
  run-worker_limit s t ((now, c) ∷ cs) v o h =
      let s' = (step jsonb_contains s (now, c)).1 in
      let same = step-workers jsonb_contains s (now, c) in
      subst
        (λ ws.
          count (leased_to (end_time now cs) id) (run jsonb_contains s' cs).jobs
          ≤ worker_limit id ws)
        same
        (run-worker_limit s' now cs (step-IsValid jsonb_contains s (now, c) v) (ground arith)
          (rw same (step-worker_limit s t now c (ground arith) v h)))
