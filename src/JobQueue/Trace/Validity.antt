-- ===== src/JobQueue/Trace/Validity.antt =====
-- The columns of a lease in the rows of `jobs`, under the calls of the workers
-- (crates/beampipe-db/src/repo.rs).
use beampipe_core_v.Common.{
  ℕ, ◌≤◌, ◌≡◌, refl, String, some, ok, Bool, true, ◌&&◌, is_some, is_none, List, [], ◌∷◌, arith,
  if◌then◌else◌,
}
use beampipe_core_v.Common.Int.{ℤ}
use beampipe_core_v.Common.Lists.{All}
use beampipe_core_v.JobQueue.{JobRow, Store, is_running, holds_lease}
use beampipe_core_v.JobQueue.Claim.{has_uuid, leased, take, claim_next_job_for_worker}
use beampipe_core_v.JobQueue.Lease.{renewable, renewed}
use beampipe_core_v.JobQueue.Lease.Laws.{IsClosing}
use beampipe_core_v.Common.Rows.{
  count, update_where, update_where-All, count-update_where_le, All-unit,
}
use beampipe_core_v.JobQueue.Trace.{
  Call, claims, keeps, leases, extends, closes, step, step-Moves, run,
}

module _ {V : Type 0} where
  -- A running row has all five columns of a lease, and any other row has none of them.
  abbrev pub well_leased : JobRow V → Bool
  well_leased r =
      if is_running r.status
      then is_some r.lease_owner
        && is_some r.lease_token
        && is_some r.lease_expires_at
        && is_some r.locked_until
        && is_some r.heartbeat_at
      else is_none r.lease_owner
        && is_none r.lease_token
        && is_none r.lease_expires_at
        && is_none r.locked_until

  abbrev pub IsWellLeased : JobRow V → Type 0
  IsWellLeased r = well_leased r ≡ true

  pub record IsValid (s : Store V) : Type 0 where
    pub unique : (id : ℕ) → count (has_uuid id) s.jobs ≤ 1
    pub rows : All IsWellLeased s.jobs

  -- An update that keeps the uuid and leaves each row well leased keeps the invariant.
  update_where-IsValid :
      (s s' : Store V) (p : JobRow V → Bool) (f : JobRow V → JobRow V)
      → ((r : JobRow V) → (f r).uuid ≡ r.uuid)
      → ((r : JobRow V) → IsWellLeased r → p r ≡ true → IsWellLeased (f r))
      → s'.jobs ≡ update_where p f s.jobs
      → IsValid s
      → IsValid s'
  update_where-IsValid s s' p f same keep e v = record {
    unique = λ id.
        let le =
          count-update_where_le (λ _. Unit {0}) (has_uuid id) (has_uuid id) p f (λ r h. h)
            (λ r _ _ h. rw (← same r) h) s.jobs (All-unit s.jobs) in
        rw e (omega (arith, le, v.unique id));
    rows = rw e (update_where-All IsWellLeased p f keep s.jobs v.rows);
  }

  leased-IsWellLeased :
      (now worker_id token : ℕ) (n : ℤ) (r : JobRow V)
      → IsWellLeased (leased now worker_id token n r)
  unfolding leased
  leased-IsWellLeased now worker_id token n r = refl

  renewed-IsWellLeased :
      (now job_id worker_id token : ℕ) (n : ℤ) (r : JobRow V)
      → IsWellLeased r
      → renewable now job_id worker_id token r ≡ true
      → IsWellLeased (renewed now n r)
  unfolding renewed
  renewed-IsWellLeased now job_id worker_id token n r h p = ground arith

  closing-IsWellLeased :
      (g : JobRow V → JobRow V) → IsClosing g → (r : JobRow V) → IsWellLeased (g r)
  closing-IsWellLeased g c r =
      rw (c.stopped r, c.no_owner r, c.no_token r, c.no_expiry r, c.no_lock r) refl

module _ {V : Type 0} (jsonb_contains : V → V → Bool) where
  pub step-IsValid : (s : Store V) (c : ℕ × Call) → IsValid s → IsValid (step jsonb_contains s c).1
  unfolding take leased renewed
  step-IsValid s (now, call) v = elim (step-Moves jsonb_contains s now call) [
    | keeps _ _ _ _ _ _ e ↦ record { unique = rw e v.unique; rows = rw e v.rows }
    | leases locked worker_id pool n token job _ t e ↦
        update_where-IsValid s _ (has_uuid job.uuid) (leased now worker_id token n) (λ r. refl)
          (λ r _ _. leased-IsWellLeased now worker_id token n r) e v
    | extends job_id worker_id token n _ e ↦
        update_where-IsValid s _ (renewable now job_id worker_id token) (renewed now n) (λ r. refl)
          (renewed-IsWellLeased now job_id worker_id token n) e v
    | closes job_id worker_id token g _ c e ↦
        update_where-IsValid s _ (holds_lease job_id worker_id token) g c.same_uuid
          (λ r _ _. closing-IsWellLeased g c r) e v
  ]

  pub claimed-IsValid :
      (s s' : Store V) (now : ℕ) (locked : ℕ → Bool) (w : ℕ) (pool : String) (n : ℤ) (token : ℕ)
      (job : JobRow V)
      → claim_next_job_for_worker jsonb_contains now locked w pool n token s ≡ ok (some job, s')
      → IsValid s
      → IsValid s'
  unfolding step
  claimed-IsValid s s' now locked w pool n token job e v =
      rw e at (step-IsValid s (now, claims locked w pool n token) v)

  -- Where no two jobs have the same uuid, and a job has an owner, a token, a deadline and a lock
  -- exactly if it is running (and then a heartbeat), this holds after any sequence of claims,
  -- renewals and ends by any workers at any times.
  pub run-IsValid :
      (s : Store V) (cs : List (ℕ × Call)) → IsValid s → IsValid (run jsonb_contains s cs)
  unfolding run
  run-IsValid s [] v = v
  run-IsValid s (c ∷ cs) v = run-IsValid (step jsonb_contains s c).1 cs (step-IsValid s c v)
