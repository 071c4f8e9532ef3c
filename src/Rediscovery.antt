-- ===== src/Rediscovery.antt =====
-- Sources that are marked for another discovery, and the tick that discovers them:
-- `mark_sources_and_enqueue_discovery_tick` of crates/beampipe-db/src/repo.rs, one transaction over
-- the tables `source_registry` and `jobs`. The new uuid and the empty labels are arguments.
pub mod Laws
mod Examples
use beampipe_core_v.Common.{
  ℕ, String, Bool, true, false, ◌&&◌, ◌||◌, Option, none, some, List, [], ◌∷◌, map, ◌==◌,
  if◌then◌else◌,
}
use beampipe_core_v.Common.Int.{pos}
use beampipe_core_v.Common.Rows.{update_where, select_where}
use beampipe_core_v.JobQueue.{JobRow, Store}
use beampipe_core_v.JobQueue.Enqueue.{has_ended, has_key, inserted, requeued, upserted}
use beampipe_core_v.SourceClaims.{SourceRow, any_text}

-- A condition that is only there with sources to name.
abbrev pub is_named : Option (List String) → String → Bool
is_named none s = true
is_named (some []) s = true
is_named (some (i ∷ is)) s = any_text (i ∷ is) s

abbrev pub marks : String → Option (List String) → SourceRow → Bool
marks project sources r =
    (r.project_module == project) && r.enabled && is_named sources r.source_identifier

unfoldable pub marked : SourceRow → SourceRow
marked r = record r {
  last_checked_at = none;
  last_attempted_at = none;
  discovery_claim_token = none;
  discovery_claim_expires_at = none;
  workflow_claim_token = none;
  workflow_claimed_at = none;
  workflow_claim_expires_at = none;
}

module _ {V : Type 0} where
  -- The assignments of `DO UPDATE`: those of a recurring job, but a job that has not ended keeps its
  -- payload, and every job its pool, requirements and priority.
  unfoldable pub tick_requeued : ℕ → JobRow V → JobRow V → JobRow V
  unfolding requeued
  tick_requeued now new r = record (requeued now new r) {
    payload = if has_ended r.status then new.payload else r.payload;
    pool = r.pool;
    required_capabilities = r.required_capabilities;
    required_labels = r.required_labels;
    priority = r.priority;
  }

  unfoldable pub tick : ℕ → ℕ → V → String → V → JobRow V
  unfolding inserted
  tick now id payload key labels =
      inserted now id "scheduler_tick" payload key "default" ("discovery:tap" ∷ []) labels (pos 0)

  -- The names of the sources that were marked, the job, and the rows after them.
  abbrev enqueued :
      (now id : ℕ)
      → V
      → String
      → V
      → List SourceRow
      → Store V
      → List SourceRow
      → (List String × Option (JobRow V)) × (List SourceRow × Store V)
  enqueued now id payload key labels rows s [] = (([], none), (rows, s))
  enqueued now id payload key labels rows s (r ∷ rs) =
      let new = tick now id payload key labels in
      let (job, jobs) =
        upserted (has_key key) (tick_requeued now new) new s.jobs
          (select_where (has_key key) s.jobs) in
      ((map (λ x. x.source_identifier) (r ∷ rs), some job), (rows, record s { jobs = jobs }))

  unfoldable pub mark_sources_and_enqueue_discovery_tick :
      (now id : ℕ)
      → String
      → Option (List String)
      → V
      → String
      → V
      → List SourceRow
      → Store V
      → (List String × Option (JobRow V)) × (List SourceRow × Store V)
  unfolding tick tick_requeued marked
  mark_sources_and_enqueue_discovery_tick now id project sources payload key labels rows s =
      enqueued now id payload key labels (update_where (marks project sources) marked rows) s
        (select_where (marks project sources) rows)
