-- ===== src/Rediscovery/Examples.antt =====
-- One source that was checked a moment ago, and no job yet.
use beampipe_core_v.Common.{◌≡◌, refl, String, true, false, none, some, List, [], ◌∷◌}
use beampipe_core_v.Common.Int.{pos}
use beampipe_core_v.JobQueue.{Store}
use beampipe_core_v.Rediscovery.{mark_sources_and_enqueue_discovery_tick}
use beampipe_core_v.SourceClaims.{SourceRow, claimable_for_discovery}

abbrev source : SourceRow
source = record {
  uuid = 1;
  project_module = "hipass";
  source_identifier = "J0001";
  enabled = true;
  last_checked_at = some 90;
  last_attempted_at = some 90;
  discovery_claim_token = some "t0";
  discovery_claim_expires_at = some 400;
  workflow_run_pending = false;
  workflow_run_pending_at = none;
  workflow_claim_token = none;
  workflow_claimed_at = none;
  workflow_claim_expires_at = none;
  created_at = 5;
}

abbrev no_jobs : Store String
no_jobs = record { jobs = []; workers = []; history = [] }

-- The claim that was there stood in the way of another.
not_yet : claimable_for_discovery 100 (some "hipass") (pos 24) source ≡ false
not_yet = refl

-- Where no source is marked, no tick is enqueued.
no_source :
    mark_sources_and_enqueue_discovery_tick 100 2 "hipass"
      (some ("J9" ∷ []))
      ""
      "k"
      ""
      (source ∷ [])
      no_jobs
    ≡ (([], none), (source ∷ [], no_jobs))
unfolding mark_sources_and_enqueue_discovery_tick
no_source = refl
