-- ===== src/SourceClaims/Examples.antt =====
-- Tests of the claims, and their theorems at three sources.
use mathlib.Core.List.{Memᴰ}
use beampipe_core_v.Common.{
  ℕ, ◌-◌, ◌≡◌, refl, String, Bool, true, false, not, none, some, List, [], ◌∷◌, arith,
}
use beampipe_core_v.Common.Int.{pos}
use beampipe_core_v.Common.Rows.{select_where}
use beampipe_core_v.SourceClaims.{
  SourceRow, longer_pending, claimable_for_workflow, claimed_for_workflow, selected,
  claim_source_rows_for_discovery, claim_pending_sources_for_workflow_run,
  mark_sources_checked_if_claimed,
}
use beampipe_core_v.SourceClaims.Exclusive.{
  Call, claims, checks, marks_pending, IsUnique, IsClaimed, run, run-IsClaimed,
}
use beampipe_core_v.SourceClaims.Laws.{IsSelection, IsGranted, workflow_claim_takes}

abbrev source : ℕ → String → SourceRow
source id name = record {
  uuid = id;
  project_module = "wallaby";
  source_identifier = name;
  enabled = true;
  last_checked_at = none;
  last_attempted_at = none;
  discovery_claim_token = none;
  discovery_claim_expires_at = none;
  workflow_run_pending = true;
  workflow_run_pending_at = some (100 - id);
  workflow_claim_token = none;
  workflow_claimed_at = none;
  workflow_claim_expires_at = none;
  created_at = id;
}

-- Claimed until the time 9000.
abbrev held : SourceRow
held = record (source 1 "a") {
  discovery_claim_token = some "t1";
  discovery_claim_expires_at = some 9000;
}

abbrev rows : List SourceRow
rows = source 3 "c" ∷ held ∷ source 2 "b" ∷ []

abbrev none_locked : ℕ → Bool
none_locked _ = false

oldest_first :
    (claim_source_rows_for_discovery 5000 none_locked none (pos 24) (pos 1) (pos 10) "t2" rows).0
    ≡ (some "t2", ("wallaby", "b") ∷ [])
unfolding claim_source_rows_for_discovery selected
oldest_first = refl

recovers :
    (claim_source_rows_for_discovery 9000 none_locked none (pos 24) (pos 1) (pos 10) "t2" rows).0
    ≡ (some "t2", ("wallaby", "a") ∷ [])
unfolding claim_source_rows_for_discovery selected
recovers = refl

longest_pending_first :
    (claim_pending_sources_for_workflow_run 5000 none_locked "wallaby" (pos 2) (pos 10) "t2" rows).0
    ≡ (some "t2", "c" ∷ "b" ∷ [])
unfolding claim_pending_sources_for_workflow_run selected
longest_pending_first = refl

marks_own_rows : (mark_sources_checked_if_claimed 5000 "wallaby" ("a" ∷ "b" ∷ []) "t1" rows).0 ≡ 1
unfolding mark_sources_checked_if_claimed
marks_own_rows = refl

workflow_claim_takes_example :
    (picked : List SourceRow) × IsSelection longer_pending 2
      (select_where
        (λ r. not (none_locked r.uuid))
        (select_where (claimable_for_workflow 5000 "wallaby") rows))
      picked
    × IsGranted "t2"
        (λ r. r.source_identifier)
        (claimed_for_workflow 5000 (pos 10) "t2")
        rows
        picked
        (claim_pending_sources_for_workflow_run 5000 none_locked "wallaby"
          (pos 2)
          (pos 10)
          "t2"
          rows)
workflow_claim_takes_example =
    workflow_claim_takes 5000 none_locked "wallaby" (pos 2) (pos 10) "t2" rows

rows-IsUnique : IsUnique rows
rows-IsUnique id = ground arith

abbrev calls : List (ℕ × Call)
calls =
    (5000, claims none_locked none (pos 24) (pos 5) (pos 10) "t2")
    ∷ (6000, checks "wallaby" ("a" ∷ []) "t1")
    ∷ (7000, marks_pending "wallaby" ("a" ∷ []))
    ∷ []

run-IsClaimed_example : IsClaimed 1 "t1" 9000 (run rows calls)
run-IsClaimed_example = run-IsClaimed 1 "t1" 9000 rows calls rows-IsUnique refl (record {
  row = held;
  listed = Memᴰ.tail (Memᴰ.head refl);
  same = refl;
  holder = refl;
  until = refl;
})
