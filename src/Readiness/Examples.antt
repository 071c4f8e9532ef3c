-- ===== src/Readiness/Examples.antt =====
-- Sources that are ready and that are not (crates/beampipe-domain/src/readiness.rs). What `Debug`
-- prints is left empty here.
use beampipe_core_v.Common.{
  String, ◌≡◌, ◌↔◌, true, false, Option, none, some, is_some, List, [], ◌∷◌,
}
use beampipe_core_v.Common.Int.{pos}
use beampipe_core_v.Json.Sample.{sample, Tree, object, bool, member, end}
use beampipe_core_v.Readiness.{
  RegisteredSourceReadiness, ArchiveMetadataReadiness, filter_archive_rows_by_groups, missing,
  non_empty, same_signature, source_execution_status,
}
use beampipe_core_v.Readiness.Laws.{IsReady, source_execution_status_lem}

abbrev no_debug : List String → String
no_debug _ = ""

abbrev source : RegisteredSourceReadiness
source = record {
  enabled = true;
  last_checked_at_present = true;
  discovery_signature = some "sig";
  discovery_claim_token = none;
}

-- A row whose one flag has passed.
abbrev rows : List (ArchiveMetadataReadiness Tree)
rows =
    record {
      group_key = "g";
      metadata_json =
          some (object (member "discovery_flags" (object (member "complete" (bool true) end)) end));
    }
    ∷ []

source_execution_status_lem_example :
    let status =
      source_execution_status sample no_debug
        (λ t. t)
        "s"
        true
        (some (pos 5))
        (some "sig")
        none
        none
        false
        none
        rows
        none in
    ((status.ready_for_execution ≡ true) ↔ (
      IsReady sample no_debug source (filter_archive_rows_by_groups rows none)
      × (same_signature (non_empty (some "sig")) (non_empty none) ≡ false)))
    × ((status.discovery_complete ≡ true) ↔ (
        (is_some (some (pos 5)) ≡ true)
        × (missing (some "sig") ≡ false)
        × (◌≡◌ {A = Option String} none none)))
source_execution_status_lem_example =
    source_execution_status_lem sample no_debug (λ t. t) "s" true (some (pos 5)) (some "sig") none
      none false none rows none
