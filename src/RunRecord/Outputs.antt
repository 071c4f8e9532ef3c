-- ===== src/RunRecord/Outputs.antt =====
-- The evidence that the outputs were verified: `merge_output_verification_into_manifest` and
-- `extract_beampipe_run_record` of crates/beampipe-domain/src/run_record.rs.
pub mod Laws
use beampipe_core_v.Common.{String, Bool, true, false, Option, none, some, ◌==◌, if◌then◌else◌}
use beampipe_core_v.Json.{Json, null, text, as_object, map_value}
use beampipe_core_v.RunRecord.Edit.{beampipe_run_record_key, insert_text, get_text, edit_record}

module _ (J : Json) where
  open J use {Value, Map, get, insert, empty, of}

  -- Whether the record has the evidence of this artifact already.
  frozen : String → Map → Bool
  unfolding as_object get_text
  frozen artifact_id rr = elim (get "output_verification" rr) [
    | none ↦ false
    | some v ↦ elim (as_object J v) [
      | none ↦ false
      | some verification ↦ elim (get_text J "artifact_id" verification) [
        | none ↦ false
        | some s ↦ s == artifact_id
      ]
    ]
  ]

  abbrev text_or_null : Option String → Value
  text_or_null none = of null
  text_or_null (some s) = text J s

  verification : (now artifact_id inventory_sha256 report_sha256 : String) → Option String → Map
  verification now artifact_id inventory_sha256 report_sha256 destination_uri =
      insert "destination_uri" (text_or_null destination_uri) (
        insert_text J "report_sha256" report_sha256 (
          insert_text J "inventory_sha256" inventory_sha256 (
            insert_text J "artifact_id" artifact_id
              (insert_text J "verified_at" now (insert_text J "state" "verified" empty)))))

  pub verify_record :
      (now artifact_id inventory_sha256 report_sha256 : String) → Option String → Map → Map
  unfolding frozen verification
  verify_record now artifact_id inventory report destination rr =
      if frozen artifact_id rr
      then rr
      else insert "output_verification"
          (map_value J (verification now artifact_id inventory report destination)) rr

  pub merge_output_verification_into_manifest :
      (now : String)
      → Option Value
      → (artifact_id inventory_sha256 report_sha256 : String) → (destination_uri : Option String)
      → Value
  unfolding edit_record verify_record
  merge_output_verification_into_manifest now existing artifact_id inventory report destination =
      edit_record J (verify_record now artifact_id inventory report destination) existing

  -- `value.get(key)`, and `.filter(|v| v.is_object())`.
  value_get : String → Value → Option Value
  unfolding as_object
  value_get k v = elim (as_object J v) [ none ↦ none | some m ↦ get k m ]

  if_object : Value → Option Value
  unfolding as_object
  if_object v = elim (as_object J v) [ none ↦ none | some m ↦ some v ]

  extract_beampipe_run_record : Value → Option Value
  unfolding value_get if_object
  extract_beampipe_run_record manifest = elim (value_get beampipe_run_record_key manifest) [
    | none ↦ none
    | some v ↦ if_object v
  ]
