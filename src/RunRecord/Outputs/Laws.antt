-- ===== src/RunRecord/Outputs/Laws.antt =====
-- The evidence of verified outputs under later merges
-- (crates/beampipe-domain/src/run_record.rs).
use beampipe_core_v.Common.{String, ◌≡◌, true, Option, some, arith, Bool-cases, inl, inr}
use beampipe_core_v.Json.{Json, map_value, text}
use beampipe_core_v.Json.Laws.{as_object-map_value, as_str-text}
use package.text.Mathlib.TextPositions.{eq_refl}
use beampipe_core_v.RunRecord.Edit.{get_text}
use beampipe_core_v.RunRecord.Edit.Laws.{record_of, record_of-edit_record, get_text-insert}
use beampipe_core_v.RunRecord.Outputs.{
  frozen, verification, verify_record, merge_output_verification_into_manifest,
}

module _ (J : Json) where
  open J use {Value, Map, get, insert, get-insert}

  verification-artifact :
      (now artifact inventory report : String) (destination : Option String)
      → get_text J "artifact_id" (verification J now artifact inventory report destination)
        ≡ some artifact
  unfolding verification
  verification-artifact now artifact inventory report destination =
      simp (get_text-insert, as_str-text)

  frozen-insert :
      (now artifact inventory report : String) (destination : Option String) (rr : Map)
      → frozen J artifact (
          insert "output_verification"
            (map_value J (verification J now artifact inventory report destination))
            rr)
        ≡ true
  unfolding frozen
  frozen-insert now artifact inventory report destination rr =
      let evidence : Map = verification J now artifact inventory report destination in
      ground (
        arith,
        get-insert "output_verification" "output_verification" (map_value J evidence) rr,
        as_object-map_value J evidence,
        verification-artifact now artifact inventory report destination,
        eq_refl artifact,
      )

  frozen-verify_record :
      (now artifact inventory report : String) (destination : Option String) (rr : Map)
      → frozen J artifact (verify_record J now artifact inventory report destination rr) ≡ true
  unfolding verify_record
  frozen-verify_record now artifact inventory report destination rr =
      elim (Bool-cases (frozen J artifact rr)) [
        | inl e ↦ rw e e
        | inr e ↦ rw e (frozen-insert now artifact inventory report destination rr)
      ]

  verify_record-frozen :
      (now artifact inventory report : String) (destination : Option String) (rr : Map)
      → frozen J artifact rr ≡ true
      → verify_record J now artifact inventory report destination rr ≡ rr
  unfolding verify_record
  verify_record-frozen now artifact inventory report destination rr h = rw h

  -- Evidence of an artifact is recorded once: after a first merge, a second one for the same artifact,
  -- at any time and with any digests, leaves the run record as it is.
  pub verification_once :
      (now later artifact inventory report inventory' report' : String)
      (destination destination' : Option String) (existing : Option Value)
      → let first =
          merge_output_verification_into_manifest J now existing artifact inventory report
            destination in
        let second =
          merge_output_verification_into_manifest J later
            (some first)
            artifact
            inventory'
            report'
            destination' in
        record_of J (some second) ≡ record_of J (some first)
  unfolding merge_output_verification_into_manifest
  verification_once now later artifact inventory report inventory' report' destination destination'
        existing =
      rw record_of-edit_record (
        verify_record-frozen later artifact inventory' report' destination' _ (
          rw record_of-edit_record (
            frozen-verify_record now artifact inventory report destination (record_of J existing))))
