-- ===== src/RunRecord/Summary.antt =====
-- The summary of a run record that an operator sees: `summarize_run_record_phases` of
-- crates/beampipe-domain/src/run_record.rs.
use beampipe_core_v.Common.{String, Option, none, some, List, [], ◌∷◌}
use beampipe_core_v.Json.{Json, as_object, map_value}
use beampipe_core_v.RunRecord.Edit.{insert_some}

abbrev phase_keys : List String
phase_keys = "slurm" ∷ "dim" ∷ "scheduler" ∷ "slurm_poll" ∷ "dim_poll" ∷ []

abbrev or_else {ℓ} : {A : Type ℓ} → Option A → Option A → Option A
or_else none other = other
or_else (some a) other = some a

module _ (J : Json) where
  open J use {Value, Map, get, insert, empty}

  -- The fields of a phase in the order in which they are inserted, if it has any.
  phase : Map → Option Map
  phase obj =
      let last_at = or_else (get "started_at" obj) (get "submitted_at" obj) in
      let state = or_else (get "state" obj) (get "terminal" obj) in
      let round = get "round" obj in
      let fields =
        insert_some J "round" round
          (insert_some J "state" state (insert_some J "last_at" last_at empty)) in
      elim (or_else last_at (or_else state round)) [ none ↦ none | some v ↦ some fields ]

  abbrev insert_phase : String → Option Map → Map → Map
  insert_phase key none out = out
  insert_phase key (some fields) out = insert key (map_value J fields) out

  -- One round of the loop: a key whose value is an object.
  summarize_key : Map → String → Map → Map
  unfolding as_object phase
  summarize_key rr key out = elim (get key rr) [
    | none ↦ out
    | some v ↦ elim (as_object J v) [ none ↦ out | some obj ↦ insert_phase key (phase obj) out ]
  ]

  summarize_keys : Map → List String → Map → Map
  unfolding summarize_key
  summarize_keys rr [] out = out
  summarize_keys rr (key ∷ keys) out = summarize_keys rr keys (summarize_key rr key out)

  summarize_run_record_phases : Option Value → Value
  unfolding as_object summarize_keys
  summarize_run_record_phases none = map_value J empty
  summarize_run_record_phases (some v) = elim (as_object J v) [
    | none ↦ map_value J empty
    | some rr ↦ map_value J (
        insert_some J "requested_sources" (get "requested_sources" rr)
          (summarize_keys rr phase_keys empty))
  ]
