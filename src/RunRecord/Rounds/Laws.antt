-- ===== src/RunRecord/Rounds/Laws.antt =====
-- Storing the poll counters and reading them (crates/beampipe-domain/src/run_record.rs).
use beampipe_core_v.Common.{
  String, ◌≡◌, refl, Option, none, some, ◌==◌, arith, if◌then◌else◌, true, Bool-cases, inl, inr,
}
use beampipe_core_v.Common.Int.{ℤ}
use beampipe_core_v.Json.{Json, number, map_value, text}
use beampipe_core_v.Json.Laws.{as_object-map_value}
use beampipe_core_v.RunRecord.Edit.{object, edit_section, edit_record, beampipe_run_record_key}
use beampipe_core_v.RunRecord.Edit.Laws.{
  object-map_value, get-edit_section, record_of, record_of-edit_record,
}
use beampipe_core_v.RunRecord.Rounds.{
  value_get, integer_or_zero, poll_round, tick_round, merge_tick_round,
  slurm_poll_round_from_manifest, dim_poll_round_from_manifest, merge_slurm_poll_tick_round,
  merge_dim_poll_tick_round,
}

module _ (J : Json) where
  open J use {Value, Map, get, insert, view-of, get-insert, of, of_i64, as_i64-of_i64}

  value_get-map_value : (k : String) (m : Map) → value_get J k (some (map_value J m)) ≡ get k m
  unfolding value_get
  value_get-map_value k m = ground (arith, as_object-map_value J m)

  pub value_get-object : (k : String) (v : Option Value) → value_get J k v ≡ get k (object J v)
  unfolding value_get object
  value_get-object k none = ground (arith, J.get-empty k)
  value_get-object k (some v) = ground (arith, J.get-empty k)

  pub integer-of_i64 : (n : ℤ) → integer_or_zero J (some (of (number (of_i64 n)))) ≡ n
  unfolding integer_or_zero
  integer-of_i64 n = ground (arith, view-of (number (of_i64 n)), as_i64-of_i64 n)

  pub get_round :
      (now : String) (round : ℤ) (tick : Map)
      → get "round" (tick_round J now round tick) ≡ some (of (number (of_i64 round)))
  unfolding tick_round
  get_round now round tick = ground (
    arith,
    get-insert "round" "round" (of (number (of_i64 round))) tick,
    get-insert "started_at" "round" (text J now) (insert "round" (of (number (of_i64 round))) tick),
  )

  pub poll_round_lem :
      (j : String) (v : Option Value)
      → poll_round J j v ≡ integer_or_zero J (get "round" (object J (get j (record_of J v))))
  unfolding poll_round
  poll_round_lem j v = simp value_get-object

  record_of-merge :
      (k now : String) (existing : Option Value) (round : ℤ)
      → record_of J (some (merge_tick_round J k now existing round))
        ≡ edit_section J k (tick_round J now round) (record_of J existing)
  unfolding merge_tick_round
  record_of-merge k now existing round =
      record_of-edit_record J (edit_section J k (tick_round J now round)) existing

  poll_round-merge :
      (k j now : String) (existing : Option Value) (round : ℤ)
      → poll_round J j (some (merge_tick_round J k now existing round))
        ≡ (if k == j then round else poll_round J j existing)
  poll_round-merge k j now existing round =
      simp (poll_round_lem, record_of-merge, get-edit_section)
        (elim (Bool-cases (k == j)) [
          | inl e ↦ simp (e, object-map_value, get_round, integer-of_i64)
          | inr e ↦ simp e
        ])

  -- The section of a poll in the run record of a manifest.
  abbrev pub section_of : String → Option Value → Map
  section_of k v = object J (get k (record_of J v))

  -- What storing a round returns is an object, whose run record has an object for the poll's section;
  -- the section has the new round.
  abbrev pub Stored : String → Value → Map → Type 0
  Stored k v section =
      (m : Map) × (rr : Map) × (v ≡ map_value J m)
      × (get beampipe_run_record_key m ≡ some (map_value J rr))
      × (get k rr ≡ some (map_value J section))

  pub merge_tick_round-Stored :
      (k now : String) (existing : Option Value) (round : ℤ)
      → (k == k) ≡ true
      → Stored k
          (merge_tick_round J k now existing round)
          (tick_round J now round (section_of k existing))
  unfolding merge_tick_round edit_record
  merge_tick_round-Stored k now existing round same =
      let change = edit_section J k (tick_round J now round) in
      (
        edit_section J beampipe_run_record_key change (object J existing),
        change (record_of J existing),
        refl,
        simp get-edit_section,
        simp (get-edit_section, same),
      )

  -- Of a section, `Stored` tells what `section_of` reads.
  pub section_of-Stored :
      (k : String) (v : Value) (section : Map)
      → Stored k v section
      → section_of k (some v) ≡ section
  section_of-Stored k v section (m, rr, e, g, h) =
      rw (e, object-map_value, g, object-map_value, h, object-map_value) refl

  -- The round of each kind of poll is read back as it was stored, and storing the round of one kind
  -- leaves the round of the other as it was.
  pub poll_rounds :
      (now : String) (existing : Option Value) (round : ℤ)
      → let slurm = some (merge_slurm_poll_tick_round J now existing round) in
        let dim = some (merge_dim_poll_tick_round J now existing round) in
        (slurm_poll_round_from_manifest J slurm ≡ round)
        × (dim_poll_round_from_manifest J dim ≡ round)
        × (dim_poll_round_from_manifest J slurm ≡ dim_poll_round_from_manifest J existing)
        × (slurm_poll_round_from_manifest J dim ≡ slurm_poll_round_from_manifest J existing)
  unfolding slurm_poll_round_from_manifest dim_poll_round_from_manifest merge_slurm_poll_tick_round
      merge_dim_poll_tick_round
  poll_rounds now existing round = (
    poll_round-merge "slurm_poll" "slurm_poll" now existing round,
    poll_round-merge "dim_poll" "dim_poll" now existing round,
    poll_round-merge "slurm_poll" "dim_poll" now existing round,
    poll_round-merge "dim_poll" "slurm_poll" now existing round,
  )
