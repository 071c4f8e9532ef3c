-- ===== src/RunRecord/Rounds.antt =====
-- The counters of the batched polls of Slurm and of DALiuGE: `*_poll_round_from_manifest` and
-- `merge_*_poll_tick_round` of crates/beampipe-domain/src/run_record.rs.
pub mod Laws
use beampipe_core_v.Common.{String, Option, none, some, if◌then◌else◌}
use beampipe_core_v.Common.Int.{ℤ, pos}
use beampipe_core_v.Json.{Json, number, as_object}
use beampipe_core_v.RunRecord.Edit.{
  beampipe_run_record_key, insert_text, contains_key, edit_section, edit_record,
}

module _ (J : Json) where
  open J use {Value, Map, view, get, insert, of, of_i64}

  -- `option.and_then(|v| v.get(key))`.
  unfoldable pub value_get : String → Option Value → Option Value
  unfolding as_object
  value_get k none = none
  value_get k (some v) = elim (as_object J v) [ none ↦ none | some m ↦ get k m ]

  -- `option.and_then(Value::as_i64).unwrap_or(0)`.
  unfoldable pub integer_or_zero : Option Value → ℤ
  integer_or_zero none = pos 0
  integer_or_zero (some v) = elim (view v) [
    | number n ↦ elim (J.as_i64 n) [ none ↦ pos 0 | some i ↦ i ]
    | _ ↦ pos 0
  ]

  unfoldable pub poll_round : String → Option Value → ℤ
  unfolding value_get integer_or_zero
  poll_round section existing =
      integer_or_zero
        (value_get "round" (value_get section (value_get beampipe_run_record_key existing)))

  unfoldable pub slurm_poll_round_from_manifest : Option Value → ℤ
  unfolding poll_round
  slurm_poll_round_from_manifest = poll_round "slurm_poll"

  pub dim_poll_round_from_manifest : Option Value → ℤ
  unfolding poll_round
  dim_poll_round_from_manifest = poll_round "dim_poll"

  unfoldable pub tick_round : (now : String) → ℤ → Map → Map
  tick_round now round tick =
      let t = insert "round" (of (number (of_i64 round))) tick in
      if contains_key J "started_at" t then t else insert_text J "started_at" now t

  unfoldable pub merge_tick_round : String → (now : String) → Option Value → ℤ → Value
  unfolding edit_record tick_round
  merge_tick_round section now existing round =
      edit_record J (edit_section J section (tick_round now round)) existing

  unfoldable pub merge_slurm_poll_tick_round : (now : String) → Option Value → ℤ → Value
  unfolding merge_tick_round
  merge_slurm_poll_tick_round = merge_tick_round "slurm_poll"

  pub merge_dim_poll_tick_round : (now : String) → Option Value → ℤ → Value
  unfolding merge_tick_round
  merge_dim_poll_tick_round = merge_tick_round "dim_poll"
