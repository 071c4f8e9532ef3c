-- ===== src/Worker/Poll.antt =====
-- The rounds of Slurm polls and their budget: `advance_slurm_poll_progress` of
-- crates/beampipe-jobs/src/lib.rs with its helpers, and what `record_slurm_poll_failure` calls of it.
pub mod Laws
pub mod History
pub mod Failures
mod Examples
use beampipe_core_v.Common.{
  ℕ, zero, suc, String, Bool, true, false, not, ◌&&◌, Option, none, some, is_some, ltb,
  if◌then◌else◌,
}
use beampipe_core_v.Common.Int.{ℤ, pos, negsuc, ltb_ℤ}
use beampipe_core_v.Json.{Json, number, as_object, text, map_value, flag}
use beampipe_core_v.RunRecord.Edit.{beampipe_run_record_key}
use beampipe_core_v.RunRecord.Rounds.{
  value_get, merge_slurm_poll_tick_round, slurm_poll_round_from_manifest,
}

-- `max_rounds > 0 && next_round >= max_rounds`.
abbrev pub slurm_active_poll_budget_reached : ℤ → ℤ → Bool
slurm_active_poll_budget_reached next_round max_rounds =
    ltb_ℤ (pos 0) max_rounds && not (ltb_ℤ next_round max_rounds)

-- `i64::MAX`, and `n.saturating_add(1)` on an `i64`.
abbrev pub i64_max : ℕ
i64_max = 9223372036854775807

abbrev pub saturating_succ : ℤ → ℤ
saturating_succ (pos n) = if ltb n i64_max then pos (suc n) else pos n
saturating_succ (negsuc zero) = pos 0
saturating_succ (negsuc (suc n)) = negsuc n

module _ (J : Json) where
  open J use {Value, Map, get, insert, empty, of, of_i64}

  unfoldable pub slurm_poll_operator_escalated : Option Value → Bool
  unfolding value_get
  slurm_poll_operator_escalated existing = is_some (
      value_get J "operator_escalation"
        (value_get J "slurm_poll" (value_get J beampipe_run_record_key existing)))

  -- `json!` of the escalation.
  unfoldable pub escalation : (now reason : String) → ℤ → ℤ → Value
  escalation now reason round max_rounds = map_value J (
      insert "terminalized" (flag J false) (
        insert "recorded_at" (text J now) (
          insert "max_rounds" (of (number (of_i64 max_rounds)))
            (insert "round" (of (number (of_i64 round))) (insert "reason" (text J reason) empty)))))

  -- `map.get_mut(key).and_then(Value::as_object_mut)`, and a change of the map that is found.
  unfoldable pub inside : String → (Map → Option Map) → Map → Option Map
  unfolding as_object
  inside k change m = elim (get k m) [
    | none ↦ none
    | some v ↦ elim (as_object J v) [
      | none ↦ none
      | some inner ↦ elim (change inner) [
        | none ↦ none
        | some inner' ↦ some (insert k (map_value J inner') m)
      ]
    ]
  ]

  -- The escalation is inserted if the manifest has the section for it.
  unfoldable pub escalated : Value → Value → Value
  unfolding inside
  escalated entry manifest = elim (as_object J manifest) [
    | none ↦ manifest
    | some m ↦
        elim (inside beampipe_run_record_key
          (inside "slurm_poll" (λ poll. some (insert "operator_escalation" entry poll))) m) [
            | none ↦ manifest
            | some m' ↦ map_value J m'
          ]
  ]

pub record SlurmPollProgress (Value : Type 0) : Type 0 where
  pub manifest : Value
  pub next_round : ℤ
  pub operator_escalated : Bool

module _ (J : Json) where
  open J use {Value}

  unfoldable pub advance_slurm_poll_progress :
      (now : String) → Option Value → ℤ → ℤ → String → SlurmPollProgress Value
  unfolding slurm_poll_operator_escalated escalation escalated merge_slurm_poll_tick_round
  advance_slurm_poll_progress now existing poll_round max_rounds reason =
      let already_escalated = slurm_poll_operator_escalated J existing in
      let next_round = saturating_succ poll_round in
      let operator_escalated =
        slurm_active_poll_budget_reached next_round max_rounds && not already_escalated in
      let manifest = merge_slurm_poll_tick_round J now existing next_round in
      record {
        manifest =
            if operator_escalated
            then escalated J (escalation J now reason next_round max_rounds) manifest
            else manifest;
        next_round = next_round;
        operator_escalated = operator_escalated;
      }

  -- What a failed poll stores: the round is read from the manifest, and advanced.
  unfoldable pub failed_poll : (now : String) → ℤ → Option Value → SlurmPollProgress Value
  unfolding advance_slurm_poll_progress slurm_poll_round_from_manifest
  failed_poll now max_rounds existing =
      advance_slurm_poll_progress now existing (slurm_poll_round_from_manifest J existing)
        max_rounds "scheduler_poll_error"
