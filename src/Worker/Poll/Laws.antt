-- ===== src/Worker/Poll/Laws.antt =====
-- One round of a poll in the manifest (crates/beampipe-jobs/src/lib.rs).
use beampipe_core_v.Common.{
  ◌≡◌, refl, String, Bool, true, false, not, ◌&&◌, ◌||◌, Option, none, some, is_some, if◌then◌else◌,
  arith, ◌∙◌,
}
use beampipe_core_v.Common.Int.{ℤ}
use beampipe_core_v.Json.{Json, text, map_value, number}
use beampipe_core_v.Json.Laws.{as_object-map_value}
use beampipe_core_v.RunRecord.Edit.{beampipe_run_record_key}
use beampipe_core_v.RunRecord.Rounds.{
  tick_round, merge_tick_round, merge_slurm_poll_tick_round, slurm_poll_round_from_manifest,
}
use beampipe_core_v.RunRecord.Rounds.Laws.{
  value_get-object, section_of, Stored, merge_tick_round-Stored, section_of-Stored, poll_round_lem,
  get_round, integer-of_i64,
}
use beampipe_core_v.Worker.Poll.{
  slurm_active_poll_budget_reached, saturating_succ, inside, escalated, escalation,
  slurm_poll_operator_escalated, advance_slurm_poll_progress, failed_poll,
}

module _ (J : Json) where
  open J use {Value, Map, get, insert, get-insert, of, of_i64}

  inside-some :
      (k : String) (f : Map → Option Map) (m inner inner' : Map)
      → get k m ≡ some (map_value J inner)
      → f inner ≡ some inner'
      → inside J k f m ≡ some (insert k (map_value J inner') m)
  unfolding inside
  inside-some k f m inner inner' g h = rw (inside, g, as_object-map_value, h) refl

  -- The escalation is stored in the section of the polls.
  escalated-Stored :
      (entry v : Value) (section : Map)
      → Stored J "slurm_poll" v section
      → Stored J "slurm_poll" (escalated J entry v) (insert "operator_escalation" entry section)
  unfolding escalated
  escalated-Stored entry v section (m, rr, e, g, h) =
      let section' = insert "operator_escalation" entry section in
      let add = λ (poll : Map). some (insert "operator_escalation" entry poll) in
      let rr' = insert "slurm_poll" (map_value J section') rr in
      let m' = insert beampipe_run_record_key (map_value J rr') m in
      (
        m',
        rr',
        rw
            (
              e,
              escalated,
              as_object-map_value,
              inside-some beampipe_run_record_key (inside J "slurm_poll" add) m rr rr' g
                  (inside-some "slurm_poll" add rr section section' h refl),
            )
            refl,
        get-insert beampipe_run_record_key beampipe_run_record_key (map_value J rr') m,
        get-insert "slurm_poll" "slurm_poll" (map_value J section') rr,
      )

  section_of-escalated :
      (b : Bool) (entry v : Value) (section : Map)
      → Stored J "slurm_poll" v section
      → section_of J "slurm_poll" (some (if b then escalated J entry v else v))
        ≡ (if b then insert "operator_escalation" entry section else section)
  section_of-escalated true entry v section s =
      section_of-Stored J "slurm_poll" (escalated J entry v)
        (insert "operator_escalation" entry section) (escalated-Stored entry v section s)
  section_of-escalated false entry v section s = section_of-Stored J "slurm_poll" v section s

  pub operator_escalated_lem :
      (v : Option Value)
      → slurm_poll_operator_escalated J v
        ≡ is_some (get "operator_escalation" (section_of J "slurm_poll" v))
  unfolding slurm_poll_operator_escalated
  operator_escalated_lem v = simp value_get-object

  -- A round leaves the escalation that is recorded.
  get_escalation :
      (now : String) (round : ℤ) (tick : Map)
      → get "operator_escalation" (tick_round J now round tick) ≡ get "operator_escalation" tick
  unfolding tick_round
  get_escalation now round tick = ground (
    arith,
    get-insert "round" "operator_escalation" (of (number (of_i64 round))) tick,
    get-insert "started_at" "operator_escalation" (text J now)
        (insert "round" (of (number (of_i64 round))) tick),
  )

  -- The section after a round that may be escalated, its two keys.
  get-escalated :
      (b : Bool) (now : String) (round : ℤ) (entry : Value) (tick : Map)
      → let section = tick_round J now round tick in
        let section' = if b then insert "operator_escalation" entry section else section in
        (get "round" section' ≡ some (of (number (of_i64 round))))
        × (get "operator_escalation" section'
            ≡ (if b then some entry else get "operator_escalation" tick))
  get-escalated true now round entry tick = (
    get-insert "operator_escalation" "round" entry (tick_round J now round tick)
        ∙ get_round J now round tick,
    get-insert "operator_escalation" "operator_escalation" entry (tick_round J now round tick),
  )
  get-escalated false now round entry tick =
      (get_round J now round tick, get_escalation now round tick)

  -- A round that is advanced is read back from the manifest, saturated at the largest `i64`. It is
  -- escalated exactly if the budget is reached and no escalation is recorded; then the escalation is
  -- recorded with its reason, round and budget, and else the manifest keeps what it has of one.
  pub advance_slurm_poll_progress_lem :
      (now : String) (existing : Option Value) (round max_rounds : ℤ) (reason : String)
      → let progress = advance_slurm_poll_progress J now existing round max_rounds reason in
        (progress.next_round ≡ saturating_succ round)
        × (slurm_poll_round_from_manifest J (some progress.manifest) ≡ saturating_succ round)
        × (progress.operator_escalated ≡ (
            slurm_active_poll_budget_reached (saturating_succ round) max_rounds
            && not (slurm_poll_operator_escalated J existing)))
        × (get "operator_escalation" (section_of J "slurm_poll" (some progress.manifest)) ≡ (
            if progress.operator_escalated
            then some (escalation J now reason (saturating_succ round) max_rounds)
            else get "operator_escalation" (section_of J "slurm_poll" existing)))
  unfolding advance_slurm_poll_progress merge_slurm_poll_tick_round slurm_poll_round_from_manifest
  advance_slurm_poll_progress_lem now existing round max_rounds reason =
      let next = saturating_succ round in
      let b =
        slurm_active_poll_budget_reached next max_rounds
        && not (slurm_poll_operator_escalated J existing) in
      let entry = escalation J now reason next max_rounds in
      let tick = section_of J "slurm_poll" existing in
      let merged = merge_tick_round J "slurm_poll" now existing next in
      let e =
        section_of-escalated b entry merged (tick_round J now next tick)
          (merge_tick_round-Stored J "slurm_poll" now existing next refl) in
      let (g, h) = get-escalated b now next entry tick in
      (refl, rw (poll_round_lem J "slurm_poll", e, g) (integer-of_i64 J next), refl, rw e h)

  escalates :
      (before b reached : Bool) (o o' : Option Value) (entry : Value)
      → before ≡ is_some o
      → b ≡ (reached && not before)
      → o' ≡ (if b then some entry else o)
      → is_some o' ≡ (before || reached)
  escalates before b reached none o' entry h k e = ground arith
  escalates before b reached (some x) o' entry h k e = ground arith

  -- A failed poll advances the round that it reads, and escalates it.
  pub failed_poll_lem :
      (now : String) (max_rounds : ℤ) (existing : Option Value)
      → let progress = failed_poll J now max_rounds existing in
        let next = saturating_succ (slurm_poll_round_from_manifest J existing) in
        (slurm_poll_round_from_manifest J (some progress.manifest) ≡ next)
        × (slurm_poll_operator_escalated J (some progress.manifest) ≡ (
            slurm_poll_operator_escalated J existing
            || slurm_active_poll_budget_reached next max_rounds))
  unfolding failed_poll
  failed_poll_lem now max_rounds existing =
      let round = slurm_poll_round_from_manifest J existing in
      let progress =
        advance_slurm_poll_progress J now existing round max_rounds "scheduler_poll_error" in
      let (_, r, b, o) =
        advance_slurm_poll_progress_lem now existing round max_rounds "scheduler_poll_error" in
      (
        r,
        operator_escalated_lem (some progress.manifest)
            ∙ escalates (slurm_poll_operator_escalated J existing) progress.operator_escalated
                (slurm_active_poll_budget_reached (saturating_succ round) max_rounds) _ _ _
                (operator_escalated_lem existing) b o,
      )
