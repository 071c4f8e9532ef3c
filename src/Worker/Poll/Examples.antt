-- ===== src/Worker/Poll/Examples.antt =====
-- Polls of one execution that has been polled 478 times, with a budget of 480 rounds.
use beampipe_core_v.Common.{◌+◌, ◌≡◌, ◌||◌, refl, String, none, some, List, [], ◌∷◌, arith}
use beampipe_core_v.Common.Int.{ℤ, pos}
use beampipe_core_v.Json.Sample.{sample, Tree}
use beampipe_core_v.RunRecord.Rounds.{slurm_poll_round_from_manifest, merge_slurm_poll_tick_round}
use beampipe_core_v.Worker.Poll.{
  slurm_active_poll_budget_reached, slurm_poll_operator_escalated, advance_slurm_poll_progress,
}
use beampipe_core_v.Worker.Poll.Failures.{failures, failures_escalate}
use beampipe_core_v.Worker.Poll.History.{
  polls, recorded, first_escalation, one_if, polls_escalate_once,
}

abbrev polled : Tree
polled = merge_slurm_poll_tick_round sample "t0" none (pos 478)

abbrev three : List (String × ℤ × ℤ × String)
three =
    ("t1", pos 478, pos 480, "scheduler_job_still_active")
    ∷ ("t2", pos 479, pos 480, "scheduler_state_unknown")
    ∷ ("t3", pos 480, pos 480, "scheduler_job_still_active")
    ∷ []

round_of_polled : slurm_poll_round_from_manifest sample (some polled) ≡ pos 478
unfolding slurm_poll_round_from_manifest merge_slurm_poll_tick_round beampipe_core_v.Json.map_value
round_of_polled = refl

told_of_three : (polls sample (some polled) three).1 ≡ 1
unfolding polls advance_slurm_poll_progress merge_slurm_poll_tick_round
    beampipe_core_v.Json.map_value
told_of_three = refl

polls_escalate_once_example :
    let (last, told) = polls sample (some polled) three in
    (recorded sample last ≡ first_escalation sample (recorded sample (some polled)) three)
    × (told + one_if (slurm_poll_operator_escalated sample (some polled))
        ≡ one_if (slurm_poll_operator_escalated sample last))
polls_escalate_once_example = polls_escalate_once sample (some polled) three

failures_escalate_example :
    let last = failures sample (pos 480) polled ("t1" ∷ "t2" ∷ []) in
    (slurm_poll_round_from_manifest sample (some last) ≡ pos (478 + 2))
    × (slurm_poll_operator_escalated sample (some last) ≡ (
        slurm_poll_operator_escalated sample (some polled)
        || slurm_active_poll_budget_reached (pos (478 + 2)) (pos 480)))
failures_escalate_example =
    failures_escalate sample (pos 480) polled 478 "t1" ("t2" ∷ []) round_of_polled (omega arith)
