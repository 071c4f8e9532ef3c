-- ===== src/RunRecord/Dim/Examples.antt =====
-- A session that has ended, polled again
-- (`merge_dim_poll_into_manifest` of crates/beampipe-domain/src/run_record.rs).
use beampipe_core_v.Common.{refl, true, some}
use beampipe_core_v.Common.Int.{pos}
use beampipe_core_v.Json.Sample.{sample, Tree, Members, object, end, member}
use beampipe_core_v.RunRecord.Dim.{dim_section, merge_dim_poll_into_manifest}
use beampipe_core_v.RunRecord.Dim.Laws.{IsEnded, dim_terminal_survives}
use beampipe_core_v.RunRecord.Edit.{beampipe_run_record_key, panics, returns, get_text}
use beampipe_core_v.RunRecord.Slurm.History.{AgreeButLedger}

abbrev finished : Members
finished = member "session_state" (Tree.text "Finished") (member "session_id" (Tree.text "s") end)

abbrev manifest : Tree
manifest = object (
    member beampipe_run_record_key
      (object (member "dim" (object (member "terminal" (object finished) end)) end)) end)

-- The manifest after a poll that finds the session in error.
abbrev after : Tree
unfolding merge_dim_poll_into_manifest
after =
    elim (merge_dim_poll_into_manifest sample "t" (some manifest) "s" "Error" true (some "failed")
      (some " lost ") (some (pos 2))) [ returns v ↦ v | panics ↦ manifest ]

dim_terminal_survives_example :
    (t' : Members) × IsEnded sample "s" t' (dim_section sample (some after))
    × AgreeButLedger sample finished t'
unfolding merge_dim_poll_into_manifest dim_section get_text
dim_terminal_survives_example =
    dim_terminal_survives sample "t" "s" "Error" (some "failed") (some " lost ") (some (pos 2)) true
      finished (some manifest) after (record { terminal = refl; same_session = refl }) refl
