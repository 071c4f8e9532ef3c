-- ===== src/RunRecord/Slurm/History/Examples.antt =====
-- A run record whose job is over, polled again
-- (`merge_slurm_poll_into_manifest` of crates/beampipe-domain/src/run_record.rs).
use beampipe_core_v.Common.{refl, true, Option, none, some, [], ◌∷◌}
use beampipe_core_v.Common.Int.{pos}
use beampipe_core_v.Json.Sample.{sample, Tree, Members, object, end, member}
use beampipe_core_v.RunRecord.Edit.{
  beampipe_run_record_key, panics, returns, not_blank, trim_raw, get_text, edit_section,
  edit_record,
}
use beampipe_core_v.RunRecord.Slurm.{
  with_ledger_status, poll_slurm, merge_slurm_poll_into_manifest, recorded_composite,
  record_slurm_terminal, observe_slurm, merge_slurm_paths,
}
use beampipe_core_v.RunRecord.Slurm.Laws.{IsFinal}
use beampipe_core_v.RunRecord.Slurm.History.{
  Poll, poll_all, slurm_section, AgreeButLedger, terminal_survives,
}

-- The terminal observation of a job that completed.
abbrev completed : Members
completed =
    member "state" (Tree.text "COMPLETED")
      (member "composite_scheduler_job_id" (Tree.text "a:1") end)

-- A manifest that has it, and a key of its own.
abbrev manifest : Tree
manifest = object (
    member "graph" (Tree.text "g") (
      member beampipe_run_record_key
        (object (
          member "slurm"
            (object (
              member "composite_scheduler_job_id" (Tree.text "a:1")
                (member "terminal" (object completed) end)))
            end))
        end))

-- A later poll, with another identifier and another outcome.
abbrev late : Poll Tree
late = record {
  now = "2026-01-01T00:00:00Z";
  composite = "b:2";
  job = "2";
  state = "FAILED";
  source = "sacct";
  raw_line = some " 2|FAILED ";
  record_terminal = true;
  status = some "failed";
  opts = record {
    exit_code = some (pos 1);
    remote_session_dir = some "/x";
    reason = none;
    diagnostics = none;
  };
}

abbrev after : Option Tree
unfolding poll_all merge_slurm_poll_into_manifest poll_slurm recorded_composite
    record_slurm_terminal observe_slurm merge_slurm_paths with_ledger_status
after = elim (poll_all sample (some manifest) (late ∷ [])) [ returns v ↦ v | panics ↦ none ]

terminal_survives_example :
    (t' : Members) × IsFinal sample "a:1" t' (slurm_section sample after)
    × AgreeButLedger sample completed t'
unfolding get_text not_blank poll_all beampipe_core_v.RunRecord.Edit.object
    merge_slurm_poll_into_manifest
terminal_survives_example =
    terminal_survives sample "a:1" completed (some manifest) (late ∷ []) after
      (record { named = refl; terminal = refl; same_job = refl }) refl
