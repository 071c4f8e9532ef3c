-- ===== src/RunRecord/Slurm.antt =====
-- What is learnt of a Slurm job: its submission, its polls and the poll that timed out
-- (crates/beampipe-domain/src/run_record.rs). The time of each call, `now_iso_z()`, is an argument.
pub mod Laws
pub mod History
use beampipe_core_v.Common.{
  String, Bool, true, false, not, Option, none, some, is_some, ◌==◌, if◌then◌else◌,
}
use beampipe_core_v.Common.Int.{ℤ}
use beampipe_core_v.Common.Text.{is_empty, trim}
use beampipe_core_v.Json.{Json, number, text, as_object, map_value}
use beampipe_core_v.RunRecord.Edit.{
  Outcome, returns, panics, ◌>>=◌, trim_raw, not_blank, object, insert_text, insert_some, texts,
  get_text, contains_key, edit_section, edit_record,
}

abbrev trims : Option String → Option String
trims none = none
trims (some s) = some (trim s)

abbrev non_empty : Option String → Option String
non_empty none = none
non_empty (some s) = if is_empty s then none else some s

pub record SlurmPollManifestOpts (Value : Type 0) : Type 0 where
  pub exit_code : Option ℤ
  pub remote_session_dir : Option String
  pub reason : Option String
  pub diagnostics : Option Value

module _ (J : Json) where
  open J use {Value, Map, get, insert, remove, empty, of, of_i64}

  merge_slurm_submit_into_manifest :
      (now : String)
      → Option Value
      → (session_id slurm_job_id composite_scheduler_job_id : String)
      → (login_node remote_user : Option String) → Value
  unfolding edit_record not_blank trim
  merge_slurm_submit_into_manifest now existing session_id slurm_job_id composite login_node
        remote_user =
      edit_record J
        (edit_section J "slurm" λ slurm.
          insert_some J "remote_user" (texts J (trims (not_blank remote_user))) (
            insert_some J "login_node" (texts J (trims (not_blank login_node))) (
              insert_text J "submitted_at" now (
                insert_text J "composite_scheduler_job_id" composite (
                  insert_text J "slurm_job_id" slurm_job_id
                    (insert_text J "session_id" session_id (remove "observations" slurm)))))))
        existing

  -- `trim_raw(Some(error)).unwrap_or_default()`.
  abbrev or_default : Option String → String
  or_default none = ""
  or_default (some s) = s

  merge_scheduler_timeout_into_manifest :
      (now : String) → Option Value → (error : String) → Outcome Value
  unfolding edit_record trim_raw
  merge_scheduler_timeout_into_manifest now existing error = trim_raw (some error) >>= λ raw.
      returns (
        edit_record J
          (edit_section J "scheduler" (
            insert "slurm_completion" (
              map_value J (
                insert_text J "observed_at" now (
                  insert_text J "error" (or_default raw)
                    (insert_text J "reason" "poll_timeout" empty))))))
          existing)

  abbrev integers : Option ℤ → Option Value
  integers none = none
  integers (some n) = some (of (number (of_i64 n)))

  -- `opts.diagnostics.filter(|d| d.is_object())`.
  objects : Option Value → Option Value
  unfolding as_object
  objects none = none
  objects (some d) = elim (as_object J d) [ none ↦ none | some m ↦ some d ]

  -- `merge_slurm_paths`, where there is a directory.
  merge_slurm_paths : Option String → Map → Map
  unfolding edit_section trim
  merge_slurm_paths none slurm = slurm
  merge_slurm_paths (some dir) slurm =
      edit_section J "paths" (insert_text J "session_dir" (trim dir)) slurm

  -- The identifier that the record has already, or the one of the call.
  pub recorded_composite : String → Map → String
  unfolding get_text not_blank
  recorded_composite composite slurm =
      elim (not_blank (get_text J "composite_scheduler_job_id" slurm)) [
        | none ↦ composite
        | some s ↦ s
      ]

  -- The observation of one poll.
  abbrev slurm_observation : (now state source : String) → Option ℤ → Option String → Map
  slurm_observation now state source exit_code raw = insert_some J "raw" (texts J raw) (
      insert_some J "exit_code" (integers exit_code) (
        insert_text J "observed_at" now
          (insert_text J "source" source (insert_text J "state" state empty))))

  -- `if let Some(status) = … { if !term.contains_key("ledger_status") { … } }`.
  unfoldable pub with_ledger_status : Option String → Map → Map
  with_ledger_status none term = term
  with_ledger_status (some status) term =
      if contains_key J "ledger_status" term
      then term
      else insert_text J "ledger_status" status term

  -- Whether a terminal observation names the identifier under a key.
  abbrev names_same : String → String → Option Map → Bool
  names_same key id none = false
  names_same key id (some terminal) = elim (get_text J key terminal) [
    | none ↦ false
    | some s ↦ s == id
  ]

  -- The terminal observation, if there is an object.
  abbrev existing_terminal : Map → Option Map
  existing_terminal section = elim (get "terminal" section) [ none ↦ none | some v ↦ as_object J v ]

  abbrev or_empty : Option Map → Map
  or_empty none = empty
  or_empty (some m) = m

  -- The terminal observation of this poll, where none of the same job is recorded.
  abbrev slurm_terminal :
      (composite slurm_job_id : String) → SlurmPollManifestOpts Value → (obs : Map) → Map
  slurm_terminal composite slurm_job_id opts obs =
      insert_some J "diagnostics" (objects opts.diagnostics) (
        insert_some J "reason" (texts J (non_empty opts.reason)) (
          insert_text J "slurm_job_id_ref" slurm_job_id
            (insert_text J "composite_scheduler_job_id" composite obs)))

  -- The block under `if record_terminal`.
  pub record_slurm_terminal :
      (composite slurm_job_id : String)
      → (terminal_ledger_status : Option String) → SlurmPollManifestOpts Value
      → (obs slurm : Map) → Map
  unfolding as_object get_text objects with_ledger_status
  record_slurm_terminal composite slurm_job_id status opts obs slurm =
      let existing = existing_terminal slurm in
      let frozen = names_same "composite_scheduler_job_id" composite existing in
      let term =
        if frozen then or_empty existing else slurm_terminal composite slurm_job_id opts obs in
      insert "terminal" (map_value J (with_ledger_status status term)) slurm

  -- The section with the observation of a poll, the raw line trimmed.
  pub observe_slurm :
      (now composite slurm_job_id state source : String)
      → (raw : Option String) → SlurmPollManifestOpts Value
      → Map
      → Map
  unfolding merge_slurm_paths not_blank
  observe_slurm now composite slurm_job_id state source raw opts slurm =
      insert "last_observation"
        (map_value J (slurm_observation now state source opts.exit_code raw))
        (merge_slurm_paths (not_blank opts.remote_session_dir) (
          insert_text J "composite_scheduler_job_id" composite
            (insert_text J "slurm_job_id" slurm_job_id slurm)))

  -- The change of the section `slurm`.
  pub poll_slurm :
      (now composite slurm_job_id state source : String)
      → (raw : Option String) → (record_terminal : Bool) → (terminal_ledger_status : Option String)
      → SlurmPollManifestOpts Value
      → Map
      → Map
  unfolding recorded_composite record_slurm_terminal observe_slurm
  poll_slurm now given slurm_job_id state source raw record_terminal status opts section =
      let slurm = remove "observations" section in
      let composite = recorded_composite given slurm in
      let obs = slurm_observation now state source opts.exit_code raw in
      let observed = observe_slurm now composite slurm_job_id state source raw opts slurm in
      if record_terminal
      then record_slurm_terminal composite slurm_job_id status opts obs observed
      else observed

  pub merge_slurm_poll_into_manifest :
      (now : String)
      → Option Value
      → (composite slurm_job_id state source : String) → (raw_line : Option String)
      → (record_terminal : Bool) → (terminal_ledger_status : Option String)
      → SlurmPollManifestOpts Value
      → Outcome Value
  unfolding edit_record poll_slurm trim_raw
  merge_slurm_poll_into_manifest now existing composite job state source raw_line rec status opts =
      trim_raw raw_line >>= λ raw. returns (
        edit_record J
          (edit_section J "slurm" (poll_slurm now composite job state source raw rec status opts))
          existing)
