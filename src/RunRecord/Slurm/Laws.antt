-- ===== src/RunRecord/Slurm/Laws.antt =====
-- The terminal section of a Slurm job under later polls
-- (`merge_slurm_poll_into_manifest` of crates/beampipe-domain/src/run_record.rs).
use package.text.Mathlib.TextPositions.{eq_refl}
use beampipe_core_v.Common.{
  String, ◌≡◌, refl, false, true, Bool, Option, none, some, ◌==◌, arith, if◌then◌else◌,
}
use beampipe_core_v.Json.{Json, map_value, text}
use beampipe_core_v.Json.Laws.{as_object-map_value, as_str-text}
use beampipe_core_v.RunRecord.Edit.{get_text, not_blank}
use beampipe_core_v.RunRecord.Edit.Laws.{get_text-insert, get_text-remove, get-edit_section}
use beampipe_core_v.RunRecord.Slurm.{
  SlurmPollManifestOpts, existing_terminal, merge_slurm_paths, recorded_composite,
  with_ledger_status, record_slurm_terminal, poll_slurm, observe_slurm,
}

module _ (J : Json) where
  open J use {Value, Map, get, insert, remove, get-insert, get-remove}

  -- The section names the job `id`, and `t` is its terminal observation, of that job.
  pub record IsFinal (id : String) (t slurm : Map) : Type 0 where
    pub named : not_blank (get_text J "composite_scheduler_job_id" slurm) ≡ some id
    pub terminal : existing_terminal J slurm ≡ some t
    pub same_job : get_text J "composite_scheduler_job_id" t ≡ some id

  get-merge_slurm_paths :
      (dir : Option String) (j : String) (m : Map)
      → ("paths" == j) ≡ false
      → get j (merge_slurm_paths J dir m) ≡ get j m
  unfolding merge_slurm_paths
  get-merge_slurm_paths none j m h = refl
  get-merge_slurm_paths (some dir) j m h = simp (get-edit_section, h)

  recorded_composite-named :
      (given id : String) (slurm : Map)
      → not_blank (get_text J "composite_scheduler_job_id" slurm) ≡ some id
      → recorded_composite J given slurm ≡ id
  unfolding recorded_composite
  recorded_composite-named given id slurm h = rw (h, recorded_composite)

  -- What the terminal observation is after a poll.
  abbrev pub ledger_after : Bool → Option String → Map → Map
  ledger_after record_terminal status t =
      if record_terminal then with_ledger_status J status t else t

  pub get_text-with_ledger_status :
      (status : Option String) (k : String) (t : Map)
      → ("ledger_status" == k) ≡ false
      → get_text J k (with_ledger_status J status t) ≡ get_text J k t
  unfolding with_ledger_status
  get_text-with_ledger_status none k t h = refl
  get_text-with_ledger_status (some s) k t h =
      ground (arith, get_text-insert J "ledger_status" k (text J s) t)

  record_slurm_terminal-frozen :
      (id job : String) (status : Option String) (opts : SlurmPollManifestOpts Value)
      (obs t slurm : Map)
      → existing_terminal J slurm ≡ some t
      → get_text J "composite_scheduler_job_id" t ≡ some id
      → record_slurm_terminal J id job status opts obs slurm
        ≡ insert "terminal" (map_value J (with_ledger_status J status t)) slurm
  unfolding record_slurm_terminal
  record_slurm_terminal-frozen id job status opts obs t slurm h k = ground (arith, eq_refl id)

  get_text-merge_slurm_paths :
      (dir : Option String) (j : String) (m : Map)
      → ("paths" == j) ≡ false
      → get_text J j (merge_slurm_paths J dir m) ≡ get_text J j m
  unfolding get_text
  get_text-merge_slurm_paths dir j m h = ground (arith, get-merge_slurm_paths dir j m h)

  not_blank-some :
      (o : Option String) (id : String) → not_blank o ≡ some id → not_blank (some id) ≡ some id
  unfolding not_blank
  not_blank-some none id h = cc
  not_blank-some (some v) id h = ground arith

  composite_of_final :
      (id given : String) (t slurm : Map)
      → IsFinal id t slurm
      → recorded_composite J given (remove "observations" slurm) ≡ id
  composite_of_final id given t slurm f =
      recorded_composite-named given id (remove "observations" slurm) (rw get_text-remove f.named)

  insert-IsFinal :
      (id : String) (t t' slurm : Map)
      → IsFinal id t slurm
      → get_text J "composite_scheduler_job_id" t' ≡ some id
      → IsFinal id t' (insert "terminal" (map_value J t') slurm)
  insert-IsFinal id t t' slurm f h = record {
    named = rw get_text-insert f.named;
    terminal =
        ground (
          arith,
          get-insert "terminal" "terminal" (map_value J t') slurm,
          as_object-map_value J t',
        );
    same_job = h;
  }

  module _ (now job state source : String) (raw : Option String)
      (opts : SlurmPollManifestOpts Value) where
    terminal-observe_slurm :
        (id : String) (slurm : Map)
        → get "terminal" (observe_slurm J now id job state source raw opts slurm)
          ≡ get "terminal" slurm
    unfolding observe_slurm
    terminal-observe_slurm id slurm = simp (get-insert, get-merge_slurm_paths)

    composite-observe_slurm :
        (id : String) (slurm : Map)
        → get_text J "composite_scheduler_job_id"
            (observe_slurm J now id job state source raw opts slurm)
          ≡ some id
    unfolding observe_slurm
    composite-observe_slurm id slurm =
        simp (get_text-insert, get_text-merge_slurm_paths, as_str-text)

    observe_slurm-IsFinal :
        (id : String) (t slurm : Map)
        → IsFinal id t slurm
        → IsFinal id t
            (observe_slurm J now id job state source raw opts (remove "observations" slurm))
    observe_slurm-IsFinal id t slurm f = record {
      named = rw composite-observe_slurm (not_blank-some _ id f.named);
      terminal = ground (
        arith,
        terminal-observe_slurm id (remove "observations" slurm),
        get-remove "observations" "terminal" slurm,
        f.terminal,
      );
      same_job = f.same_job;
    }

    -- A poll of any kind, whatever it observes, keeps the section final: the terminal observation is
    -- the old one, with a ledger status added at most.
    pub poll_slurm-IsFinal :
        (id given : String) (t slurm : Map) (record_terminal : Bool) (status : Option String)
        → IsFinal id t slurm
        → IsFinal id
            (ledger_after record_terminal status t)
            (poll_slurm J now given job state source raw record_terminal status opts slurm)
    unfolding poll_slurm
    poll_slurm-IsFinal id given t slurm false status f =
        rw (composite_of_final id given t slurm f) (observe_slurm-IsFinal id t slurm f)
    poll_slurm-IsFinal id given t slurm true status f =
        let s : Map =
          observe_slurm J now id job state source raw opts (remove "observations" slurm) in
        let g : IsFinal id t s = observe_slurm-IsFinal id t slurm f in
        rw
          (
            composite_of_final id given t slurm f,
            record_slurm_terminal-frozen id job status opts _ t s g.terminal g.same_job,
          )
          (insert-IsFinal id t (with_ledger_status J status t) s g
            (rw get_text-with_ledger_status g.same_job))
