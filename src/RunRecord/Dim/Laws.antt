-- ===== src/RunRecord/Dim/Laws.antt =====
-- The terminal section of a DALiuGE session under later polls
-- (`merge_dim_poll_into_manifest` of crates/beampipe-domain/src/run_record.rs).
use package.text.Mathlib.TextPositions.{eq_refl}
use mathlib.Core.Path.{subst}
use beampipe_core_v.Common.{String, ◌≡◌, refl, Bool, true, false, Option, some, arith, ◌∙◌, sym, ap}
use beampipe_core_v.Common.Int.{ℤ}
use beampipe_core_v.Json.{Json, map_value}
use beampipe_core_v.Json.Laws.{as_object-map_value}
use beampipe_core_v.RunRecord.Dim.{
  existing_terminal, dim_terminal, record_dim_terminal, dim_observation, poll_dim, dim_section,
  merge_dim_poll_into_manifest,
}
use beampipe_core_v.RunRecord.Edit.{returns, get_text, insert_text, edit_section, edit_record}
use beampipe_core_v.RunRecord.Edit.Laws.{
  object-map_value, record_of-edit_record, get-edit_section, >>=-eq-returns, returns_injective,
}
use beampipe_core_v.RunRecord.Slurm.{with_ledger_status}
use beampipe_core_v.RunRecord.Slurm.Laws.{ledger_after, get_text-with_ledger_status}
use beampipe_core_v.RunRecord.Slurm.History.{AgreeButLedger, ledger_after-agrees}

module _ (J : Json) where
  open J use {Value, Map, get, insert, remove, get-insert, get-remove}

  -- The section has a terminal observation, of a session.
  pub record IsEnded (session : String) (t dim : Map) : Type 0 where
    pub terminal : existing_terminal J dim ≡ some t
    pub same_session : get_text J "session_id" t ≡ some session

  dim_terminal-frozen :
      (session : String) (error : Option String) (count : Option ℤ) (t obs : Map)
      → get_text J "session_id" t ≡ some session
      → dim_terminal J session error count (some t) obs ≡ returns t
  unfolding dim_terminal
  dim_terminal-frozen session error count t obs h = ground (arith, eq_refl session)

  terminal-insert :
      (t dim : Map) → existing_terminal J (insert "terminal" (map_value J t) dim) ≡ some t
  terminal-insert t dim =
      ground (arith, get-insert "terminal" "terminal" (map_value J t) dim, as_object-map_value J t)

  record_dim_terminal-frozen :
      (session : String) (status error : Option String) (count : Option ℤ) (t obs dim : Map)
      → IsEnded session t dim
      → record_dim_terminal J session status error count obs dim
        ≡ returns (insert "terminal" (map_value J (with_ledger_status J status t)) dim)
  unfolding record_dim_terminal
  record_dim_terminal-frozen session status error count t obs dim h =
      rw (h.terminal, dim_terminal-frozen session error count t obs h.same_session) refl

  module _ (now session state : String) (status error : Option String) (count : Option ℤ) where
    -- The section with the observation of the poll.
    abbrev observed : Map → Map
    observed section =
        insert "last_observation" (map_value J (dim_observation J now state))
          (insert_text J "session_id" session (remove "observations" section))

    terminal-observed : (section : Map) → get "terminal" (observed section) ≡ get "terminal" section
    terminal-observed section = simp (get-insert, get-remove)

    existing_terminal-observed :
        (section : Map) → existing_terminal J (observed section) ≡ existing_terminal J section
    existing_terminal-observed section = rw (existing_terminal, terminal-observed section) refl

    observed-IsEnded :
        (t section : Map) → IsEnded session t section → IsEnded session t (observed section)
    observed-IsEnded t section f = record {
      terminal = existing_terminal-observed section ∙ f.terminal;
      same_session = f.same_session;
    }

    poll_dim-IsEnded :
        (recorded : Bool) (t section dim : Map)
        → IsEnded session t section
        → poll_dim J now session state recorded status error count section ≡ returns dim
        → IsEnded session (ledger_after J recorded status t) dim
    unfolding poll_dim
    poll_dim-IsEnded false t section dim f h =
        subst (IsEnded session t) (returns_injective _ _ h) (observed-IsEnded t section f)
    poll_dim-IsEnded true t section dim f h =
        let ended = observed-IsEnded t section f in
        let kept =
          record_dim_terminal-frozen session status error count t (dim_observation J now state)
            (observed section) ended in
        subst (IsEnded session (with_ledger_status J status t))
          (returns_injective _ _ (sym kept ∙ h))
          (record {
            terminal = terminal-insert (with_ledger_status J status t) (observed section);
            same_session = rw get_text-with_ledger_status f.same_session;
          })

    dim_section-edit :
        (change : Map → Map) (existing : Option Value)
        → dim_section J (some (edit_record J (edit_section J "dim" change) existing))
          ≡ change (dim_section J existing)
    unfolding dim_section
    dim_section-edit change existing =
        simp (record_of-edit_record, get-edit_section, object-map_value)

    -- Once the end of a DALiuGE session is recorded, a poll of the session that does not panic,
    -- whatever it reports, leaves it recorded: it is still there for the session, and its every text
    -- but the ledger status is as it was.
    pub dim_terminal_survives :
        (recorded : Bool) (t : Map) (existing : Option Value) (manifest : Value)
        → IsEnded session t (dim_section J existing)
        → merge_dim_poll_into_manifest J now existing session state recorded status error count
          ≡ returns manifest
        → (t' : Map) × IsEnded session t' (dim_section J (some manifest)) × AgreeButLedger J t t'
    unfolding merge_dim_poll_into_manifest
    dim_terminal_survives recorded t existing manifest f h =
        let (dim, polled, merged) =
          >>=-eq-returns
            (poll_dim J now session state recorded status error count (dim_section J existing))
            (λ dim. returns (edit_record J (edit_section J "dim" (λ _. dim)) existing)) h in
        let e : edit_record J (edit_section J "dim" (λ _. dim)) existing ≡ manifest =
          returns_injective _ _ merged in
        let same : dim_section J (some manifest) ≡ dim =
          ap (λ v. dim_section J (some v)) (sym e) ∙ dim_section-edit (λ _. dim) existing in
        (
          ledger_after J recorded status t,
          rw same (poll_dim-IsEnded recorded t (dim_section J existing) dim f polled),
          ledger_after-agrees J recorded status t,
        )
