-- ===== src/RunRecord/Slurm/History.antt =====
-- Any sequence of polls of a Slurm job over a manifest
-- (`merge_slurm_poll_into_manifest` of crates/beampipe-domain/src/run_record.rs).
mod Examples
use mathlib.Core.Path.{subst}
use beampipe_core_v.Common.{
  String, ◌≡◌, ◌∙◌, refl, false, true, Bool, Option, none, some, List, [], ◌∷◌, ◌==◌, arith,
  Bool-cases, inl, inr,
}
use beampipe_core_v.Json.{Json}
use beampipe_core_v.RunRecord.Edit.{
  Outcome, returns, panics, ◌>>=◌, object, get_text, edit_section, edit_record, trim_raw,
}
use beampipe_core_v.RunRecord.Edit.Laws.{
  object-map_value, record_of, record_of-edit_record, get-edit_section, get_text-remove,
  >>=-eq-returns, returns_injective,
}
use beampipe_core_v.RunRecord.Slurm.{
  SlurmPollManifestOpts, poll_slurm, with_ledger_status, merge_slurm_poll_into_manifest,
}
use beampipe_core_v.RunRecord.Slurm.Laws.{
  IsFinal, poll_slurm-IsFinal, ledger_after, get_text-with_ledger_status,
}

-- The arguments of one call.
pub record Poll (Value : Type 0) : Type 0 where
  pub now : String
  pub composite : String
  pub job : String
  pub state : String
  pub source : String
  pub raw_line : Option String
  pub record_terminal : Bool
  pub status : Option String
  pub opts : SlurmPollManifestOpts Value

module _ (J : Json) where
  open J use {Value, Map, get, remove}

  abbrev pub poll : Option Value → Poll Value → Outcome Value
  poll existing p =
      merge_slurm_poll_into_manifest J p.now existing p.composite p.job p.state p.source p.raw_line
        p.record_terminal p.status p.opts

  -- The manifest after every poll of a list, unless one of them panics.
  pub poll_all : Option Value → List (Poll Value) → Outcome (Option Value)
  poll_all existing [] = returns existing
  poll_all existing (p ∷ ps) = poll existing p >>= λ manifest. poll_all (some manifest) ps

  -- The section `slurm` of the run record.
  abbrev pub slurm_section : Option Value → Map
  slurm_section existing = object J (get "slurm" (record_of J existing))

  -- Two terminal observations that have the same texts, their ledger status left out.
  abbrev pub AgreeButLedger : Map → Map → Type 0
  AgreeButLedger t t' =
      (k : String)
      → get_text J k (remove "ledger_status" t') ≡ get_text J k (remove "ledger_status" t)

  slurm_section-edit :
      (change : Map → Map) (existing : Option Value)
      → slurm_section (some (edit_record J (edit_section J "slurm" change) existing))
        ≡ change (slurm_section existing)
  slurm_section-edit change existing =
      simp (record_of-edit_record, get-edit_section, object-map_value)

  pub ledger_after-agrees :
      (rec : Bool) (status : Option String) (t : Map)
      → AgreeButLedger t (ledger_after J rec status t)
  ledger_after-agrees true status t k =
      rw
        (
          get_text-remove J "ledger_status" k (with_ledger_status J status t),
          get_text-remove J "ledger_status" k t,
        )
        (elim (Bool-cases ("ledger_status" == k)) [
          | inl e ↦ rw e refl
          | inr ne ↦ rw ne (get_text-with_ledger_status J status k t ne)
        ])
  ledger_after-agrees false status t k = refl

  -- What one poll returns, if it does.
  poll-returns :
      (existing : Option Value) (p : Poll Value) (manifest : Value)
      → poll existing p ≡ returns manifest
      → (raw : Option String) × (slurm_section (some manifest)
          ≡ poll_slurm J p.now p.composite p.job p.state p.source raw p.record_terminal p.status
              p.opts
              (slurm_section existing))
  unfolding merge_slurm_poll_into_manifest
  poll-returns existing p manifest h =
      let change = λ (raw : Option String).
        poll_slurm J p.now p.composite p.job p.state p.source raw p.record_terminal p.status
          p.opts in
      let (raw, e, r) =
        >>=-eq-returns (trim_raw p.raw_line)
          (λ raw. returns (edit_record J (edit_section J "slurm" (change raw)) existing)) h in
      (raw, rw (← returns_injective _ _ r) (slurm_section-edit (change raw) existing))

  poll-IsFinal :
      (id : String) (t : Map) (existing : Option Value) (p : Poll Value) (manifest : Value)
      → IsFinal J id t (slurm_section existing)
      → poll existing p ≡ returns manifest
      → IsFinal J id (ledger_after J p.record_terminal p.status t) (slurm_section (some manifest))
  poll-IsFinal id t existing p manifest f h =
      let (raw, e) = poll-returns existing p manifest h in
      rw e (
        poll_slurm-IsFinal J p.now p.job p.state p.source raw p.opts id p.composite t
          (slurm_section existing) p.record_terminal p.status f)

  -- Once a terminal observation of the job is recorded, it survives every sequence of polls that does
  -- not panic, whatever they report and whichever identifier they are called with: it is still there
  -- for the same job, and its every text but the ledger status is as it was.
  pub terminal_survives :
      (id : String) (t : Map) (existing : Option Value) (ps : List (Poll Value))
      (after : Option Value)
      → IsFinal J id t (slurm_section existing)
      → poll_all existing ps ≡ returns after
      → (t' : Map) × IsFinal J id t' (slurm_section after) × AgreeButLedger t t'
  unfolding poll_all
  terminal_survives id t existing [] after f h =
      let e : existing ≡ after = returns_injective _ _ h in
      (t, subst (λ v. IsFinal J id t (slurm_section v)) e f, λ k. refl)
  terminal_survives id t existing (p ∷ ps) after f h =
      let (manifest, one, rest) = >>=-eq-returns (poll existing p) (λ m. poll_all (some m) ps) h in
      let s : Map = ledger_after J p.record_terminal p.status t in
      let (t', final, agree) =
        terminal_survives id s (some manifest) ps after
          (poll-IsFinal id t existing p manifest f one) rest in
      (t', final, λ k. agree k ∙ ledger_after-agrees p.record_terminal p.status t k)
