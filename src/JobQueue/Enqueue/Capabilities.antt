-- ===== src/JobQueue/Enqueue/Capabilities.antt =====
-- The capabilities that a job requires of its worker: `job_kind_capabilities` and
-- `normalize_required_capabilities` of crates/beampipe-db/src/repo.rs.

use Prim.Native.Nat.{Ordering}
use Prim.Native.String.{compare}
use beampipe_core_v.Common.{
  String, Bool, true, false, ◌||◌, Result, ok, err, List, [], ◌∷◌, ◌==◌, if◌then◌else◌,
}
use beampipe_core_v.Common.Text.{is_empty, trim}

pub data EnqueueError : Type 0 where
  blank_capability : EnqueueError

unfoldable pub job_kind_capabilities : String → List String
job_kind_capabilities kind =
    if (kind == "scheduler_tick") || (kind == "discover_batch")
    then "discovery:tap" ∷ []
    else if kind == "execution_scheduler_tick"
    then "manifest:generic" ∷ []
    else if (kind == "dim_poll") || (kind == "dim_poll_tick")
    then "deployment:daliuge_rest" ∷ []
    else if kind == "slurm_poll_tick"
    then "deployment:slurm_remote" ∷ []
    else []

-- Every text is trimmed, up to the first that is blank.
abbrev pub trimmed : List String → Result (List String) EnqueueError
trimmed [] = ok []
trimmed (c ∷ cs) =
    let rest = trimmed cs in
    if is_empty (trim c)
    then err EnqueueError.blank_capability
    else elim rest [ err e ↦ err e | ok ts ↦ ok (trim c ∷ ts) ]

-- `a <= b` of texts, which goes by their bytes.
abbrev pub le_text : String → String → Bool
le_text a b = elim (compare a b) [ Ordering.gt ↦ false | _ ↦ true ]

abbrev pub insert : String → List String → List String
insert c [] = c ∷ []
insert c (d ∷ ds) = let rest = insert c ds in if le_text c d then c ∷ d ∷ ds else d ∷ rest

unfoldable pub sort : List String → List String
sort [] = []
sort (c ∷ cs) = insert c (sort cs)

-- `dedup` after an element that is kept: what equals it is dropped.
abbrev pub dedup_after : String → List String → List String
dedup_after c [] = []
dedup_after c (d ∷ ds) = elim (c == d) [ true ↦ dedup_after c ds | false ↦ d ∷ dedup_after d ds ]

abbrev pub dedup : List String → List String
dedup [] = []
dedup (c ∷ cs) = c ∷ dedup_after c cs

unfoldable pub normalize_required_capabilities : List String → Result (List String) EnqueueError
unfolding sort trim
normalize_required_capabilities cs = elim (trimmed cs) [
  | err e ↦ err e
  | ok ts ↦ ok (dedup (sort ts))
]
