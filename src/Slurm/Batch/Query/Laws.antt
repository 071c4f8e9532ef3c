-- ===== src/Slurm/Batch/Query/Laws.antt =====
-- The answers for a job and the chunks of the jobs that are asked for
-- (crates/beampipe-orchestration/src/slurm_batch.rs).
use beampipe_core_v.Common.{
  ℕ, zero, suc, ◌≤◌, String, ◌≡◌, ◌∙◌, ap, refl, false, Bool, ◌||◌, none, some, List, [], ◌∷◌, ◌==◌,
  eq_iff, arith, if◌then◌else◌, Bool-cases, inl, inr,
}
use beampipe_core_v.Common.Lists.{length, All}
use beampipe_core_v.Slurm.Batch.{Table, insert, SlurmJobPollResult}
use beampipe_core_v.Slurm.Batch.Query.{
  merged, merge_from, merge_squeue_sacct_batch, batch_job_id_chunk, chunk_from, chunk_job_ids,
}

-- Whether a job is asked for.
pub asked : List String → String → Bool
asked [] id = false
asked (first ∷ job_ids) id = first == id || asked job_ids id

merge_from_lem :
    (job_ids : List String) (squeue sacct out : Table SlurmJobPollResult) (id : String)
    → merge_from job_ids squeue sacct out id
      ≡ (if asked job_ids id then some (merged (squeue id) (sacct id)) else out id)
unfolding merge_from asked
merge_from_lem [] squeue sacct out id = refl
merge_from_lem (first ∷ job_ids) squeue sacct out id =
    merge_from_lem job_ids squeue sacct (insert first (merged (squeue first) (sacct first)) out) id
    ∙ elim (Bool-cases (first == id)) [
      | inl e ↦ let same = (eq_iff first id).0 e in ground arith
      | inr ne ↦ ground arith
    ]

-- Every job that is asked for has a result, and no other job: the one of `squeue` if it has one,
-- else the one of `sacct`, else an unknown state.
pub merge_squeue_sacct_batch_lem :
    (job_ids : List String) (squeue sacct : Table SlurmJobPollResult) (id : String)
    → merge_squeue_sacct_batch job_ids squeue sacct id
      ≡ (if asked job_ids id then some (merged (squeue id) (sacct id)) else none)
unfolding merge_squeue_sacct_batch
merge_squeue_sacct_batch_lem job_ids squeue sacct id =
    merge_from_lem job_ids squeue sacct (λ _. none) id

abbrev append : List String → List String → List String
append [] ys = ys
append (x ∷ xs) ys = x ∷ append xs ys

abbrev pub concat : List (List String) → List String
concat [] = []
concat (chunk ∷ chunks) = append chunk (concat chunks)

abbrev AtMost : ℕ → List String → Type 0
AtMost n ids = length ids ≤ n

-- A chunk is not longer than the limit.
abbrev pub Fits : List String → Type 0
Fits ids = length ids ≤ batch_job_id_chunk

chunk_from-concat :
    (room : ℕ) (ids : List String)
    → append (chunk_from room ids).0 (concat (chunk_from room ids).1) ≡ ids
unfolding chunk_from
chunk_from-concat room [] = refl
chunk_from-concat zero (id ∷ ids) = ap (λ x. id ∷ x) (chunk_from-concat 49 ids)
chunk_from-concat (suc room) (id ∷ ids) = ap (λ x. id ∷ x) (chunk_from-concat room ids)

chunk_from-Fits :
    (room : ℕ) (ids : List String)
    → AtMost room (chunk_from room ids).0 × All Fits (chunk_from room ids).1
unfolding chunk_from
chunk_from-Fits room [] = (omega arith, tt)
chunk_from-Fits zero (id ∷ ids) =
    let (first, rest) = chunk_from-Fits 49 ids in (omega arith, (omega arith, rest))
chunk_from-Fits (suc room) (id ∷ ids) =
    let (first, rest) = chunk_from-Fits room ids in (omega arith, rest)

-- The chunks are the identifiers in their order, and none is longer than the limit.
pub chunk_job_ids_lem :
    (ids : List String) → (concat (chunk_job_ids ids) ≡ ids) × All Fits (chunk_job_ids ids)
unfolding chunk_job_ids
chunk_job_ids_lem [] = (refl, tt)
chunk_job_ids_lem (id ∷ ids) =
    let (first, rest) = chunk_from-Fits 49 ids in
    (ap (λ x. id ∷ x) (chunk_from-concat 49 ids), (omega arith, rest))
