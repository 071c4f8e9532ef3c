-- ===== src/Slurm/Batch/Query.antt =====
-- Asking for many jobs: joining the answers of `squeue` and `sacct`, and the chunks of the jobs
-- (crates/beampipe-orchestration/src/slurm_batch.rs).
pub mod Laws
use beampipe_core_v.Common.{ℕ, zero, suc, String, Option, none, some, List, [], ◌∷◌}
use beampipe_core_v.Slurm.Batch.{Table, insert, SlurmJobPollResult}

-- `merge_squeue_sacct_batch`: what is known of a job that neither answer has.
pub unknown_job : SlurmJobPollResult
unknown_job = record {
  raw_state = "";
  normalized_state = "UNKNOWN";
  source = "none";
  exit_code = none;
  raw_line = none;
}

abbrev pub merged : Option SlurmJobPollResult → Option SlurmJobPollResult → SlurmJobPollResult
merged (some result) sacct = result
merged none (some result) = result
merged none none = unknown_job

-- The loop over the identifiers, from the results so far.
pub merge_from :
    List String
    → Table SlurmJobPollResult
    → Table SlurmJobPollResult
    → Table SlurmJobPollResult
    → Table SlurmJobPollResult
unfolding unknown_job
merge_from [] squeue sacct out = out
merge_from (id ∷ job_ids) squeue sacct out =
    merge_from job_ids squeue sacct (insert id (merged (squeue id) (sacct id)) out)

pub merge_squeue_sacct_batch :
    List String → Table SlurmJobPollResult → Table SlurmJobPollResult → Table SlurmJobPollResult
unfolding merge_from
merge_squeue_sacct_batch job_ids squeue sacct = merge_from job_ids squeue sacct (λ id. none)

abbrev pub batch_job_id_chunk : ℕ
batch_job_id_chunk = 50

-- The end of a chunk that has room for some identifiers more, and the chunks after it.
abbrev to_chunk : String → List String × List (List String) → List String × List (List String)
to_chunk id (chunk, chunks) = (id ∷ chunk, chunks)

abbrev start_chunk : String → List String × List (List String) → List (List String)
start_chunk id (chunk, chunks) = (id ∷ chunk) ∷ chunks

chunk_from : (room : ℕ) → List String → List String × List (List String)
chunk_from room [] = ([], [])
chunk_from zero (id ∷ job_ids) = ([], start_chunk id (chunk_from 49 job_ids))
chunk_from (suc room) (id ∷ job_ids) = to_chunk id (chunk_from room job_ids)

-- `job_ids.chunks(BATCH_JOB_ID_CHUNK)`.
pub chunk_job_ids : List String → List (List String)
unfolding chunk_from
chunk_job_ids [] = []
chunk_job_ids (id ∷ job_ids) = start_chunk id (chunk_from 49 job_ids)
