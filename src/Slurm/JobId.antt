-- ===== src/Slurm/JobId.antt =====
-- The identifier under which a Slurm job is stored, `session:job|directory`, and its parts:
-- crates/beampipe-domain/src/slurm.rs.
pub mod Laws
mod Examples
use Prim.Native.String.{len, ◌++◌}
use beampipe_core_v.Common.{ℕ, String, Option, none, some, Result, ok, err, ltb, if◌then◌else◌}
use beampipe_core_v.Common.Text.{is_empty, trim, split_once}

abbrev pub scheduler_job_id_max_len : ℕ
scheduler_job_id_max_len = 512

pub record SlurmSchedulerJobId : Type 0 where
  pub session_id : String
  pub slurm_job_id : String
  pub session_dir : Option String

pub data SlurmJobIdError : Type 0 where
  too_long : ℕ → SlurmJobIdError

-- The text that is stored, before its length is checked.
pub body : String → String → Option String → String
unfolding trim
body session_id slurm_job_id none = session_id ++ (":" ++ slurm_job_id)
body session_id slurm_job_id (some dir) =
    if is_empty (trim dir)
    then session_id ++ (":" ++ slurm_job_id)
    else session_id ++ (":" ++ (slurm_job_id ++ ("|" ++ dir)))

pub compose_scheduler_job_id : String → String → Option String → Result String SlurmJobIdError
compose_scheduler_job_id session_id slurm_job_id session_dir =
    let text = body session_id slurm_job_id session_dir in
    if ltb scheduler_job_id_max_len (len text) then err (too_long (len text)) else ok text

-- `Some(d.trim().to_string()).filter(|v| !v.is_empty())`.
trimmed_dir : String → Option String
unfolding trim
trimmed_dir d = if is_empty (trim d) then none else some (trim d)

-- The two parts round the first `|`.
split_dir : String → String × Option String
unfolding split_once trimmed_dir
split_dir raw = elim (split_once b'|' raw) [
  | none ↦ (raw, none)
  | some (head, d) ↦ (head, trimmed_dir d)
]

-- The two parts round the first `:`.
split_session : String → String × String
unfolding split_once trim
split_session head = elim (split_once b':' head) [
  | none ↦ ("", trim head)
  | some (session, job) ↦ (session, trim job)
]

pub parse_scheduler_job_id : String → SlurmSchedulerJobId
unfolding split_dir split_session
parse_scheduler_job_id raw =
    let (head, session_dir) = split_dir (trim raw) in
    let (session_id, slurm_job_id) = split_session head in
    record { session_id = session_id; slurm_job_id = slurm_job_id; session_dir = session_dir }
