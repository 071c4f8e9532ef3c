-- ===== src/Slurm/Batch/Examples.antt =====
-- An answer of `sacct` for a job that runs while its batch step is complete
-- (crates/beampipe-orchestration/src/slurm_batch.rs).
use Prim.Native.Char.{Char}
use beampipe_core_v.Common.{String, ◌≡◌, ◌≤◌, refl, some, inl, inr}
use beampipe_core_v.Common.Int.{pos}
use beampipe_core_v.Common.Text.{split}
use beampipe_core_v.Slurm.Batch.{SacctRow, sacct_base_job_id, sacct_rows, parse_sacct_batch}
use beampipe_core_v.Slurm.Batch.Laws.{Among, IsRoot, sacct-IsRoot_decides}
use beampipe_core_v.Slurm.ExitCode.{parse_sacct_exit_code}
use beampipe_core_v.Slurm.State.{normalize_state, state_rank}

abbrev same : Char → String
same c = String.◌∷◌ c String.[]

abbrev answer : String
answer = "7.batch|COMPLETED|0:0\n7|RUNNING|0:0\n"

-- The row of the allocation.
abbrev allocation : SacctRow
allocation = record {
  job_id = "7";
  rank = 2;
  candidate = record {
    raw_state = "RUNNING";
    normalized_state = "RUNNING";
    source = "sacct";
    exit_code = some (pos 0);
    raw_line = some "7|RUNNING|0:0";
  };
}

still_running : parse_sacct_batch same answer "7" ≡ some allocation.candidate
unfolding parse_sacct_batch normalize_state state_rank parse_sacct_exit_code
still_running = refl

allocation-Among : Among allocation (sacct_rows same (split b'\n' answer))
unfolding sacct_rows normalize_state state_rank parse_sacct_exit_code split
allocation-Among = inr (inl refl)

allocation_IsRoot : IsRoot "7" allocation
unfolding sacct_base_job_id
allocation_IsRoot = record { own = refl; base = refl }

sacct-IsRoot_decides_example :
    (best : SacctRow) × Among best (sacct_rows same (split b'\n' answer))
    × IsRoot "7" best
    × (2 ≤ best.rank)
    × (parse_sacct_batch same answer "7" ≡ some best.candidate)
sacct-IsRoot_decides_example =
    sacct-IsRoot_decides same answer "7" allocation allocation-Among allocation_IsRoot
