-- ===== src/Slurm/ExitCode/Examples.antt =====
-- Exit codes that are read (crates/beampipe-domain/src/slurm.rs).
use beampipe_core_v.Common.{◌≡◌, refl, none, some}
use beampipe_core_v.Common.Int.{pos, negsuc}
use beampipe_core_v.Slurm.ExitCode.{parse_sacct_exit_code}

colon_form : parse_sacct_exit_code "137:9" ≡ some (pos 137)
unfolding parse_sacct_exit_code
colon_form = refl

too_large : parse_sacct_exit_code "2147483648" ≡ none
unfolding parse_sacct_exit_code
too_large = refl

least : parse_sacct_exit_code "-2147483648" ≡ some (negsuc 2147483647)
unfolding parse_sacct_exit_code
least = refl
