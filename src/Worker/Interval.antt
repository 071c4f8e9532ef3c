-- ===== src/Worker/Interval.antt =====
-- How often the polls of Slurm and of DALiuGE run: `slurm_poll_tick_interval_secs` and
-- `dim_poll_tick_interval_secs` of crates/beampipe-jobs/src/lib.rs. The intervals of the projects,
-- rounded to seconds, are an argument; one that a project does not set is `none`.
pub mod Laws
mod Examples
use beampipe_core_v.Common.{ℕ, ◌-◌, Option, none, some, List, [], ◌∷◌, ltb, if◌then◌else◌}
use beampipe_core_v.Common.Int.{ℤ, pos, negsuc, ltb_ℤ}

-- `secs as i64` of a `u64`, and `n.max(least)`.
abbrev pub as_i64 : ℕ → ℤ
as_i64 n = if ltb n 9223372036854775808 then pos n else negsuc (18446744073709551616 - n - 1)

abbrev pub at_least : ℤ → ℤ → ℤ
at_least least n = if ltb_ℤ n least then least else n

-- `value.min(candidate)` of the least interval so far, if there is one.
abbrev pub minimum_poll_interval : Option ℤ → ℤ → Option ℤ
minimum_poll_interval none candidate = some candidate
minimum_poll_interval (some value) candidate =
    some (if ltb_ℤ candidate value then candidate else value)

-- One project: an interval below one second is passed over.
abbrev pub considered : Option ℤ → Option ℤ → Option ℤ
considered least none = least
considered least (some seconds) =
    if ltb_ℤ seconds (pos 1) then least else minimum_poll_interval least seconds

unfoldable pub shortest : Option ℤ → List (Option ℤ) → Option ℤ
shortest least [] = least
shortest least (project ∷ projects) = shortest (considered least project) projects

abbrev pub or_default : ℤ → Option ℤ → ℤ
or_default default none = default
or_default default (some n) = n

unfoldable pub slurm_poll_tick_interval_secs : Option ℕ → List (Option ℤ) → ℤ
unfolding shortest
slurm_poll_tick_interval_secs (some secs) projects = at_least (pos 5) (as_i64 secs)
slurm_poll_tick_interval_secs none projects =
    at_least (pos 5) (or_default (pos 30) (shortest none projects))

unfoldable pub dim_poll_tick_interval_secs : Option ℕ → List (Option ℤ) → ℤ
unfolding shortest
dim_poll_tick_interval_secs (some secs) projects = at_least (pos 1) (as_i64 secs)
dim_poll_tick_interval_secs none projects =
    at_least (pos 1) (or_default (pos 3) (shortest none projects))
