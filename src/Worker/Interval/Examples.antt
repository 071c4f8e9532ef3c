-- ===== src/Worker/Interval/Examples.antt =====
-- The interval between polls of three projects.
use beampipe_core_v.Common.{◌≡◌, refl, Option, none, some, List, [], ◌∷◌}
use beampipe_core_v.Common.Int.{ℤ, pos}
use beampipe_core_v.Worker.Interval.{slurm_poll_tick_interval_secs}

abbrev projects : List (Option ℤ)
projects = some (pos 0) ∷ some (pos 60) ∷ none ∷ some (pos 20) ∷ []

least_of_three : slurm_poll_tick_interval_secs none projects ≡ pos 20
unfolding slurm_poll_tick_interval_secs
least_of_three = refl

-- An interval that is no `i64` is raised to the least.
wraps : slurm_poll_tick_interval_secs (some 18446744073709551615) projects ≡ pos 5
unfolding slurm_poll_tick_interval_secs
wraps = refl
