-- ===== src/Slurm/State/Examples.antt =====
-- Runs of `normalize_state` (crates/beampipe-domain/src/slurm.rs), and its theorems at concrete
-- states. No character that is not ASCII has another case here.
use Prim.Native.Char.{Char}
use beampipe_core_v.Common.{String, ◌≡◌, refl, map, arith}
use beampipe_core_v.Common.Text.{trim, to_uppercase}
use beampipe_core_v.Slurm.State.{normalize_one_token, compound_parts, normalize_state, state_rank}
use beampipe_core_v.Slurm.State.Laws.{IsHighest, normalize_state_compound}

abbrev same : Char → String
same c = String.◌∷◌ c String.[]

compound_state : normalize_state same " pending+Running " ≡ "RUNNING"
unfolding normalize_state state_rank
compound_state = refl

cancelled_by_user : normalize_state same "CANCELLED by 1000" ≡ "CANCELLED"
unfolding normalize_state
cancelled_by_user = refl

normalize_state_compound_example :
    IsHighest
      (normalize_state same "pending+running")
      (map normalize_one_token (compound_parts (to_uppercase same (trim "pending+running"))))
unfolding compound_parts to_uppercase trim
normalize_state_compound_example = normalize_state_compound same "pending+running" (omega arith)
