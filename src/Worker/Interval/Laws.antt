-- ===== src/Worker/Interval/Laws.antt =====
-- The intervals that the projects ask for, and the interval between polls
-- (crates/beampipe-jobs/src/lib.rs).
use mathlib.Core.List.{Memᴰ}
use beampipe_core_v.Common.{◌≡◌, ◌⊎◌, true, false, Option, none, some, List}
use beampipe_core_v.Common.Int.{ℤ, pos, ltb_ℤ}
use beampipe_core_v.Common.Lists.{All}
use beampipe_core_v.Worker.Interval.{shortest}

-- A project that asks for no interval, or for one below one second.
abbrev pub IsPassedOver : Option ℤ → Type 0
IsPassedOver none = Unit {0}
IsPassedOver (some s) = ltb_ℤ s (pos 1) ≡ true

-- A project that asks for no interval shorter than `m`, unless it is passed over.
abbrev pub AsksFor : ℤ → Option ℤ → Type 0
AsksFor m none = Unit {0}
AsksFor m (some s) = (ltb_ℤ s (pos 1) ≡ true) ⊎ (ltb_ℤ s m ≡ false)

-- The least interval that is asked for.
pub record IsLeast (m : ℤ) (projects : List (Option ℤ)) : Type 0 where
  pub asked : Memᴰ (some m) projects
  pub counts : ltb_ℤ m (pos 1) ≡ false
  pub least : All (AsksFor m) projects

-- What is found after a least interval `m` of other projects.
record IsFound (m k : ℤ) (projects : List (Option ℤ)) : Type 0 where
  result : shortest (some m) projects ≡ some k
  counts : ltb_ℤ k (pos 1) ≡ false
  below : ltb_ℤ m k ≡ false
  least : All (AsksFor k) projects
  origin : (k ≡ m) ⊎ Memᴰ (some k) projects
