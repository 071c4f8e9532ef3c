-- ===== src/RunRecord/Examples.antt =====
-- Shortening a raw line at a limit inside a character (crates/beampipe-domain/src/run_record.rs).
use Prim.Native.String.{◌++◌}
use beampipe_core_v.Common.{ℕ, zero, suc, String, ◌≡◌, refl, some}
use beampipe_core_v.Common.Text.{trim}
use beampipe_core_v.RunRecord.Edit.{returns, panics, trim_raw}

abbrev times : ℕ → String → String
times zero s = ""
times (suc n) s = s ++ times n s

-- The character from byte 511 to byte 513 is cut.
inside_a_character : trim_raw (some (times 511 "a" ++ "éa")) ≡ panics
unfolding trim_raw trim
inside_a_character = refl

after_a_character :
    trim_raw (some (times 510 "a" ++ "éa")) ≡ returns (some (times 510 "a" ++ "é..."))
unfolding trim_raw trim
after_a_character = refl
