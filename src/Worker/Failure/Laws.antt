-- ===== src/Worker/Failure/Laws.antt =====
-- The time between retries: `retry_delay_seconds` of crates/beampipe-jobs/src/lib.rs.
use native.Mathlib.Omega.{pow_step}
use beampipe_core_v.Common.{ℕ, suc, zero, ◌^◌, ◌≤◌, arith}
use beampipe_core_v.Worker.Failure.{exponent, retry_delay_seconds}

power_mono : (a b : ℕ) → a ≤ b → 2 ^ a ≤ 2 ^ b
power_mono zero zero h = omega arith
power_mono zero (suc b) h = omega (arith, power_mono zero b (omega arith), pow_step 2 b)
power_mono (suc a) zero h = absurd (omega arith)
power_mono (suc a) (suc b) h =
    omega (arith, power_mono a b (omega arith), pow_step 2 a, pow_step 2 b)

-- The delay before a retry is between 15 seconds and an hour, and never shorter than the delay after
-- fewer attempts of the same job.
pub retry_delay_bounds :
    (uuid attempts later : ℕ)
    → attempts ≤ later
    → (15 ≤ retry_delay_seconds uuid attempts)
      × (retry_delay_seconds uuid later ≤ 3600)
      × (retry_delay_seconds uuid attempts ≤ retry_delay_seconds uuid later)
unfolding retry_delay_seconds
retry_delay_bounds uuid attempts later h =
    ground
      (arith, power_mono 0 (exponent attempts), power_mono (exponent attempts) (exponent later))
