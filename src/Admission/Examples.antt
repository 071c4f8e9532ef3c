-- ===== src/Admission/Examples.antt =====
-- The report of a tick that skipped three times (crates/beampipe-domain/src/admission.rs).
use beampipe_core_v.Common.{◌≡◌, List, [], ◌∷◌}
use beampipe_core_v.Admission.{
  SkipReason, queue_full, rate_limited, tap_unreachable, max_batches_per_tick, get, new,
}
use beampipe_core_v.Admission.Laws.{bump_all, occurrences, entry, Flags, tick_report}

abbrev skips : List SkipReason
skips = rate_limited ∷ queue_full ∷ rate_limited ∷ []

tick_report_example :
    let t = bump_all skips (new "p") in
    ((j : SkipReason) → get j t.reason_counts ≡ entry (occurrences j skips))
    × Flags t
        (occurrences queue_full skips)
        (occurrences tap_unreachable skips)
        (occurrences max_batches_per_tick skips)
tick_report_example = tick_report "p" skips
