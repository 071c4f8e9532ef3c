-- ===== src/Admission.antt =====
-- What a scheduler tick reports of the work that it skipped, and the in-flight caps:
-- crates/beampipe-domain/src/admission.rs. The `BTreeMap` of counts is the list of its entries in
-- the order of the keys.
pub mod Counts
pub mod Laws
mod Examples
use beampipe_core_v.Common.{
  ℕ, ◌+◌, ◌%◌, ◌^◌, String, Bool, true, false, Option, none, some, List, [], ◌∷◌, eqb, ltb,
  if◌then◌else◌,
}
use beampipe_core_v.Common.Int.{ℤ, ltb_ℤ, max_zero}

pub data SkipReason : Type 0 where
  queue_full tap_unreachable in_flight_cap project_in_flight_cap profile_in_flight_cap rate_limited
        threshold_not_met max_batches_per_tick sources_skipped_not_ready no_pending_sources :
      SkipReason

pub as_str : SkipReason → String
as_str queue_full = "queue_full"
as_str tap_unreachable = "tap_unreachable"
as_str in_flight_cap = "in_flight_cap"
as_str project_in_flight_cap = "project_in_flight_cap"
as_str profile_in_flight_cap = "profile_in_flight_cap"
as_str rate_limited = "rate_limited"
as_str threshold_not_met = "threshold_not_met"
as_str max_batches_per_tick = "max_batches_per_tick"
as_str sources_skipped_not_ready = "sources_skipped_not_ready"
as_str no_pending_sources = "no_pending_sources"

-- The derived order: the position of the variant.
pub rank : SkipReason → ℕ
rank queue_full = 0
rank tap_unreachable = 1
rank in_flight_cap = 2
rank project_in_flight_cap = 3
rank profile_in_flight_cap = 4
rank rate_limited = 5
rank threshold_not_met = 6
rank max_batches_per_tick = 7
rank sources_skipped_not_ready = 8
rank no_pending_sources = 9

abbrev pub Counts : Type 0
Counts = List (SkipReason × ℕ)

pub record SchedulerTickResult : Type 0 where
  pub project_module : String
  pub total_sources : ℕ
  pub total_jobs : ℕ
  pub batches_this_tick : ℕ
  pub reason_counts : Counts
  pub skipped_due_to_queue_full : Bool
  pub skipped_due_to_tap_unreachable : Bool
  pub skipped_due_to_max_batches_per_tick : Bool
  -- `tap_unreachable` of the source, which is the name of a reason here.
  pub tap_unreachable_hosts : List String

pub new : String → SchedulerTickResult
new project_module = record {
  project_module = project_module;
  total_sources = 0;
  total_jobs = 0;
  batches_this_tick = 0;
  reason_counts = [];
  skipped_due_to_queue_full = false;
  skipped_due_to_tap_unreachable = false;
  skipped_due_to_max_batches_per_tick = false;
  tap_unreachable_hosts = [];
}

-- `BTreeMap::get`.
pub get : SkipReason → Counts → Option ℕ
get r [] = none
get r ((k, n) ∷ m) = if eqb (rank r) (rank k) then some n else get r m

-- `*counts.entry(reason).or_insert(0) += 1`, on a `u32` that wraps.
pub count_one : SkipReason → Counts → Counts
count_one r [] = (r, 1) ∷ []
count_one r ((k, n) ∷ m) =
    let rest = count_one r m in
    if eqb (rank r) (rank k)
    then (k, (n + 1) % 2 ^ 32) ∷ m
    else if ltb (rank r) (rank k)
    then (r, 1) ∷ (k, n) ∷ m
    else (k, n) ∷ rest

-- The `match` of `bump`.
raise : SkipReason → SchedulerTickResult → SchedulerTickResult
raise queue_full t = record t { skipped_due_to_queue_full = true }
raise tap_unreachable t = record t { skipped_due_to_tap_unreachable = true }
raise max_batches_per_tick t = record t { skipped_due_to_max_batches_per_tick = true }
raise _ t = t

pub bump : SkipReason → SchedulerTickResult → SchedulerTickResult
unfolding count_one raise
bump reason t = raise reason (record t { reason_counts = count_one reason t.reason_counts })

-- The entries that `serialize_reason_counts` writes.
serialize_reason_counts : Counts → List (String × ℕ)
unfolding as_str
serialize_reason_counts [] = []
serialize_reason_counts ((r, n) ∷ m) = (as_str r, n) ∷ serialize_reason_counts m

can_admit_by_in_flight : ℤ → ℤ → Bool
can_admit_by_in_flight current cap = ltb_ℤ current cap

discovery_admission_budget : ℤ → ℤ
discovery_admission_budget desired_sources = max_zero desired_sources

execute_admission_budget : ℤ → ℤ
execute_admission_budget desired_runs = max_zero desired_runs
