-- ===== src/Admission/Laws.antt =====
-- The counts and the flags of a tick's report (crates/beampipe-domain/src/admission.rs).
use native.Mathlib.Nat.{zero-add}
use beampipe_core_v.Common.{
  ℕ, suc, ◌+◌, ◌%◌, ◌^◌, ◌<◌, ◌≡◌, ◌↔◌, refl, String, true, Option, none, some, List, [], ◌∷◌, eqb,
  if◌then◌else◌, arith, Bool-cases, inl, inr,
}
use beampipe_core_v.Admission.{
  SkipReason, queue_full, tap_unreachable, max_batches_per_tick, rank, Counts, SchedulerTickResult,
  new, get, count_one, raise, bump,
}
use beampipe_core_v.Admission.Counts.{IsOrdered, count_one-IsOrdered, next, get-count_one}

-- The report after each of a list of skips.
pub bump_all : List SkipReason → SchedulerTickResult → SchedulerTickResult
bump_all [] t = t
bump_all (r ∷ rs) t = bump_all rs (bump r t)

-- How often a reason stands in a list.
pub occurrences : SkipReason → List SkipReason → ℕ
occurrences j [] = 0
occurrences j (r ∷ rs) =
    let rest = occurrences j rs in if eqb (rank r) (rank j) then suc rest else rest

-- The entry that stands for `n` skips: none for no skip, and a `u32` otherwise.
abbrev pub entry : ℕ → Option ℕ
entry n = if eqb n 0 then none else some (n % 2 ^ 32)

next-entry : (n : ℕ) → some (next (entry n)) ≡ entry (n + 1)
next-entry n = ground arith

reason_counts-raise :
    (r : SkipReason) (t : SchedulerTickResult) → (raise r t).reason_counts ≡ t.reason_counts
unfolding raise
reason_counts-raise r t = ground arith

reason_counts-bump :
    (r : SkipReason) (t : SchedulerTickResult)
    → (bump r t).reason_counts ≡ count_one r t.reason_counts
unfolding bump
reason_counts-bump r t =
    reason_counts-raise r (record t { reason_counts = count_one r t.reason_counts })

bump_all-IsOrdered :
    (rs : List SkipReason) (t : SchedulerTickResult)
    → IsOrdered t.reason_counts
    → IsOrdered (bump_all rs t).reason_counts
unfolding bump_all
bump_all-IsOrdered [] t o = o
bump_all-IsOrdered (r ∷ rs) t o =
    bump_all-IsOrdered rs (bump r t)
      (rw reason_counts-bump (count_one-IsOrdered r t.reason_counts o))

bump-IsOrdered :
    (r : SkipReason) (t : SchedulerTickResult)
    → IsOrdered t.reason_counts
    → IsOrdered (bump r t).reason_counts
bump-IsOrdered r t o = rw reason_counts-bump (count_one-IsOrdered r t.reason_counts o)

get-rank : (r j : SkipReason) (m : Counts) → rank r ≡ rank j → get r m ≡ get j m
unfolding get
get-rank r j [] e = refl
get-rank r j ((k, n) ∷ m) e = ground (arith, get-rank r j m)

get-bump :
    (r j : SkipReason) (t : SchedulerTickResult) (n : ℕ)
    → IsOrdered t.reason_counts
    → get j t.reason_counts ≡ entry n
    → get j (bump r t).reason_counts ≡ entry (if eqb (rank r) (rank j) then n + 1 else n)
get-bump r j t n o h =
    rw (reason_counts-bump, get-count_one r j t.reason_counts o)
      (elim (Bool-cases (eqb (rank r) (rank j))) [
        | inl e ↦ rw (e, get-rank r j t.reason_counts (ground arith), h) (next-entry n)
        | inr ne ↦ rw ne h
      ])

get-bump_all :
    (rs : List SkipReason) (j : SkipReason) (t : SchedulerTickResult) (n : ℕ)
    → IsOrdered t.reason_counts
    → get j t.reason_counts ≡ entry n
    → get j (bump_all rs t).reason_counts ≡ entry (n + occurrences j rs)
unfolding bump_all occurrences
get-bump_all [] j t n o h = let e : n + 0 ≡ n = omega arith in rw e h
get-bump_all (r ∷ rs) j t n o h = elim (Bool-cases (eqb (rank r) (rank j))) [
  | inl e ↦
      let c : n + suc (occurrences j rs) ≡ n + 1 + occurrences j rs = omega arith in
      rw (e, c)
        (get-bump_all rs j (bump r t) (n + 1) (bump-IsOrdered r t o)
          (rw e at (get-bump r j t n o h)))
  | inr ne ↦
      rw ne
        (get-bump_all rs j (bump r t) n (bump-IsOrdered r t o) (rw ne at (get-bump r j t n o h)))
]

-- The flags of a report, each with the reason that it stands for.
pub record Flags (t : SchedulerTickResult) (queue tap batches : ℕ) : Type 0 where
  pub queue_flag : (t.skipped_due_to_queue_full ≡ true) ↔ (0 < queue)
  pub tap_flag : (t.skipped_due_to_tap_unreachable ≡ true) ↔ (0 < tap)
  pub batches_flag : (t.skipped_due_to_max_batches_per_tick ≡ true) ↔ (0 < batches)

abbrev tick : SkipReason → SkipReason → ℕ → ℕ
tick r j n = if eqb (rank r) (rank j) then n + 1 else n

tick-occurrences :
    (r j : SkipReason) (n : ℕ) (rs : List SkipReason)
    → n + occurrences j (r ∷ rs) ≡ tick r j n + occurrences j rs
unfolding occurrences
tick-occurrences r j n rs = ground arith

Flags-bump :
    (r : SkipReason) (t : SchedulerTickResult) (q a b : ℕ)
    → Flags t q a b
    → Flags
        (bump r t)
        (tick r queue_full q)
        (tick r tap_unreachable a)
        (tick r max_batches_per_tick b)
unfolding bump rank
Flags-bump queue_full t q a b f = ground arith
Flags-bump _ t q a b f = ground arith

Flags-bump_all :
    (rs : List SkipReason) (t : SchedulerTickResult) (q a b : ℕ)
    → Flags t q a b
    → Flags
        (bump_all rs t)
        (q + occurrences queue_full rs)
        (a + occurrences tap_unreachable rs)
        (b + occurrences max_batches_per_tick rs)
unfolding bump_all
Flags-bump_all [] t q a b f = unfold occurrences in ground arith
Flags-bump_all (r ∷ rs) t q a b f =
    rw
      (
        tick-occurrences r queue_full q rs,
        tick-occurrences r tap_unreachable a rs,
        tick-occurrences r max_batches_per_tick b rs,
      )
      (Flags-bump_all rs (bump r t) (tick r queue_full q) (tick r tap_unreachable a)
        (tick r max_batches_per_tick b) (Flags-bump r t q a b f))

-- After any skips a new report has for each reason the number of its skips, modulo 2 ^ 32, and no
-- entry for a reason that was not met; and each of its three flags is set exactly if its reason was
-- met.
pub tick_report :
    (project : String) (rs : List SkipReason)
    → let t = bump_all rs (new project) in
      ((j : SkipReason) → get j t.reason_counts ≡ entry (occurrences j rs))
      × Flags t
          (occurrences queue_full rs)
          (occurrences tap_unreachable rs)
          (occurrences max_batches_per_tick rs)
unfolding new
tick_report project rs = (
  λ j. simp zero-add at (get-bump_all rs j (new project) 0 tt (unfold get in refl)),
  simp zero-add at (Flags-bump_all rs (new project) 0 0 0 (ground arith)),
)
