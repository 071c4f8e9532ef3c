-- ===== src/Admission/Counts.antt =====
-- Counting one skip in the ordered counts of a tick's report
-- (`SchedulerTickResult::bump` of crates/beampipe-domain/src/admission.rs).
use beampipe_core_v.Common.{
  ℕ, ◌+◌, ◌%◌, ◌^◌, ◌<◌, ◌≡◌, refl, Option, none, some, [], ◌∷◌, eqb, ltb, if◌then◌else◌, arith,
  by_test, Bool-cases, inl, inr,
}
use beampipe_core_v.Admission.{SkipReason, rank, Counts, get, count_one}

-- The first key of the counts, if there is one, is above a reason.
abbrev pub StartsAbove : SkipReason → Counts → Type 0
StartsAbove r [] = Unit
StartsAbove r ((k, n) ∷ m) = rank r < rank k

-- The keys are in order and distinct.
abbrev pub IsOrdered : Counts → Type 0
IsOrdered [] = Unit
IsOrdered ((k, n) ∷ m) = StartsAbove k m × IsOrdered m

get_above : (r : SkipReason) (m : Counts) → StartsAbove r m → IsOrdered m → get r m ≡ none
unfolding get
get_above r [] h o = refl
get_above r ((k, n) ∷ []) h o = ground arith
get_above r ((k, n) ∷ (j, i) ∷ m) h o = ground (arith, get_above r ((j, i) ∷ m))

count_one-StartsAbove :
    (q r : SkipReason) (m : Counts)
    → rank q < rank r
    → StartsAbove q m
    → StartsAbove q (count_one r m)
unfolding count_one
count_one-StartsAbove q r [] h a = h
count_one-StartsAbove q r ((k, n) ∷ m) h a =
    by_test (StartsAbove q) (eqb (rank r) (rank k)) (λ _. a)
      λ _. by_test (StartsAbove q) (ltb (rank r) (rank k)) (λ _. h) λ _. a

pub count_one-IsOrdered : (r : SkipReason) (m : Counts) → IsOrdered m → IsOrdered (count_one r m)
unfolding count_one
count_one-IsOrdered r [] o = (tt, tt)
count_one-IsOrdered r ((k, n) ∷ m) o =
    by_test IsOrdered (eqb (rank r) (rank k)) (λ _. o)
      λ ne.
        by_test IsOrdered (ltb (rank r) (rank k)) (λ lt. (ground arith, o))
          λ ge. (count_one-StartsAbove k r m (ground arith) o.0, count_one-IsOrdered r m o.1)

-- The count of no entry.
abbrev pub or_zero : Option ℕ → ℕ
or_zero none = 0
or_zero (some n) = n

-- The count after one more skip.
abbrev pub next : Option ℕ → ℕ
next o = (or_zero o + 1) % 2 ^ 32

get-count_one_here :
    (r k j : SkipReason) (n : ℕ) (m : Counts)
    → rank r ≡ rank k
    → get j ((k, next (some n)) ∷ m)
      ≡ (if eqb (rank r) (rank j) then some (next (get r ((k, n) ∷ m))) else get j ((k, n) ∷ m))
unfolding get
get-count_one_here r k j n m e = ground arith

get-count_one_before :
    (r k j : SkipReason) (n : ℕ) (m : Counts)
    → rank r < rank k
    → IsOrdered ((k, n) ∷ m)
    → get j ((r, 1) ∷ (k, n) ∷ m)
      ≡ (if eqb (rank r) (rank j) then some (next (get r ((k, n) ∷ m))) else get j ((k, n) ∷ m))
get-count_one_before r k j n m h o = rw (get_above r ((k, n) ∷ m) h o) (unfold get in ground arith)

get-count_one_after :
    (r k j : SkipReason) (n : ℕ) (m c : Counts)
    → rank k < rank r
    → get j c ≡ (if eqb (rank r) (rank j) then some (next (get r m)) else get j m)
    → get j ((k, n) ∷ c)
      ≡ (if eqb (rank r) (rank j) then some (next (get r ((k, n) ∷ m))) else get j ((k, n) ∷ m))
unfolding get
get-count_one_after r k j n m c h e = ground arith

-- Counting a reason adds one to its count, from 0 if it has none, and changes no other count.
pub get-count_one :
    (r j : SkipReason) (m : Counts)
    → IsOrdered m
    → get j (count_one r m) ≡ (if eqb (rank r) (rank j) then some (next (get r m)) else get j m)
unfolding count_one
get-count_one r j [] o = unfold get in ground arith
get-count_one r j ((k, n) ∷ m) o = elim (Bool-cases (eqb (rank r) (rank k))) [
  | inl e ↦ rw e (get-count_one_here r k j n m (ground arith))
  | inr ne ↦ elim (Bool-cases (ltb (rank r) (rank k))) [
    | inl lt ↦ rw (ne, lt) (get-count_one_before r k j n m (ground arith) o)
    | inr ge ↦
        rw (ne, ge)
          (get-count_one_after r k j n m (count_one r m) (ground arith) (get-count_one r j m o.1))
  ]
]
