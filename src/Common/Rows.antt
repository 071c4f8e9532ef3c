-- ===== src/Common/Rows.antt =====
-- Statements on the rows of a table: `SELECT COUNT(*) ... WHERE`, `UPDATE ... WHERE`, and what an
-- update does to counts and to the properties of the other rows.
use mathlib.Core.Path.{subst}
use mathlib.Core.List.{Memᴰ}
use beampipe_core_v.Common.{
  ℕ, suc, ◌+◌, ◌≤◌, ◌<◌, ◌≡◌, refl, sym, ◌⊎◌, Bool, true, false, List, [], ◌∷◌, arith, Option, none,
  some, ltb, leb, if◌then◌else◌, Bool-cases, inl, inr,
}
use beampipe_core_v.Common.Lists.{All}

-- `COALESCE`.
abbrev pub coalesce {ℓ} : {A : Type ℓ} → Option A → Option A → Option A
coalesce none o = o
coalesce (some a) o = some a

-- `COALESCE(column, '-infinity') <= now()`, which is also `column IS NULL OR column <= now()`.
abbrev pub passed : ℕ → Option ℕ → Bool
passed now none = true
passed now (some t) = leb t now

-- `column > now()` for a column that may be NULL.
abbrev pub ahead : ℕ → Option ℕ → Bool
ahead now none = false
ahead now (some t) = ltb now t

module _ {ℓ} {A : Type ℓ} where
  abbrev pub count : (A → Bool) → List A → ℕ
  count p [] = 0
  count p (x ∷ xs) = if p x then suc (count p xs) else count p xs

  -- The rows that the condition picks, changed by the assignments; the others as they are.
  abbrev pub update_where : (A → Bool) → (A → A) → List A → List A
  update_where p f [] = []
  update_where p f (x ∷ xs) = (if p x then f x else x) ∷ update_where p f xs

  abbrev pub select_where : (A → Bool) → List A → List A
  select_where p [] = []
  select_where p (x ∷ xs) = if p x then x ∷ select_where p xs else select_where p xs

  -- An update that picks no row changes nothing.
  pub update_where-none :
      (p : A → Bool) (f : A → A) (xs : List A) → count p xs ≡ 0 → update_where p f xs ≡ xs
  update_where-none p f [] h = refl
  update_where-none p f (x ∷ xs) h = ground (arith, update_where-none p f xs)

  -- A property of every row that the changed rows have too is kept.
  pub update_where-All {κ} :
      (P : A → Type κ) (p : A → Bool) (f : A → A)
      → ((x : A) → P x → p x ≡ true → P (f x))
      → (xs : List A) → All P xs
      → All P (update_where p f xs)
  update_where-All P p f keep [] h = tt
  update_where-All P p f keep (x ∷ xs) h = elim (Bool-cases (p x)) [
    | inl e ↦ rw e (keep x h.0 e, update_where-All P p f keep xs h.1)
    | inr e ↦ rw e (h.0, update_where-All P p f keep xs h.1)
  ]

  -- Where a changed row is not counted if it was not before, the count does not grow. `R` is what is
  -- known of every row.
  pub count-update_where_le {κ} :
      (R : A → Type κ) (q q' p : A → Bool) (f : A → A)
      → ((x : A) → q' x ≡ true → q x ≡ true)
      → ((x : A) → R x → p x ≡ true → q' (f x) ≡ true → q x ≡ true)
      → (xs : List A) → All R xs
      → count q' (update_where p f xs) ≤ count q xs
  count-update_where_le R q q' p f mono keep [] h = omega arith
  count-update_where_le R q q' p f mono keep (x ∷ xs) h =
      let ih = count-update_where_le R q q' p f mono keep xs h.1 in
      elim (Bool-cases (p x)) [
        | inl e ↦ rw e (ground (arith, ih, keep x h.0 e))
        | inr e ↦ rw e (ground (arith, ih, mono x))
      ]

  -- A count grows at most by the number of rows that are changed.
  pub count-update_where_add :
      (q : A → Bool) (q' : A → Bool) (p : A → Bool) (f : A → A)
      → ((x : A) → q' x ≡ true → q x ≡ true)
      → (xs : List A) → count q' (update_where p f xs) ≤ count q xs + count p xs
  count-update_where_add q q' p f mono [] = omega arith
  count-update_where_add q q' p f mono (x ∷ xs) =
      let ih = count-update_where_add q q' p f mono xs in
      elim (Bool-cases (p x)) [
        | inl e ↦ rw e (ground (arith, ih))
        | inr e ↦ rw e (ground (arith, ih, mono x))
      ]

  pub count-le :
      (q q' : A → Bool)
      → ((x : A) → q' x ≡ true → q x ≡ true)
      → (xs : List A) → count q' xs ≤ count q xs
  count-le q q' mono [] = omega arith
  count-le q q' mono (x ∷ xs) = ground (arith, count-le q q' mono xs, mono x)

  pub All-unit : (xs : List A) → All (λ _. Unit {0}) xs
  All-unit [] = tt
  All-unit (x ∷ xs) = (tt, All-unit xs)

  pub All-map {κ κ'} :
      {P : A → Type κ} {Q : A → Type κ'} (f : (x : A) → P x → Q x) (xs : List A)
      → All P xs
      → All Q xs
  All-map f [] h = tt
  All-map f (x ∷ xs) h = (f x h.0, All-map f xs h.1)

  pub All-zip {κ κ' κ''} :
      {P : A → Type κ} {Q : A → Type κ'} {R : A → Type κ''} (f : (x : A) → P x → Q x → R x)
      (xs : List A)
      → All P xs
      → All Q xs
      → All R xs
  All-zip f [] h k = tt
  All-zip f (x ∷ xs) h k = (f x h.0 k.0, All-zip f xs h.1 k.1)

  pub All-of_mem {κ} : (P : A → Type κ) {x : A} {xs : List A} → Memᴰ x xs → All P xs → P x
  All-of_mem P (Memᴰ.head e) h = subst P (sym e) h.0
  All-of_mem P (Memᴰ.tail m) h = All-of_mem P m h.1

  pub select_where-All {κ} :
      (P : A → Type κ) (p : A → Bool) (xs : List A) → All P xs → All P (select_where p xs)
  select_where-All P p [] h = tt
  select_where-All P p (x ∷ xs) h = elim (Bool-cases (p x)) [
    | inl e ↦ rw e (h.0, select_where-All P p xs h.1)
    | inr e ↦ rw e (select_where-All P p xs h.1)
  ]

  pub select_where-picked : (p : A → Bool) (xs : List A) → All (λ x. p x ≡ true) (select_where p xs)
  select_where-picked p [] = tt
  select_where-picked p (x ∷ xs) = elim (Bool-cases (p x)) [
    | inl e ↦ rw e (e, select_where-picked p xs)
    | inr e ↦ rw e (select_where-picked p xs)
  ]

  pub count-pos : {x : A} {xs : List A} (p : A → Bool) → Memᴰ x xs → p x ≡ true → 0 < count p xs
  count-pos p (Memᴰ.head e) h = ground arith
  count-pos p (Memᴰ.tail m) h = ground (arith, count-pos p m h)

  pub count_zero-All : (p : A → Bool) (xs : List A) → count p xs ≡ 0 → All (λ x. p x ≡ false) xs
  count_zero-All p [] h = tt
  count_zero-All p (x ∷ xs) h = (ground arith, count_zero-All p xs (ground arith))

  pub All-count_zero : (p : A → Bool) (xs : List A) → All (λ x. p x ≡ false) xs → count p xs ≡ 0
  All-count_zero p [] h = refl
  All-count_zero p (x ∷ xs) h = rw (h.0) (All-count_zero p xs h.1)

  -- If at most one row is picked and a given row is, every other row is not.
  pub only_row :
      (p : A → Bool) (x : A) (xs : List A)
      → Memᴰ x xs
      → p x ≡ true
      → count p xs ≤ 1
      → All (λ y. (p y ≡ false) ⊎ (y ≡ x)) xs
  only_row p x [] m h c = elim m [ ]
  only_row p x (y ∷ ys) (Memᴰ.head e) h c =
      let q : p y ≡ true = rw (← e) h in
      let none_left : count p ys ≡ 0 = ground arith in
      (inr (sym e), All-map (λ z k. inl k) ys (count_zero-All p ys none_left))
  only_row p x (y ∷ ys) (Memᴰ.tail m) h c =
      let some_left : 0 < count p ys = count-pos p m h in
      (inl (ground arith), only_row p x ys m h (ground arith))

  pub All-mem : (xs : List A) → All (λ x. Memᴰ x xs) xs
  All-mem [] = tt
  All-mem (x ∷ xs) = (Memᴰ.head refl, All-map (λ y m. Memᴰ.tail m) xs (All-mem xs))

  pub update_where-mem :
      (p : A → Bool) (f : A → A) {x : A} (xs : List A)
      → Memᴰ x xs
      → p x ≡ true
      → Memᴰ (f x) (update_where p f xs)
  update_where-mem p f [] m h = elim m [ ]
  update_where-mem p f (y ∷ ys) (Memᴰ.head e) h = Memᴰ.head (rw (← e, h) refl)
  update_where-mem p f (y ∷ ys) (Memᴰ.tail m) h = Memᴰ.tail (update_where-mem p f ys m h)

  pub update_where-mem_other :
      (p : A → Bool) (f : A → A) {x : A} (xs : List A)
      → Memᴰ x xs
      → p x ≡ false
      → Memᴰ x (update_where p f xs)
  update_where-mem_other p f [] m h = elim m [ ]
  update_where-mem_other p f (y ∷ ys) (Memᴰ.head e) h = Memᴰ.head (rw (← e, h) refl)
  update_where-mem_other p f (y ∷ ys) (Memᴰ.tail m) h =
      Memᴰ.tail (update_where-mem_other p f ys m h)
