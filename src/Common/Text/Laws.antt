-- ===== src/Common/Text/Laws.antt =====
-- Laws of the text functions: what a trimmed text is, and splitting a text at its first separator.
use Prim.Native.Char.{Char, code}
use Prim.Native.String.{String, [], ◌∷◌, ◌++◌}
use text.Mathlib.TextLemmas.{nil-append, cons-append}
use Prim.Native.Nat.{ℕ}
use mathlib.Core.Path.{◌≡◌, refl}
use mathlib.Core.Bool.{Bool, true, false}
use mathlib.Core.Logic.{◌⊎◌, inl, inr}
use mathlib.Core.Option.{none, some}
use native.Mathlib.Omega.{arith}
use beampipe_core_v.Common.Text.{
  is_empty, is_whitespace, trim_start, before_trimmed, trim_end, trim, contains, split_once,
}

-- A text that starts with no white space, and one that ends with none, both not empty.
abbrev pub StartsSolid : String → Type 0
StartsSolid [] = ⊥
StartsSolid (c ∷ s) = is_whitespace (code c) ≡ false

abbrev pub EndsSolid : String → Type 0
EndsSolid s = (is_empty s ≡ false) × (trim_end s ≡ s)

pub trim_start-append : (a b : String) → StartsSolid a → trim_start (a ++ b) ≡ a ++ b
unfolding trim_start
trim_start-append [] b h = absurd h
trim_start-append (c ∷ a) b h = rw cons-append (ground arith)

before_trimmed_keep : (c : Char) (s : String) → is_empty s ≡ false → before_trimmed c s ≡ c ∷ s
unfolding before_trimmed
before_trimmed_keep c [] h = cc
before_trimmed_keep c (d ∷ s) h = refl

pub is_empty-append : (a b : String) → is_empty b ≡ false → is_empty (a ++ b) ≡ false
is_empty-append [] b h = rw nil-append h
is_empty-append (c ∷ a) b h = rw cons-append refl

pub trim_end-append : (a b : String) → EndsSolid b → trim_end (a ++ b) ≡ a ++ b
unfolding trim_end
trim_end-append [] b h = rw nil-append h.1
trim_end-append (c ∷ a) b h =
    rw (cons-append, trim_end-append a b h)
      (before_trimmed_keep c (a ++ b) (is_empty-append a b h.0))

trim_start-solid : (s : String) → StartsSolid s → trim_start s ≡ s
unfolding trim_start
trim_start-solid [] h = refl
trim_start-solid (c ∷ s) h = ground arith

-- White space at neither end: such a text is left as it is.
pub trim-solid : (s : String) → StartsSolid s → EndsSolid s → trim s ≡ s
unfolding trim
trim-solid s h k = rw k.1 (trim_start-solid s h)

-- The first separator splits a text where the part before it holds none.
pub split_once-append :
    (k : ℕ) (a b : String) (c : Char)
    → contains k a ≡ false
    → code c ≡ k
    → split_once k (a ++ ((c ∷ []) ++ b)) ≡ some (a, b)
unfolding contains split_once
split_once-append k [] b c h e = rw (nil-append, cons-append, nil-append) (ground arith)
split_once-append k (d ∷ a) b c h e = rw cons-append (ground (arith, split_once-append k a b c))

pub split_once-none : (k : ℕ) (s : String) → contains k s ≡ false → split_once k s ≡ none
unfolding contains split_once
split_once-none k [] h = refl
split_once-none k (c ∷ s) h = ground (arith, split_once-none k s)

bool_cases : (b : Bool) → (b ≡ true) ⊎ (b ≡ false)
bool_cases true = inl refl
bool_cases false = inr refl

trim_end-cons : (c : Char) (s : String) → trim_end (c ∷ s) ≡ before_trimmed c (trim_end s)
unfolding trim_end
trim_end-cons c s = refl

before_trimmed-space : (c : Char) → is_whitespace (code c) ≡ true → before_trimmed c [] ≡ []
unfolding before_trimmed
before_trimmed-space c e = rw (e, before_trimmed) refl

before_trimmed-solid : (c : Char) → is_whitespace (code c) ≡ false → before_trimmed c [] ≡ c ∷ []
unfolding before_trimmed
before_trimmed-solid c e = rw (e, before_trimmed) refl

trim_end-nil : trim_end [] ≡ []
unfolding trim_end
trim_end-nil = refl

before_trimmed_idem :
    (c : Char) (s : String) → trim_end s ≡ s → trim_end (before_trimmed c s) ≡ before_trimmed c s
before_trimmed_idem c [] h = elim (bool_cases (is_whitespace (code c))) [
  | inl e ↦ simp (before_trimmed-space c e, trim_end-nil)
  | inr e ↦ simp (before_trimmed-solid c e, trim_end-cons, trim_end-nil)
]
before_trimmed_idem c (d ∷ s) h =
    rw (before_trimmed_keep c (d ∷ s) refl, trim_end-cons, h) (before_trimmed_keep c (d ∷ s) refl)

-- Trimming the end of a text twice is trimming it once.
trim_end_idem : (s : String) → trim_end (trim_end s) ≡ trim_end s
trim_end_idem [] = rw trim_end-nil trim_end-nil
trim_end_idem (c ∷ s) = rw trim_end-cons (before_trimmed_idem c (trim_end s) (trim_end_idem s))

-- A tail of a text whose end is trimmed is one, too.
tail_of : (c : Char) (t s : String) → before_trimmed c t ≡ c ∷ s → t ≡ s
tail_of c [] s h = elim (bool_cases (is_whitespace (code c))) [
  | inl e ↦ let k = before_trimmed-space c e in cc
  | inr e ↦ let k = before_trimmed-solid c e in cc
]
tail_of c (d ∷ t) s h = let k = before_trimmed_keep c (d ∷ t) refl in cc

tail_trimmed : (c : Char) (s : String) → trim_end (c ∷ s) ≡ c ∷ s → trim_end s ≡ s
tail_trimmed c s h = tail_of c (trim_end s) s (rw trim_end-cons at h)

trim_end-trim_start : (s : String) → trim_end s ≡ s → trim_end (trim_start s) ≡ trim_start s
unfolding trim_start
trim_end-trim_start [] h = h
trim_end-trim_start (c ∷ s) h = elim (bool_cases (is_whitespace (code c))) [
  | inl e ↦ rw (e, trim_start) (trim_end-trim_start s (tail_trimmed c s h))
  | inr e ↦ rw (e, trim_start) h
]

trim_start_idem : (s : String) → trim_start (trim_start s) ≡ trim_start s
unfolding trim_start
trim_start_idem [] = refl
trim_start_idem (c ∷ s) = ground (arith, trim_start_idem s)

-- Trimming twice is trimming once.
pub trim_idem : (s : String) → trim (trim s) ≡ trim s
unfolding trim
trim_idem s = rw (trim_end-trim_start (trim_end s) (trim_end_idem s)) (trim_start_idem (trim_end s))
