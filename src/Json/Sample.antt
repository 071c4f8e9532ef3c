-- ===== src/Json/Sample.antt =====
-- A concrete JSON document type that meets the interface: finite trees with integers, whose objects
-- are association lists.
pub mod Numbers
use Prim.Native.Nat.{◌/◌}
use Prim.Native.String.{◌++◌}
use beampipe_core_v.Common.{
  ℕ, eqb, ltb, ◌%◌, zero, suc, String, ◌≡◌, refl, Bool, Option, none, some, List, [], ◌∷◌, ◌==◌,
  eq_iff, arith, true, false, if◌then◌else◌,
}
use beampipe_core_v.Common.Int.{ℤ, pos, negsuc}
use beampipe_core_v.Json.{Json, Shape}

mutual
  pub data Tree : Type 0 where
    null : Tree
    bool : Bool → Tree
    int : ℤ → Tree
    text : String → Tree
    array : Trees → Tree
    object : Members → Tree

  pub data Trees : Type 0 where
    nil : Trees
    cons : Tree → Trees → Trees

  pub data Members : Type 0 where
    end : Members
    member : String → Tree → Members → Members

abbrev items : Trees → List Tree
items nil = []
items (cons t ts) = t ∷ items ts

abbrev trees : List Tree → Trees
trees [] = nil
trees (t ∷ ts) = cons t (trees ts)

items-trees : (ts : List Tree) → items (trees ts) ≡ ts
items-trees [] = refl
items-trees (t ∷ ts) = rw (items-trees ts)

abbrev lookup : String → Members → Option Tree
lookup k end = none
lookup k (member j t m) = let rest = lookup k m in if j == k then some t else rest

abbrev pub put : String → Tree → Members → Members
put k v end = member k v end
put k v (member j t m) = let rest = put k v m in if j == k then member j v m else member j t rest

abbrev pub without : String → Members → Members
without k end = end
without k (member j t m) = let rest = without k m in if j == k then rest else member j t rest

abbrev members : Members → List (String × Tree)
members end = []
members (member k t m) = (k, t) ∷ members m

pub lookup-put :
    (k j : String) (v : Tree) (m : Members)
    → lookup j (put k v m) ≡ (if k == j then some v else lookup j m)
lookup-put k j v end = refl
lookup-put k j v (member i t m) =
    ground (arith, eq_iff k j, eq_iff i k, eq_iff i j, lookup-put k j v m)

pub lookup-without :
    (k j : String) (m : Members) → lookup j (without k m) ≡ (if k == j then none else lookup j m)
lookup-without k j end = ground arith
lookup-without k j (member i t m) =
    ground (arith, eq_iff k j, eq_iff i k, eq_iff i j, lookup-without k j m)

abbrev view : Tree → Shape Tree Members ℤ
view null = Shape.null
view (bool b) = Shape.bool b
view (int n) = Shape.number n
view (text s) = Shape.string s
view (array ts) = Shape.array (items ts)
view (object m) = Shape.object m

abbrev of : Shape Tree Members ℤ → Tree
of Shape.null = null
of (Shape.bool b) = bool b
of (Shape.number n) = int n
of (Shape.string s) = text s
of (Shape.array ts) = array (trees ts)
of (Shape.object m) = object m

pub view-of : (s : Shape Tree Members ℤ) → view (of s) ≡ s
view-of Shape.null = refl
view-of (Shape.bool b) = refl
view-of (Shape.number n) = refl
view-of (Shape.string s) = refl
view-of (Shape.array ts) = rw (items-trees ts)
view-of (Shape.object m) = refl

abbrev is_nonzero : ℤ → Bool
is_nonzero (pos n) = elim n [ zero ↦ false | suc _ ↦ true ]
is_nonzero (negsuc n) = true

-- The decimal digits of a number, and the text of an integer.
abbrev digit : ℕ → String
digit n =
    if eqb n 0
    then "0"
    else if eqb n 1
    then "1"
    else if eqb n 2
    then "2"
    else if eqb n 3
    then "3"
    else if eqb n 4
    then "4"
    else if eqb n 5
    then "5"
    else if eqb n 6
    then "6"
    else if eqb n 7
    then "7"
    else if eqb n 8
    then "8"
    else "9"

pub decimal : ℕ → ℕ → String
decimal zero n = digit n
decimal (suc fuel) n =
    let front = decimal fuel (n / 10) in if ltb n 10 then digit n else front ++ digit (n % 10)

unfoldable pub integer_text : ℤ → String
unfolding decimal
integer_text (pos n) = decimal 20 n
integer_text (negsuc n) = "-" ++ decimal 20 (suc n)

abbrev pub sample : Json
sample = record {
  Value = Tree;
  Map = Members;
  Number = ℤ;
  view = view;
  of = of;
  view-of = view-of;
  empty = end;
  get = lookup;
  insert = put;
  remove = without;
  get-empty = λ k. refl;
  get-insert = lookup-put;
  get-remove = lookup-without;
  entries = members;
  number_text = integer_text;
  as_i64 = λ n. some n;
  of_i64 = λ n. n;
  as_i64-of_i64 = λ n. refl;
  is_nonzero = is_nonzero;
}
