-- ===== src/Common/Text.antt =====
-- What the source uses of Rust's `str` and `char`, over native texts (lists of characters).
-- The length of a `str` in bytes is `len` of the native texts.
pub mod Laws
use Prim.Native.Char.{Char, code}
use Prim.Native.Nat.{ℕ, compare, Ordering}
use Prim.Native.String.{String, [], ◌∷◌, ◌++◌}
use mathlib.Core.Bool.{Bool, true, false, ◌&&◌, ◌||◌}
use mathlib.Core.List.{List}
use mathlib.Core.Option.{Option, none, some}

abbrev leb : ℕ → ℕ → Bool
leb a b = elim (compare a b) [ Ordering.gt ↦ false | _ ↦ true ]

abbrev code_eq : ℕ → ℕ → Bool
code_eq a b = elim (compare a b) [ Ordering.eq ↦ true | _ ↦ false ]

abbrev pub is_empty : String → Bool
is_empty [] = true
is_empty (c ∷ s) = false

-- `char::is_whitespace`: the code points with the property White_Space.
unfoldable pub is_whitespace : ℕ → Bool
is_whitespace c =
    leb 0x9 c && leb c 0xd
    || code_eq c 0x20
    || code_eq c 0x85
    || code_eq c 0xa0
    || code_eq c 0x1680
    || leb 0x2000 c && leb c 0x200a
    || code_eq c 0x2028
    || code_eq c 0x2029
    || code_eq c 0x202f
    || code_eq c 0x205f
    || code_eq c 0x3000

-- `str::trim_start`, `str::trim_end` and `str::trim`.
pub trim_start : String → String
unfolding is_whitespace
trim_start [] = []
trim_start (c ∷ s) = elim (is_whitespace (code c)) [ true ↦ trim_start s | false ↦ c ∷ s ]

-- A character before a text whose end is trimmed.
before_trimmed : Char → String → String
unfolding is_whitespace
before_trimmed c [] = elim (is_whitespace (code c)) [ true ↦ [] | false ↦ c ∷ [] ]
before_trimmed c (d ∷ s) = c ∷ d ∷ s

unfoldable pub trim_end : String → String
unfolding before_trimmed
trim_end [] = []
trim_end (c ∷ s) = before_trimmed c (trim_end s)

unfoldable pub trim : String → String
unfolding trim_start trim_end
trim s = trim_start (trim_end s)

-- `str::contains` and `str::split_once` at a character.
unfoldable pub contains : ℕ → String → Bool
contains k [] = false
contains k (c ∷ s) = code_eq (code c) k || contains k s

abbrev cons_first : Char → Option (String × String) → Option (String × String)
cons_first c none = none
cons_first c (some (before, after)) = some (c ∷ before, after)

unfoldable pub split_once : ℕ → String → Option (String × String)
split_once k [] = none
split_once k (c ∷ s) =
    let rest = cons_first c (split_once k s) in
    elim (code_eq (code c) k) [ true ↦ some ([], s) | false ↦ rest ]

-- `str::split` at a character: the parts between its occurrences, at least one.
abbrev cons_head : Char → List String → List String
cons_head c List.[] = List.◌∷◌ (c ∷ []) List.[]
cons_head c (List.◌∷◌ part parts) = List.◌∷◌ (c ∷ part) parts

unfoldable pub split : ℕ → String → List String
split k [] = List.◌∷◌ [] List.[]
split k (c ∷ s) =
    let parts = split k s in
    elim (code_eq (code c) k) [ true ↦ List.◌∷◌ [] parts | false ↦ cons_head c parts ]

-- The characters of a text up to the first white space.
word : String → String
unfolding is_whitespace
word [] = []
word (c ∷ s) = elim (is_whitespace (code c)) [ true ↦ [] | false ↦ c ∷ word s ]

-- `str::split_whitespace().next()`.
unfoldable pub first_word : String → Option String
unfolding trim_start word
first_word s = elim (trim_start s) [ [] ↦ none | c ∷ r ↦ some (word (c ∷ r)) ]

-- `str::starts_with`.
unfoldable pub starts_with : String → String → Bool
starts_with s [] = true
starts_with [] (d ∷ prefix) = false
starts_with (c ∷ s) (d ∷ prefix) = code_eq (code c) (code d) && starts_with s prefix

-- The character of `into` that stands where `c` stands in `from`, or `c`.
translate : String → String → Char → Char
translate (a ∷ from) (b ∷ into) c =
    let rest = translate from into c in elim (code_eq (code a) (code c)) [ true ↦ b | false ↦ rest ]
translate _ _ c = c

-- `char::to_ascii_uppercase`, and the method of the same name of `str`.
ascii_upper : Char → Char
unfolding translate
ascii_upper = translate "abcdefghijklmnopqrstuvwxyz" "ABCDEFGHIJKLMNOPQRSTUVWXYZ"

unfoldable pub to_ascii_uppercase : String → String
unfolding ascii_upper
to_ascii_uppercase [] = []
to_ascii_uppercase (c ∷ s) = ascii_upper c ∷ to_ascii_uppercase s

ascii_lower : Char → Char
unfolding translate
ascii_lower = translate "ABCDEFGHIJKLMNOPQRSTUVWXYZ" "abcdefghijklmnopqrstuvwxyz"

unfoldable pub to_ascii_lowercase : String → String
unfolding ascii_lower
to_ascii_lowercase [] = []
to_ascii_lowercase (c ∷ s) = ascii_lower c ∷ to_ascii_lowercase s

-- `str::contains` at a text.
unfoldable pub contains_text : String → String → Bool
unfolding starts_with
contains_text s [] = true
contains_text [] (d ∷ part) = false
contains_text (c ∷ s) (d ∷ part) =
    let rest = contains_text s (d ∷ part) in
    elim (starts_with (c ∷ s) (d ∷ part)) [ true ↦ true | false ↦ rest ]

-- `str::to_uppercase`. The Unicode mapping of the characters that are not ASCII is a parameter.
unfoldable pub to_uppercase : (Char → String) → String → String
unfolding ascii_upper
to_uppercase upper [] = []
to_uppercase upper (c ∷ s) = elim (leb (code c) 127) [
  | true ↦ ascii_upper c ∷ to_uppercase upper s
  | false ↦ upper c ++ to_uppercase upper s
]

-- `str::trim_end_matches` at a character.
before_matches : ℕ → Char → String → String
before_matches k c [] = elim (code_eq (code c) k) [ true ↦ [] | false ↦ c ∷ [] ]
before_matches k c (d ∷ s) = c ∷ d ∷ s

unfoldable pub trim_end_matches : ℕ → String → String
unfolding before_matches
trim_end_matches k [] = []
trim_end_matches k (c ∷ s) = before_matches k c (trim_end_matches k s)
