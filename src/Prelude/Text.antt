-- ===== src/Prelude/Text.antt =====
-- Python's `str` as the list of its code points, with the methods that the program uses on ASCII
-- texts.
use ratan_engine.Prelude.{
  ℕ, ◌+◌, ◌-◌, ◌*◌, Bool, true, false, ◌&&◌, ◌||◌, Option, none, some, List, [], ◌∷◌, leb, ◌==◌,
  if◌then◌else◌,
}
use mathlib.Core.List.{reverse}

abbrev pub Text : Type 0
Text = List ℕ

-- `s == t`
unfoldable pub same_text : Text → Text → Bool
same_text [] [] = true
same_text [] (d ∷ t) = false
same_text (c ∷ s) [] = false
same_text (c ∷ s) (d ∷ t) = c == d && same_text s t

-- `chr(c) in s`
unfoldable pub has_char : ℕ → Text → Bool
has_char c [] = false
has_char c (d ∷ s) = if d == c then true else has_char c s

-- A character before the first of some texts
abbrev pub onto_first : ℕ → List Text → List Text
onto_first c [] = (c ∷ []) ∷ []
onto_first c (s ∷ rest) = (c ∷ s) ∷ rest

-- `s.split(chr(c))`
unfoldable pub split : ℕ → Text → List Text
split c [] = [] ∷ []
split c (d ∷ s) = let rest = split c s in if d == c then [] ∷ rest else onto_first d rest

-- `c.isspace()` of an ASCII character
unfoldable pub is_space : ℕ → Bool
is_space c = (leb 9 c && leb c 13) || (leb 28 c && leb c 32)

unfoldable pub strip_left : Text → Text
strip_left [] = []
strip_left (c ∷ s) = if is_space c then strip_left s else c ∷ s

-- `s.strip()`
unfoldable pub strip : Text → Text
strip s = reverse (strip_left (reverse (strip_left s)))

unfoldable pub is_digit : ℕ → Bool
is_digit c = leb 48 c && leb c 57

-- Digits, with single underscores between them. The flag says whether a digit came last.
unfoldable pub parse_digits : ℕ → Bool → Text → Option ℕ
parse_digits value after_digit [] = if after_digit then some value else none
parse_digits value after_digit (c ∷ s) =
    let rest = parse_digits (if is_digit c then value * 10 + (c - 48) else value) (is_digit c) s in
    if is_digit c || (c == 95 && after_digit) then rest else none

-- After the sign, which may be a plus
unfoldable pub parse_unsigned : Text → Option ℕ
parse_unsigned [] = none
parse_unsigned (c ∷ s) = if c == 43 then parse_digits 0 false s else parse_digits 0 false (c ∷ s)

-- `int(s)` of a text without a minus; `none` is ValueError.
unfoldable pub parse_int : Text → Option ℕ
parse_int s = parse_unsigned (strip s)
