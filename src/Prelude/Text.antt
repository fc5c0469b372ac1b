-- ===== src/Prelude/Text.antt =====
-- Text as the list of its bytes, and what the program uses of Rust's `str`.
use Prim.Native.Char.{code}
use Prim.Native.String.{String}
use newppp.Prelude.Tests.{leb, ◌==◌, if◌then◌else◌}
use newppp.Prelude.Lists.{length, take, drop, bytes_eq}
use Prim.Native.Nat.{ℕ, zero, suc, ◌+◌, ◌-◌, ◌*◌}
use mathlib.Core.Bool.{Bool, true, false, ◌&&◌, ◌||◌}
use mathlib.Core.List.{List, [], ◌∷◌, reverse}
use mathlib.Core.Option.{Option, none, some}

-- The bytes of an ASCII literal.
abbrev pub text : String → List ℕ
text String.[] = []
text (String.◌∷◌ c s) = code c ∷ text s

abbrev pub starts_with : List ℕ → List ℕ → Bool
starts_with p s = bytes_eq (take (length p) s) p

abbrev pub strip_prefix : List ℕ → List ℕ → Option (List ℕ)
strip_prefix p s = if starts_with p s then some (drop (length p) s) else none

unfoldable pub contains : ℕ → List ℕ → Bool
contains c [] = false
contains c (d ∷ s) = (d == c) || contains c s

-- `s.split_once(sep)`.
abbrev before : ℕ → Option (List ℕ × List ℕ) → Option (List ℕ × List ℕ)
before c none = none
before c (some (l, r)) = some (c ∷ l, r)

unfoldable pub split_once : ℕ → List ℕ → Option (List ℕ × List ℕ)
split_once sep [] = none
split_once sep (c ∷ s) =
    let rest = split_once sep s in if c == sep then some ([], s) else before c rest

-- Characters that `char::is_whitespace` holds of, in UTF-8: how many bytes the one at the head has.
ascii_space : ℕ → Bool
ascii_space c = (leb 9 c && leb c 13) || (c == 32)

space3 : ℕ → ℕ → ℕ → Bool
space3 a b c =
    ((a == 0xE1) && (b == 0x9A) && (c == 0x80))
    || ((a == 0xE2)
        && (b == 0x80)
        && ((leb 0x80 c && leb c 0x8A) || (c == 0xA8) || (c == 0xA9) || (c == 0xAF)))
    || ((a == 0xE2) && (b == 0x81) && (c == 0x9F))
    || ((a == 0xE3) && (b == 0x80) && (c == 0x80))

space2 : ℕ → ℕ → Bool
space2 a b = (a == 0xC2) && ((b == 0x85) || (b == 0xA0))

space_width : List ℕ → ℕ
unfolding ascii_space space2 space3
space_width (a ∷ b ∷ c ∷ s) =
    if ascii_space a then 1 else if space2 a b then 2 else if space3 a b c then 3 else 0
space_width (a ∷ b ∷ []) = if ascii_space a then 1 else if space2 a b then 2 else 0
space_width (a ∷ []) = if ascii_space a then 1 else 0
space_width [] = 0

-- The same at the end of a text, given backwards.
space_width_back : List ℕ → ℕ
unfolding ascii_space space2 space3
space_width_back (a ∷ b ∷ c ∷ s) =
    if ascii_space a then 1 else if space2 b a then 2 else if space3 c b a then 3 else 0
space_width_back (a ∷ b ∷ []) = if ascii_space a then 1 else if space2 b a then 2 else 0
space_width_back (a ∷ []) = if ascii_space a then 1 else 0
space_width_back [] = 0

-- `inside` bytes of a white space character are still to be skipped.
skip_spaces : (List ℕ → ℕ) → ℕ → List ℕ → List ℕ
skip_spaces width inside [] = []
skip_spaces width (suc inside) (c ∷ s) = skip_spaces width inside s
skip_spaces width zero (c ∷ s) = elim (width (c ∷ s)) [
  | zero ↦ c ∷ s
  | suc more ↦ skip_spaces width more s
]

unfoldable pub trim_start : List ℕ → List ℕ
unfolding skip_spaces space_width
trim_start s = skip_spaces space_width 0 s

unfoldable pub trim_end : List ℕ → List ℕ
unfolding skip_spaces space_width_back
trim_end s = reverse (skip_spaces space_width_back 0 (reverse s))

unfoldable pub trim : List ℕ → List ℕ
unfolding trim_start trim_end
trim s = trim_end (trim_start s)

-- `s.lines()`; `line` is the line so far, backwards.
without_cr : List ℕ → List ℕ
without_cr [] = []
without_cr (c ∷ s) = if c == b'\r' then s else c ∷ s

lines_from : List ℕ → List ℕ → List (List ℕ)
unfolding without_cr
lines_from [] [] = []
lines_from (c ∷ line) [] = reverse (c ∷ line) ∷ []
lines_from line (c ∷ s) = elim (c == b'\n') [
  | true ↦ reverse (without_cr line) ∷ lines_from [] s
  | false ↦ lines_from (c ∷ line) s
]

unfoldable pub lines : List ℕ → List (List ℕ)
unfolding lines_from
lines s = lines_from [] s

-- `s.split_whitespace()`; `word` is the word so far, backwards, and `inside` as in `skip_spaces`.
flush : List ℕ → List (List ℕ) → List (List ℕ)
flush [] rest = rest
flush (c ∷ word) rest = reverse (c ∷ word) ∷ rest

words_from : ℕ → List ℕ → List ℕ → List (List ℕ)
unfolding flush space_width
words_from inside word [] = flush word []
words_from (suc inside) word (c ∷ s) = words_from inside word s
words_from zero word (c ∷ s) = elim (space_width (c ∷ s)) [
  | zero ↦ words_from zero (c ∷ word) s
  | suc more ↦ flush word (words_from more [] s)
]

unfoldable pub split_words : List ℕ → List (List ℕ)
unfolding words_from
split_words s = words_from 0 [] s

-- `s.split(sep)`.
head_onto : ℕ → List (List ℕ) → List (List ℕ)
head_onto c [] = (c ∷ []) ∷ []
head_onto c (w ∷ ws) = (c ∷ w) ∷ ws

unfoldable pub split_all : ℕ → List ℕ → List (List ℕ)
unfolding head_onto
split_all sep [] = [] ∷ []
split_all sep (c ∷ s) =
    let rest = split_all sep s in if c == sep then [] ∷ rest else head_onto c rest

unfoldable pub ends_with : ℕ → List ℕ → Bool
ends_with c [] = false
ends_with c (d ∷ []) = d == c
ends_with c (d ∷ e ∷ s) = ends_with c (e ∷ s)

-- Decimal digits, at least one, as a number.
digits_onto : ℕ → List ℕ → Option ℕ
digits_onto n [] = some n
digits_onto n (c ∷ s) =
    let rest = digits_onto (n * 10 + (c - b'0')) s in
    if leb b'0' c && leb c b'9' then rest else none

unfoldable pub parse_digits : List ℕ → Option ℕ
unfolding digits_onto
parse_digits [] = none
parse_digits (c ∷ s) = digits_onto 0 (c ∷ s)
