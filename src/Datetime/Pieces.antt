-- ===== src/Datetime/Pieces.antt =====
-- The regular expressions of `parseHTTPDate`, as the pieces they are made of, and the matching of a
-- whole text. What a match captures is read as a number at once: a name by its position in its
-- table, as `indexOf` does, and digits as `parseInt` does. Printing by the same pieces is the writer.
use http_rfc_utils.Common.{
  ℕ, zero, suc, ◌+◌, ◌-◌, ◌*◌, ◌/◌, ◌%◌, ◌&&◌, ◌||◌, List, [], ◌∷◌, ◌++◌, Option, none, some, ◌==◌,
  if◌then◌else◌,
}
use http_rfc_utils.Text.{Text, is_digit, strip_prefix}

pub data Piece : Type 0 where
  literal : Text → Piece
  digits : ℕ → Piece
  name : List Text → Piece
  spaced : Piece
  one_of : Text → Piece

-- Exactly so many digits, behind those that were read as `value`.
unfoldable pub read_digits : ℕ → ℕ → Text → Option (ℕ × Text)
read_digits zero value s = some (value, s)
read_digits (suc n) value [] = none
read_digits (suc n) value (c ∷ s) =
    let rest = read_digits n (value * 10 + (c - b'0')) s in if is_digit c then rest else none

-- The first of the names that the text begins with, with its position from `index` on.
unfoldable pub read_name : ℕ → List Text → Text → Option (ℕ × Text)
read_name index [] s = none
read_name index (n ∷ ns) s =
    let later = read_name (suc index) ns s in
    elim (strip_prefix n s) [ some rest ↦ some (index, rest) | none ↦ later ]

-- `[ \d]\d`
unfoldable pub read_spaced : Text → Option (ℕ × Text)
read_spaced [] = none
read_spaced (c ∷ []) = none
read_spaced (c ∷ d ∷ s) =
    if (c == b' ' || is_digit c) && is_digit d
    then some ((if c == b' ' then 0 else (c - b'0') * 10) + (d - b'0'), s)
    else none

-- One of the characters, by its position.
unfoldable pub read_one_of : ℕ → Text → Text → Option (ℕ × Text)
read_one_of index cs [] = none
read_one_of index [] (d ∷ s) = none
read_one_of index (c ∷ cs) (d ∷ s) =
    let later = read_one_of (suc index) cs (d ∷ s) in if c == d then some (index, s) else later

-- The text behind the piece, and the number that it captures, but for a literal.
unfoldable pub read_piece : Piece → Text → Option (List ℕ × Text)
read_piece (literal l) s = elim (strip_prefix l s) [ some rest ↦ some ([], rest) | none ↦ none ]
read_piece (digits n) s = elim (read_digits n 0 s) [
  | some (v, rest) ↦ some (v ∷ [], rest)
  | none ↦ none
]
read_piece (name ns) s = elim (read_name 0 ns s) [
  | some (v, rest) ↦ some (v ∷ [], rest)
  | none ↦ none
]
read_piece (one_of cs) s = elim (read_one_of 0 cs s) [
  | some (v, rest) ↦ some (v ∷ [], rest)
  | none ↦ none
]
read_piece spaced s = elim (read_spaced s) [ some (v, rest) ↦ some (v ∷ [], rest) | none ↦ none ]

-- The pieces, one behind the other, and the text behind them.
unfoldable pub read_front : List Piece → Text → Option (List ℕ × Text)
read_front [] s = some ([], s)
read_front (p ∷ ps) s = elim (read_piece p s) [
  | none ↦ none
  | some (vs, rest) ↦ elim (read_front ps rest) [
    | none ↦ none
    | some (ws, behind) ↦ some (vs ++ ws, behind)
  ]
]

-- Nothing is left.
abbrev pub whole : Option (List ℕ × Text) → Option (List ℕ)
whole none = none
whole (some (vs, [])) = some vs
whole (some (vs, c ∷ s)) = none

-- The whole text is the pieces.
unfoldable pub read_pieces : List Piece → Text → Option (List ℕ)
read_pieces ps s = whole (read_front ps s)

-- The last so many digits of a number, with zeros in front.
unfoldable pub print_digits : ℕ → ℕ → Text
print_digits zero v = []
print_digits (suc n) v = print_digits n (v / 10) ++ (b'0' + v % 10) ∷ []

unfoldable pub name_at : List Text → ℕ → Text
name_at [] index = []
name_at (n ∷ ns) zero = n
name_at (n ∷ ns) (suc index) = name_at ns index

unfoldable pub unit_at : Text → ℕ → Text
unit_at [] index = []
unit_at (c ∷ cs) zero = c ∷ []
unit_at (c ∷ cs) (suc index) = unit_at cs index

unfoldable pub print_pieces : List Piece → List ℕ → Text
print_pieces [] vs = []
print_pieces (literal l ∷ ps) vs = l ++ print_pieces ps vs
print_pieces (p ∷ ps) [] = []
print_pieces (digits n ∷ ps) (v ∷ vs) = print_digits n v ++ print_pieces ps vs
print_pieces (name ns ∷ ps) (v ∷ vs) = name_at ns v ++ print_pieces ps vs
print_pieces (one_of cs ∷ ps) (v ∷ vs) = unit_at cs v ++ print_pieces ps vs
print_pieces (spaced ∷ ps) (v ∷ vs) =
    (if v / 10 == 0 then b' ' else b'0' + v / 10) ∷ (b'0' + v % 10) ∷ print_pieces ps vs
