-- ===== src/JsonPointer.antt =====
-- json-pointer.ts: reading, writing and evaluating a JSON Pointer. Fragment has the conversions from
-- and to a URI fragment. Array indices are read exactly; where `parseInt` rounds, from 2 ^ 53
-- on, both numbers lie above every array's length.
pub mod Escape
pub mod RoundTrip
pub mod Grammar
pub mod Index
pub mod Evaluate
pub mod Fragment
mod Tests
use http_rfc_utils.Common.{
  ℕ, Bool, true, false, not, ◌&&◌, ◌||◌, List, [], ◌∷◌, ◌++◌, map, Option, none, some, ◌==◌, leb,
  all, if◌then◌else◌, get_elem?, length, ltb, is_some,
}
use http_rfc_utils.Text.{Text, codes, text_eq, split, join, is_digit, parse_int}
use http_rfc_utils.Json.{
  Value, undefined, null, bool, num, str, other, arr, obj, get, elems, has_own_key,
}

abbrev pub slash : ℕ
slash = b'/'

abbrev pub tilde : ℕ
tilde = b'~'

-- `s.replace(/ab/g, r)` for units `a`, `b` and `r`: left to right, without overlap.
unfoldable pub replace_pair : ℕ → ℕ → ℕ → Text → Text
replace_pair a b r [] = []
replace_pair a b r (c ∷ []) = c ∷ []
replace_pair a b r (c ∷ d ∷ s) = elim (c == a && d == b) [
  | true ↦ r ∷ replace_pair a b r s
  | false ↦ c ∷ replace_pair a b r (d ∷ s)
]

-- `s.replace(/a/g, r)` for a unit `a`.
pub replace_unit : ℕ → Text → Text → Text
replace_unit a r [] = []
replace_unit a r (c ∷ s) = (if c == a then r else c ∷ []) ++ replace_unit a r s

unfoldable pub decode_token : Text → Text
decode_token token = replace_pair tilde b'0' tilde (replace_pair tilde b'1' slash token)

pub encode_token : Text → Text
encode_token token = replace_unit slash (codes "~1") (replace_unit tilde (codes "~0") token)

-- Behind a `~` the next unit is tested and skipped; at the end of the token it is `undefined`.
unfoldable pub has_valid_escapes : Text → Bool
has_valid_escapes [] = true
has_valid_escapes (c ∷ []) = not (c == tilde)
has_valid_escapes (c ∷ next ∷ s) = elim (c == tilde) [
  | true ↦ (next == b'0' || next == b'1') && has_valid_escapes s
  | false ↦ has_valid_escapes (next ∷ s)
]

-- `/^[1-9][0-9]*$/`
unfoldable pub numeral : Text → Bool
unfolding is_digit
numeral [] = false
numeral (c ∷ s) = leb b'1' c && leb c b'9' && all is_digit s

unfoldable pub is_valid_array_index : Text → Bool
unfolding numeral
is_valid_array_index token =
    if text_eq token (codes "-")
    then true
    else if text_eq token []
    then false
    else if text_eq token (codes "0")
    then true
    else numeral token

-- The loop of `parseJsonPointer` over the raw tokens.
unfoldable pub decode_tokens : List Text → Option (List Text)
decode_tokens [] = some []
decode_tokens (raw ∷ rest) =
    if has_valid_escapes raw
    then elim (decode_tokens rest) [ none ↦ none | some ts ↦ some (decode_token raw ∷ ts) ]
    else none

unfoldable pub parse_json_pointer : Text → Option (List Text)
parse_json_pointer [] = some []
parse_json_pointer (c ∷ rest) = if c == slash then decode_tokens (split slash rest) else none

pub format_json_pointer : List Text → Text
format_json_pointer [] = []
format_json_pointer (t ∷ ts) = slash ∷ join slash (map encode_token (t ∷ ts))

unfoldable pub is_valid_json_pointer : Text → Bool
is_valid_json_pointer pointer = is_some (parse_json_pointer pointer)

-- One round of the loop of `evaluateJsonPointer`; `none` where it returns `undefined`.
unfoldable pub child : Value → Text → Option Value
unfolding elems get is_valid_array_index parse_int
child undefined token = none
child null token = none
child (arr xs) token =
    if text_eq token (codes "-")
    then none
    else if not (is_valid_array_index token)
    then none
    else get_elem? (elems xs) (parse_int token)
child (obj plain fs) token = get fs token
child (bool b) token = none
child (num n) token = none
child (str s) token = none
child (other n) token = none

unfoldable pub evaluate_from : Value → List Text → Value
unfolding child
evaluate_from current [] = current
evaluate_from current (token ∷ tokens) = elim (child current token) [
  | none ↦ undefined
  | some next ↦ evaluate_from next tokens
]

unfoldable pub evaluate_json_pointer : Text → Value → Value
evaluate_json_pointer pointer document = elim (parse_json_pointer pointer) [
  | none ↦ undefined
  | some tokens ↦ evaluate_from document tokens
]
