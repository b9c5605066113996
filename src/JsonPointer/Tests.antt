-- ===== src/JsonPointer/Tests.antt =====
-- Runs of json-pointer.ts, and its theorems at concrete inputs.
use http_rfc_utils.Common.{
  ℕ, ◌<◌, ◌%◌, map, none, All, arith, true, false, List, [], ◌∷◌, some, ◌≡◌, ◌≢◌, refl, ◌↔◌,
}
use http_rfc_utils.Text.{Text, codes}
use http_rfc_utils.Json.{Value, undefined, bool, str, arr, obj, nil, cons, end, field}
use http_rfc_utils.JsonPointer.{
  parse_json_pointer, format_json_pointer, is_valid_array_index, evaluate_json_pointer,
  decode_token, is_valid_json_pointer,
}
use http_rfc_utils.UriEncoding.RoundTrip.{IsUtf8}
use http_rfc_utils.JsonPointer.Fragment.{
  to_uri_fragment, from_uri_fragment, from_uri_fragment-to_uri_fragment,
}
use http_rfc_utils.JsonPointer.RoundTrip.{
  parse_json_pointer-format_json_pointer, format_json_pointer-parse_json_pointer,
}
use http_rfc_utils.JsonPointer.Grammar.{Pointer, parse_json_pointer_iff}
use http_rfc_utils.JsonPointer.Evaluate.{Resolves, evaluate_json_pointer_iff}
use http_rfc_utils.JsonPointer.{
  encode_token, decode_tokens, evaluate_from, replace_pair, replace_unit, has_valid_escapes,
}
use http_rfc_utils.Text.{text_eq, join, split}
use http_rfc_utils.UriEncoding.{
  ascii_allow_table, percent_encoded_byte, encode_rfc3986, hex_upper, decode_percent_component,
  decode_bytes, encode_byte, encode_bytes,
}
use http_rfc_utils.Text.{strip_prefix}

abbrev odd_tokens : List Text
odd_tokens = codes "a/b" ∷ codes "~1" ∷ [] ∷ []

-- {"a/b": ["x", {"": true}]}
abbrev document : Value
document = obj true (
    field (codes "a/b")
      (arr (cons (str (codes "x")) (cons (obj true (field [] (bool true) end)) nil))) end)

abbrev inner : Text
inner = codes "/a~1b/1/"

-- "~01" is the token "~1" and not "/".
decode_order : decode_token (codes "~01") ≡ codes "~1"
unfolding decode_token replace_pair
decode_order = refl

format_odd : format_json_pointer odd_tokens ≡ codes "/a~1b/~01/"
unfolding format_json_pointer join encode_token replace_unit
format_odd = refl

parse_odd : parse_json_pointer (codes "/a~1b/~01/") ≡ some odd_tokens
unfolding parse_json_pointer decode_tokens split has_valid_escapes decode_token replace_pair
parse_odd = refl

bad_escape :
    (is_valid_json_pointer (codes "/~2") ≡ false) × (is_valid_json_pointer (codes "a") ≡ false)
unfolding is_valid_json_pointer parse_json_pointer decode_tokens split has_valid_escapes
bad_escape = (refl, refl)

leading_zero : is_valid_array_index (codes "01") ≡ false
unfolding is_valid_array_index text_eq
leading_zero = refl

evaluate_inner : evaluate_json_pointer inner document ≡ bool true
unfolding evaluate_json_pointer parse_json_pointer decode_tokens split has_valid_escapes
    evaluate_from text_eq decode_token replace_pair
evaluate_inner = refl

parse_json_pointer-format_json_pointer_example :
    parse_json_pointer (format_json_pointer odd_tokens) ≡ some odd_tokens
parse_json_pointer-format_json_pointer_example = parse_json_pointer-format_json_pointer odd_tokens

format_json_pointer-parse_json_pointer_example : format_json_pointer odd_tokens ≡ codes "/a~1b/~01/"
format_json_pointer-parse_json_pointer_example =
    format_json_pointer-parse_json_pointer (codes "/a~1b/~01/") odd_tokens parse_odd

parse_json_pointer_iff_example :
    (parse_json_pointer (codes "/a~1b/~01/") ≡ some odd_tokens)
    ↔ Pointer (codes "/a~1b/~01/") odd_tokens
parse_json_pointer_iff_example = parse_json_pointer_iff (codes "/a~1b/~01/") odd_tokens

true-ne-undefined : bool true ≢ undefined
true-ne-undefined e = cc

evaluate_json_pointer_iff_example :
    (evaluate_json_pointer inner document ≡ bool true)
    ↔ ((tokens : List Text) × Pointer inner tokens × Resolves document tokens (bool true))
evaluate_json_pointer_iff_example =
    evaluate_json_pointer_iff inner document (bool true) true-ne-undefined

-- A codec that is right for ASCII.
abbrev low_bytes : Text → List ℕ
low_bytes = map (λ c. c % 256)

low_bytes-below : (s : Text) → All (λ b. b < 256) (low_bytes s)
low_bytes-below [] = tt
low_bytes-below (c ∷ s) = (omega arith, low_bytes-below s)

low_bytes-IsUtf8 : IsUtf8 low_bytes (λ b. some b)
low_bytes-IsUtf8 = record { bytes = low_bytes-below; ascii = λ s h. refl }

abbrev spaced_pointer : Text
spaced_pointer = codes "/a b/c%d"

fragment_written : to_uri_fragment low_bytes (λ b. some b) spaced_pointer ≡ codes "#/a%20b/c%25d"
unfolding to_uri_fragment encode_rfc3986 encode_bytes ascii_allow_table percent_encoded_byte
    hex_upper encode_byte
fragment_written = refl

fragment_refused : from_uri_fragment low_bytes (λ b. some b) (codes "#/a%2") ≡ none
unfolding from_uri_fragment strip_prefix decode_percent_component decode_bytes
fragment_refused = refl

spaced_pointer_read : parse_json_pointer spaced_pointer ≡ some (codes "a b" ∷ codes "c%d" ∷ [])
unfolding parse_json_pointer decode_tokens split has_valid_escapes decode_token replace_pair
spaced_pointer_read = refl

from_uri_fragment-to_uri_fragment_example :
    from_uri_fragment low_bytes
      (λ b. some b)
      (to_uri_fragment low_bytes (λ b. some b) spaced_pointer)
    ≡ some spaced_pointer
from_uri_fragment-to_uri_fragment_example =
    from_uri_fragment-to_uri_fragment low_bytes (λ b. some b) spaced_pointer
      (codes "a b" ∷ codes "c%d" ∷ []) low_bytes-IsUtf8 refl spaced_pointer_read
