-- ===== src/Etag.antt =====
-- etag.ts: entity tags, their text, their two comparisons, and the synchronous generator. The
-- asynchronous one calls the Web Crypto digest and is not here. `for (const char of value)` walks
-- code points; a unit of a surrogate pair and its code point are both above 0xff, so the test is
-- made of each unit.
pub mod Format
pub mod Compare
pub mod Generate
mod Tests
use Prim.Native.Nat.{bit_xor}
use http_rfc_utils.Common.{
  ℕ, zero, suc, ◌+◌, ◌-◌, ◌*◌, ◌/◌, ◌%◌, ◌^◌, Bool, true, false, not, ◌&&◌, ◌||◌, List, [], ◌∷◌,
  ◌++◌, Option, none, some, ◌==◌, leb, ltb, all, any, if◌then◌else◌,
}
use http_rfc_utils.Common.Results.{Result, ok, err}
use http_rfc_utils.Text.{Text, codes, text_eq, trim, strip_prefix}

pub record ETag : Type 0 where
  pub weak : Bool
  pub value : Text

abbrev pub quote : ℕ
quote = b'"'

abbrev pub max_etag_char : ℕ
max_etag_char = 0xff

-- One round of the loop of `isValidETagValue`.
unfoldable pub is_etag_char : ℕ → Bool
is_etag_char code =
    if ltb max_etag_char code
    then false
    else if code == 0x21
    then true
    else if leb 0x23 code && leb code 0x7e
    then true
    else if leb 0x80 code && leb code 0xff
    then true
    else false

unfoldable pub is_valid_etag_value : Text → Bool
is_valid_etag_value value = all is_etag_char value

-- One round of the hash: `((hash << 5) + hash) ^ c` as the bits of an int32.
pub djb2_step : ℕ → ℕ → ℕ
djb2_step hash c = bit_xor ((hash * 32 % 2 ^ 32 + hash) % 2 ^ 32) c

pub djb2_from : ℕ → Text → ℕ
djb2_from hash [] = hash
djb2_from hash (c ∷ s) = djb2_from (djb2_step hash c) s

abbrev pub hex_digit : ℕ → ℕ
hex_digit d = if ltb d 10 then b'0' + d else b'a' - 10 + d

-- `n.toString(16)` in front of `out`; eight rounds write a 32-bit number.
pub to_hex : ℕ → ℕ → Text → Text
to_hex zero n out = out
to_hex (suc f) n out =
    let more = to_hex f (n / 16) (hex_digit (n % 16) ∷ out) in
    if n / 16 == 0 then hex_digit (n % 16) ∷ out else more

-- `djb2Hash` and, over bytes, `djb2HashBytes`.
pub djb2_hash : Text → Text
unfolding djb2_from
djb2_hash str = to_hex 8 (djb2_from 5381 str % 2 ^ 32) []

-- What `generateETag` is given: a view of bytes, a string, or any other value, here the text that
-- `JSON.stringify(data) ?? String(data)` makes of it.
pub data Payload : Type 0 where
  bytes : List ℕ → Payload
  string : Text → Payload
  stringified : Text → Payload

-- `asByteView` and `dataToString` choose what is hashed.
pub hashed_units : Payload → Text
hashed_units (bytes b) = b
hashed_units (string s) = s
hashed_units (stringified s) = s

-- `W/"…"` or `"…"`.
unfoldable pub quoted : Bool → Text → Text
quoted weak value = (if weak then codes "W/" else []) ++ (quote ∷ (value ++ quote ∷ []))

pub generate_etag : Payload → Bool → Text
unfolding hashed_units
generate_etag payload weak = quoted weak (djb2_hash (hashed_units payload))

-- `s.endsWith(c)` for a unit `c`, and `s.slice(0, -1)`.
unfoldable pub ends_with : ℕ → Text → Bool
ends_with q [] = false
ends_with q (c ∷ []) = c == q
ends_with q (c ∷ d ∷ s) = ends_with q (d ∷ s)

unfoldable pub drop_last : Text → Text
drop_last [] = []
drop_last (c ∷ []) = []
drop_last (c ∷ d ∷ s) = c ∷ drop_last (d ∷ s)

-- The value of a quoted text: `rest.slice(1, -1)` behind the test of both quotes.
unfoldable pub unquoted : Text → Option Text
unquoted [] = none
unquoted (c ∷ s) = if c == quote && ends_with quote (c ∷ s) then some (drop_last s) else none

-- `parseETag` behind its test of the weak prefix.
unfoldable pub parse_opaque : Bool → Text → Option ETag
parse_opaque weak rest = elim (unquoted rest) [
  | none ↦ none
  | some value ↦
      if any (λ c. c == quote) value
      then none
      else if not (is_valid_etag_value value)
      then none
      else some (record { weak = weak; value = value })
]

-- `parseETag` behind `trim`.
unfoldable pub parse_trimmed : Text → Option ETag
parse_trimmed trimmed = elim (strip_prefix (codes "W/") trimmed) [
  | none ↦ parse_opaque false trimmed
  | some rest ↦ parse_opaque true rest
]

unfoldable pub parse_etag : Text → Option ETag
parse_etag [] = none
parse_etag (c ∷ s) = parse_trimmed (trim (c ∷ s))

-- `Invalid ETag value: …`
pub data EtagError : Type 0 where
  invalid_value : Text → EtagError

unfoldable pub format_etag : ETag → Result EtagError Text
format_etag etag =
    if not (is_valid_etag_value etag.value)
    then err (invalid_value etag.value)
    else ok (quoted etag.weak etag.value)

unfoldable pub compare_etags : ETag → ETag → Bool → Bool
compare_etags a b strong =
    if not (text_eq a.value b.value)
    then false
    else if not strong
    then true
    else not a.weak && not b.weak

pub compare_etag_strings : Text → Text → Bool → Bool
compare_etag_strings a b strong = elim (parse_etag a) [
  | none ↦ false
  | some x ↦ elim (parse_etag b) [ none ↦ false | some y ↦ compare_etags x y strong ]
]
