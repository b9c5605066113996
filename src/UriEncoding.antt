-- ===== src/UriEncoding.antt =====
-- internal-uri-encoding.ts and internal-percent-encoding.ts: percent-encoding of the UTF-8 bytes of a
-- text, and its inverse. The codec of the platform (TextEncoder, TextDecoder) is a parameter.
pub mod RoundTrip
use http_rfc_utils.Common.{
  ℕ, ◌+◌, ◌-◌, ◌*◌, ◌/◌, ◌%◌, Bool, true, false, not, ◌&&◌, ◌||◌, List, [], ◌∷◌, ◌++◌, Option, none,
  some, leb, ltb, ◌==◌, any, if◌then◌else◌,
}
use http_rfc_utils.Text.{Text, codes}
use http_rfc_utils.StructuredFields.Serializer.{is_high, is_low}

unfoldable pub is_hex_digit_byte : ℕ → Bool
is_hex_digit_byte byte =
    (leb 0x30 byte && leb byte 0x39)
    || (leb 0x41 byte && leb byte 0x46)
    || (leb 0x61 byte && leb byte 0x66)

unfoldable pub to_upper_hex_char : ℕ → ℕ
to_upper_hex_char byte = if leb 0x61 byte && leb byte 0x66 then byte - 0x20 else byte

-- `HEX_UPPER[n]`
unfoldable pub hex_upper : ℕ → ℕ
hex_upper n = if ltb n 10 then b'0' + n else b'A' + (n - 10)

-- `pushPercentEncodedByte`, for a byte.
unfoldable pub percent_encoded_byte : ℕ → Text
percent_encoded_byte byte = b'%' ∷ hex_upper (byte / 16) ∷ hex_upper (byte % 16) ∷ []

-- `createAsciiAllowTable`
unfoldable pub ascii_allow_table : Text → ℕ → Bool
ascii_allow_table chars byte = ltb byte 128 && any (λ c. c == byte) chars

-- The options of `encodeRfc3986`.
pub record Options : Type 0 where
  pub allow_table : ℕ → Bool
  pub preserve_pct_triplets : Bool
  pub normalize_pct_hex_uppercase : Bool

-- A byte that is allowed, or its escape.
unfoldable pub encode_byte : Options → ℕ → Text
encode_byte options byte =
    if ltb byte 128 && options.allow_table byte then byte ∷ [] else percent_encoded_byte byte

-- The loop of `encodeRfc3986`.
unfoldable pub encode_bytes : Options → List ℕ → Text
encode_bytes options [] = []
encode_bytes options (b ∷ []) = encode_byte options b
encode_bytes options (b ∷ h ∷ []) = encode_byte options b ++ encode_byte options h
encode_bytes options (b ∷ h ∷ l ∷ s) =
    let behind = encode_bytes options s in
    let next = encode_bytes options (h ∷ l ∷ s) in
    if ltb b 128 && options.allow_table b
    then b ∷ next
    else if options.preserve_pct_triplets && b == b'%' && is_hex_digit_byte h && is_hex_digit_byte l
    then if options.normalize_pct_hex_uppercase
      then b'%' ∷ to_upper_hex_char h ∷ to_upper_hex_char l ∷ behind
      else b'%' ∷ h ∷ l ∷ behind
    else percent_encoded_byte b ++ next

-- The number that a hex digit spells, as `parseInt` reads it.
unfoldable pub hex_value : ℕ → ℕ
hex_value c = if leb c 0x39 then c - 0x30 else if leb c 0x46 then c - 0x37 else c - 0x57

abbrev pub prepend : List ℕ → Option (List ℕ) → Option (List ℕ)
prepend bytes none = none
prepend bytes (some rest) = some (bytes ++ rest)

module _ (utf8_encode : Text → List ℕ) (utf8_decode : List ℕ → Option Text) where
  unfoldable pub encode_rfc3986 : Options → Text → Text
  encode_rfc3986 options [] = []
  encode_rfc3986 options (c ∷ value) = encode_bytes options (utf8_encode (c ∷ value))

  -- One unit or code point that is no escape.
  unfoldable pub unit_bytes : ℕ → List ℕ
  unit_bytes c = if leb c 0x7f then c ∷ [] else utf8_encode (c ∷ [])

  -- The loop of `decodePercentComponent`.
  unfoldable pub decode_bytes : Text → Option (List ℕ)
  decode_bytes [] = some []
  decode_bytes (c ∷ []) = if c == b'%' then none else some (unit_bytes c)
  decode_bytes (c ∷ d ∷ []) =
      let next = decode_bytes (d ∷ []) in
      if c == b'%'
      then none
      else if is_high c && is_low d
      then some (utf8_encode (c ∷ d ∷ []))
      else prepend (unit_bytes c) next
  decode_bytes (c ∷ d ∷ e ∷ s) =
      let escaped = decode_bytes s in
      let next = decode_bytes (d ∷ e ∷ s) in
      let behind_pair = decode_bytes (e ∷ s) in
      if c == b'%'
      then if is_hex_digit_byte d && is_hex_digit_byte e
        then prepend ((hex_value d * 16 + hex_value e) ∷ []) escaped
        else none
      else if is_high c && is_low d
      then prepend (utf8_encode (c ∷ d ∷ [])) behind_pair
      else prepend (unit_bytes c) next

  unfoldable pub decode_percent_component : Text → Option Text
  decode_percent_component value =
      if not (any (λ c. c == b'%') value)
      then some value
      else elim (decode_bytes value) [ none ↦ none | some bytes ↦ utf8_decode bytes ]
