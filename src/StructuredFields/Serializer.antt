-- ===== src/StructuredFields/Serializer.antt =====
-- The serializers of structured-fields.ts, and `hasLoneSurrogate` of internal-unicode.ts.
use http_rfc_utils.Common.{
  ℕ, ◌+◌, ◌-◌, ◌/◌, ◌%◌, Bool, true, false, not, ◌&&◌, ◌||◌, List, [], ◌∷◌, ◌++◌, Option, none,
  some, leb, ltb, ◌==◌, all, if◌then◌else◌,
}
use http_rfc_utils.Common.Int.{ℤ, pos, negsuc, magnitude}
use http_rfc_utils.Common.Results.{Result, ok, err, ◌>>=◌, ◌>>◌, guard}
use http_rfc_utils.Text.{Text, codes, to_decimal}
use http_rfc_utils.StructuredFields.{
  thousandths, not_finite, BareItem, boolean, number, string, bytes, date, token, display, Params,
  Item, Member, single, inner, Dictionary, Codecs, is_sf_key_text, is_sf_token_text, is_printable,
}

pub data SfError : Type 0 where
  number_not_finite integer_out_of_range decimal_out_of_range : SfError
  invalid_token lone_surrogate invalid_string invalid_key : SfError

abbrev pub is_high : ℕ → Bool
is_high c = leb 0xd800 c && leb c 0xdbff

abbrev pub is_low : ℕ → Bool
is_low c = leb 0xdc00 c && leb c 0xdfff

unfoldable pub has_lone_surrogate : Text → Bool
has_lone_surrogate [] = false
has_lone_surrogate (c ∷ []) = is_high c || is_low c
has_lone_surrogate (c ∷ d ∷ s) =
    let paired = has_lone_surrogate s in
    let more = has_lone_surrogate (d ∷ s) in
    if is_high c then (if is_low d then paired else true) else if is_low c then true else more

abbrev pub minus_sign : ℤ → Text
minus_sign (pos n) = []
minus_sign (negsuc n) = codes "-"

-- `String(n)` of an integer.
unfoldable pub integer_text : ℤ → Text
integer_text n = minus_sign n ++ to_decimal (magnitude n)

-- `.replace(/0+$/, '')` of three decimals.
unfoldable pub strip_zeros : Text → Text
strip_zeros [] = []
strip_zeros (c ∷ s) = elim (strip_zeros s) [
  | [] ↦ if c == b'0' then [] else c ∷ []
  | d ∷ r ↦ c ∷ d ∷ r
]

-- `toFixed(3)` behind the point.
unfoldable pub three_digits : ℕ → Text
three_digits n = (b'0' + n / 100 % 10) ∷ (b'0' + n / 10 % 10) ∷ (b'0' + n % 10) ∷ []

-- The number is an integer, or `toFixed(3)` without the zeros behind it. What the code tests again
-- of the whole part, the range has tested.
unfoldable pub number_text : ℤ → Result SfError Text
number_text n =
    let m = magnitude n in
    if m % 1000 == 0
    then if ltb 999999999999999 (m / 1000)
      then err integer_out_of_range
      else ok (minus_sign n ++ to_decimal (m / 1000))
    else if ltb 999999999999999 m
    then err decimal_out_of_range
    else ok (minus_sign n ++ to_decimal (m / 1000) ++ b'.' ∷ strip_zeros (three_digits (m % 1000)))

abbrev pub lower_hex : ℕ → ℕ
lower_hex n = if ltb n 10 then b'0' + n else b'a' + (n - 10)

-- The bytes of a display string, escaped.
unfoldable pub display_text : List ℕ → Text
display_text [] = []
display_text (b ∷ bs) =
    let rest = display_text bs in
    if b == b'%' || b == b'"' || not (is_printable b)
    then b'%' ∷ lower_hex (b / 16) ∷ lower_hex (b % 16) ∷ rest
    else b ∷ rest

-- `value.replace(/\\/g, '\\\\').replace(/"/g, '\\"')`
unfoldable pub escaped : Text → Text
escaped [] = []
escaped (c ∷ s) = if c == b'"' || c == b'\\' then b'\\' ∷ c ∷ escaped s else c ∷ escaped s

-- `value === true`
unfoldable pub is_true : BareItem → Bool
is_true (boolean b) = b
is_true v = false

module _ (codecs : Codecs) where
  unfoldable pub serialize_bare_item : BareItem → Result SfError Text
  unfolding integer_text
  serialize_bare_item (boolean b) = ok (if b then codes "?1" else codes "?0")
  serialize_bare_item (date n) = ok (b'@' ∷ integer_text n)
  serialize_bare_item (number not_finite) = err number_not_finite
  serialize_bare_item (number (thousandths n)) = number_text n
  serialize_bare_item (bytes b) = ok (b':' ∷ codecs.base64_encode b ++ b':' ∷ [])
  serialize_bare_item (token t) = if is_sf_token_text t then ok t else err invalid_token
  serialize_bare_item (display s) =
      if has_lone_surrogate s
      then err lone_surrogate
      else ok (codes "%\"" ++ display_text (codecs.utf8_encode s) ++ b'"' ∷ [])
  serialize_bare_item (string s) =
      if all is_printable s then ok (b'"' ∷ escaped s ++ b'"' ∷ []) else err invalid_string

  -- `=` and the value, or nothing for `true`.
  unfoldable pub value_text : BareItem → Result SfError Text
  unfolding is_true
  value_text v = if is_true v then ok [] else serialize_bare_item v >>= λ text. ok (b'=' ∷ text)

  unfoldable pub params_text : Params → Result SfError Text
  params_text [] = ok []
  params_text ((key, v) ∷ ps) = do
    guard (is_sf_key_text key) invalid_key
    text ← value_text v
    rest ← params_text ps
    ok (b';' ∷ key ++ text ++ rest)

  unfoldable pub serialize_params : Option Params → Result SfError Text
  serialize_params none = ok []
  serialize_params (some params) = params_text params

  unfoldable pub serialize_item : Item → Result SfError Text
  serialize_item item = do
    base ← serialize_bare_item item.value
    params ← serialize_params item.params
    ok (base ++ params)

  -- The items, each behind a blank.
  unfoldable pub items_text : List Item → Result SfError Text
  items_text [] = ok []
  items_text (i ∷ is) = do text ← serialize_item i; rest ← items_text is; ok (b' ' ∷ text ++ rest)

  -- The items, with a blank between two.
  unfoldable pub inner_text : List Item → Result SfError Text
  inner_text [] = ok []
  inner_text (i ∷ is) = do text ← serialize_item i; rest ← items_text is; ok (text ++ rest)

  unfoldable pub serialize_member : Member → Result SfError Text
  serialize_member (single item) = serialize_item item
  serialize_member (inner items params) = do
    text ← inner_text items
    behind ← serialize_params params
    ok (b'(' ∷ text ++ b')' ∷ behind)

  -- The members behind the first, each behind `, `.
  unfoldable pub members_text : List Member → Result SfError Text
  members_text [] = ok []
  members_text (m ∷ ms) = do
    text ← serialize_member m
    rest ← members_text ms
    ok (b',' ∷ b' ' ∷ text ++ rest)

  unfoldable pub serialize_sf_list : List Member → Result SfError Text
  serialize_sf_list [] = ok []
  serialize_sf_list (m ∷ ms) = do
    text ← serialize_member m
    rest ← members_text ms
    ok (text ++ rest)

  -- What stands behind the key of an entry.
  unfoldable pub entry_value_text : Member → Result SfError Text
  unfolding is_true
  entry_value_text (single item) =
      if is_true item.value
      then serialize_params item.params
      else serialize_item item >>= λ text. ok (b'=' ∷ text)
  entry_value_text (inner items params) = do
    text ← serialize_member (inner items params)
    ok (b'=' ∷ text)

  unfoldable pub entry_text : Text × Member → Result SfError Text
  entry_text (key, m) = do
    guard (is_sf_key_text key) invalid_key
    text ← entry_value_text m
    ok (key ++ text)

  unfoldable pub entries_text : Dictionary → Result SfError Text
  entries_text [] = ok []
  entries_text (e ∷ es) = do
    text ← entry_text e
    rest ← entries_text es
    ok (b',' ∷ b' ' ∷ text ++ rest)

  unfoldable pub serialize_sf_dict : Dictionary → Result SfError Text
  serialize_sf_dict [] = ok []
  serialize_sf_dict (e ∷ es) = do text ← entry_text e; rest ← entries_text es; ok (text ++ rest)

  unfoldable pub serialize_sf_item : Item → Result SfError Text
  serialize_sf_item item = serialize_item item
