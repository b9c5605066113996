-- ===== src/StructuredFields/Parser.antt =====
-- The class `Parser` of structured-fields.ts and the three functions that run it. The state is the
-- text from `index` on; a method that returns null also leaves it where it stopped, since
-- `parseParameters` answers null both for none and for a malformed one, and its callers go on.
use http_rfc_utils.Common.{
  ℕ, zero, suc, ◌+◌, ◌-◌, ◌*◌, Bool, true, false, not, ◌&&◌, ◌||◌, List, [], ◌∷◌, ◌++◌, Option,
  none, some, leb, ltb, ◌==◌, all, if◌then◌else◌, length, is_empty,
}
use http_rfc_utils.Common.Int.{ℤ, pos, negate}
use http_rfc_utils.Text.{Text, is_digit, digits_value, cut_at, trim, span}
use http_rfc_utils.StructuredFields.{
  thousandths, BareItem, boolean, number, string, bytes, date, token, display, Params, Item, Member,
  single, inner, Dictionary, Codecs, set_entry, is_lower, is_upper, is_key_char, is_key_start,
  is_token_char, is_token_start, is_ows, is_printable,
}

-- A result, or null, and the text that is left.
abbrev pub Read {ℓ} : Type ℓ → Type ℓ
Read A = Option A × Text

-- A null result is passed on.
abbrev pub on_read {ℓ κ} : {A : Type ℓ} {B : Type κ} → Read A → (A → Text → Read B) → Read B
on_read (none, s) k = (none, s)
on_read (some a, s) k = k a s

-- The same within a loop, whose `none` means that its fuel ran out: no answer, and no null.
abbrev pub on_round {ℓ κ} :
    {A : Type ℓ} {B : Type κ} → Read A → (A → Text → Option (Read B)) → Option (Read B)
on_round (none, s) k = some (none, s)
on_round (some a, s) k = k a s

-- The answer of a loop that was given enough fuel.
abbrev pub finished {ℓ} : {A : Type ℓ} → Option (Read A) → Text → Read A
finished none s = (none, s)
finished (some x) s = x

unfoldable pub skip_ows : Text → Text
skip_ows [] = []
skip_ows (c ∷ s) = if is_ows c then skip_ows s else c ∷ s

unfoldable pub skip_sp : Text → Text
skip_sp [] = []
skip_sp (c ∷ s) = if c == b' ' then skip_sp s else c ∷ s

unfoldable pub parse_key : Text → Read Text
parse_key [] = (none, [])
parse_key (c ∷ s) =
    if is_key_start c
    then (some (c ∷ (span is_key_char s).0), (span is_key_char s).1)
    else (none, c ∷ s)

unfoldable pub parse_token : Text → Read BareItem
parse_token [] = (none, [])
parse_token (c ∷ s) =
    if is_token_start c
    then (some (token (c ∷ (span is_token_char s).0)), (span is_token_char s).1)
    else (none, c ∷ s)

-- The loop of `parseString`, behind the opening quote.
unfoldable pub string_body : Text → Read Text
string_body [] = (none, [])
string_body (c ∷ []) = if c == b'"' then (some [], []) else (none, [])
string_body (c ∷ d ∷ s) =
    let escaped = string_body s in
    let plain = string_body (d ∷ s) in
    if c == b'"'
    then (some [], d ∷ s)
    else if c == b'\\'
    then if d == b'"' || d == b'\\' then on_read escaped (λ t r. (some (d ∷ t), r)) else (none, s)
    else if is_printable c
    then on_read plain (λ t r. (some (c ∷ t), r))
    else (none, d ∷ s)

unfoldable pub parse_string : Text → Read BareItem
parse_string s = on_read (string_body s) (λ t r. (some (string t), r))

-- Behind the `?`.
unfoldable pub parse_boolean : Text → Read BareItem
parse_boolean [] = (none, [])
parse_boolean (c ∷ s) =
    if c == b'1'
    then (some (boolean true), s)
    else if c == b'0'
    then (some (boolean false), s)
    else (none, s)

unfoldable pub is_base64_char : ℕ → Bool
is_base64_char c = is_upper c || is_lower c || is_digit c || c == b'+' || c == b'/'

-- The last group of `BASE64_RE`, which may be padded.
unfoldable pub is_base64_group : ℕ → ℕ → ℕ → ℕ → Bool
is_base64_group a b c d =
    is_base64_char a
    && is_base64_char b
    && ((is_base64_char c && (is_base64_char d || d == b'=')) || (c == b'=' && d == b'='))

-- `BASE64_RE.test(s)`; it holds of no line break, and the length is a multiple of four.
unfoldable pub is_base64 : Text → Bool
unfolding is_base64_group
is_base64 [] = true
is_base64 (a ∷ b ∷ c ∷ d ∷ []) = is_base64_group a b c d
is_base64 (a ∷ b ∷ c ∷ d ∷ e ∷ s) = all is_base64_char (a ∷ b ∷ c ∷ d ∷ []) && is_base64 (e ∷ s)
is_base64 _ = false

-- The sign of a number, and the text behind it.
unfoldable pub read_minus : Text → Bool × Text
read_minus [] = (false, [])
read_minus (c ∷ s) = if c == b'-' then (true, s) else (false, c ∷ s)

unfoldable pub signed : Bool → ℕ → ℤ
signed minus n = if minus then negate n else pos n

-- `parseInteger`: `/-?\d+/y`, with at most fifteen digits; the index stays where it fails.
unfoldable pub parse_integer : Text → Read ℤ
parse_integer s =
    let (minus, unsigned) = read_minus s in
    let (digits, rest) = span is_digit unsigned in
    if is_empty digits || ltb 15 (length digits)
    then (none, s)
    else (some (signed minus (digits_value 0 digits)), rest)

unfoldable pub parse_date : Text → Read BareItem
parse_date s = on_read (parse_integer s) (λ n r. (some (date n), r))

-- `(?:\.(\d{1,3}))?`: the decimals and the text behind them.
unfoldable pub read_decimals : Text → Text × Text
read_decimals (dot ∷ a ∷ b ∷ c ∷ s) =
    if dot == b'.' && is_digit a
    then if is_digit b
      then if is_digit c then (a ∷ b ∷ c ∷ [], s) else (a ∷ b ∷ [], c ∷ s)
      else (a ∷ [], b ∷ c ∷ s)
    else ([], dot ∷ a ∷ b ∷ c ∷ s)
read_decimals (dot ∷ a ∷ b ∷ []) =
    if dot == b'.' && is_digit a
    then if is_digit b then (a ∷ b ∷ [], []) else (a ∷ [], b ∷ [])
    else ([], dot ∷ a ∷ b ∷ [])
read_decimals (dot ∷ a ∷ []) =
    if dot == b'.' && is_digit a then (a ∷ [], []) else ([], dot ∷ a ∷ [])
read_decimals s = ([], s)

-- The thousandths that up to three decimals spell.
unfoldable pub scaled : Text → ℕ
scaled (a ∷ b ∷ c ∷ s) = digits_value 0 (a ∷ b ∷ c ∷ [])
scaled (a ∷ b ∷ []) = digits_value 0 (a ∷ b ∷ []) * 10
scaled (a ∷ []) = digits_value 0 (a ∷ []) * 100
scaled [] = 0

-- `parseNumber`: `/(-?)(\d+)(?:\.(\d{1,3}))?/y`.
unfoldable pub parse_number : Text → Read BareItem
parse_number s =
    let (minus, unsigned) = read_minus s in
    let (whole, behind) = span is_digit unsigned in
    let (decimals, rest) = read_decimals behind in
    if is_empty whole || ltb (if is_empty decimals then 15 else 12) (length whole)
    then (none, s)
    else (
      some (number (thousandths (signed minus (digits_value 0 whole * 1000 + scaled decimals)))),
      rest,
    )

unfoldable pub hex_digit_value : ℕ → ℕ
hex_digit_value c = if is_digit c then c - b'0' else c - b'a' + 10

unfoldable pub is_lower_hex : ℕ → Bool
is_lower_hex c = is_digit c || (leb b'a' c && leb c b'f')

-- The bytes of a display string, behind the opening quote.
unfoldable pub display_body : Text → Read (List ℕ)
display_body [] = (none, [])
display_body (c ∷ []) = if c == b'"' then (some [], []) else (none, [])
display_body (c ∷ d ∷ []) =
    let plain = display_body (d ∷ []) in
    if not (is_printable c)
    then (none, d ∷ [])
    else if c == b'%'
    then (none, d ∷ [])
    else if c == b'"'
    then (some [], d ∷ [])
    else on_read plain (λ b r. (some (c ∷ b), r))
display_body (c ∷ d ∷ e ∷ s) =
    let escaped = display_body s in
    let plain = display_body (d ∷ e ∷ s) in
    if not (is_printable c)
    then (none, d ∷ e ∷ s)
    else if c == b'%'
    then if is_lower_hex d && is_lower_hex e
      then on_read escaped (λ b r. (some ((hex_digit_value d * 16 + hex_digit_value e) ∷ b), r))
      else (none, d ∷ e ∷ s)
    else if c == b'"'
    then (some [], d ∷ e ∷ s)
    else on_read plain (λ b r. (some (c ∷ b), r))

-- `hasParams ? params : null`
abbrev pub found : Params → Option Params
found [] = none
found (p ∷ ps) = some (p ∷ ps)

abbrev pub skip_if : Bool → Text → Text
skip_if allow_ows s = if allow_ows then skip_ows s else s

-- `isAtEnd`, with the result where it holds.
unfoldable pub at_end {ℓ} : {A : Type ℓ} → Read A → Option A
at_end (none, s) = none
at_end (some a, s) = if is_empty (skip_ows s) then some a else none

module _ (codecs : Codecs) where
  unfoldable pub parse_byte_sequence : Text → Read BareItem
  parse_byte_sequence s = elim (cut_at b':' s) [
    | none ↦ (none, [])
    | some (base64, rest) ↦
        if is_base64 base64
        then (some (bytes (codecs.base64_decode base64)), rest)
        else (none, rest)
  ]

  -- Behind the `%`.
  unfoldable pub parse_display_string : Text → Read BareItem
  parse_display_string [] = (none, [])
  parse_display_string (c ∷ s) =
      if c == b'"'
      then on_read (display_body s)
          (λ b r. elim (codecs.utf8_decode b) [ none ↦ (none, r) | some t ↦ (some (display t), r) ])
      else (none, s)

  unfoldable pub parse_bare_item : Text → Read BareItem
  parse_bare_item [] = (none, [])
  parse_bare_item (c ∷ s) =
      if c == b'"'
      then parse_string s
      else if c == b'?'
      then parse_boolean s
      else if c == b':'
      then parse_byte_sequence s
      else if c == b'@'
      then parse_date s
      else if c == b'%'
      then parse_display_string s
      else if c == b'-' || is_digit c
      then parse_number (c ∷ s)
      else parse_token (c ∷ s)

  -- `=` and a bare item, or `true` and the index set back to where the key ends.
  unfoldable pub parse_parameter_value : Text → Read BareItem
  parse_parameter_value s = elim (skip_ows s) [
    | [] ↦ (some (boolean true), s)
    | c ∷ r ↦ if c == b'=' then parse_bare_item (skip_ows r) else (some (boolean true), s)
  ]

  -- The loop of `parseParameters`. Each round reads a `;`, so a round more than the text has units is
  -- enough; so it is in the other loops. `none` means that the fuel ran out, and
  -- `some (none, …)` is null.
  unfoldable pub parse_parameters_from : ℕ → Bool → Params → Text → Option (Read Params)
  parse_parameters_from zero allow_ows params s = none
  parse_parameters_from (suc f) allow_ows params s = elim (skip_if allow_ows s) [
    | [] ↦ some (found params, [])
    | c ∷ r ↦
        if c == b';'
        then on_round (parse_key (skip_ows r)) (λ key r1.
          on_round (parse_parameter_value r1)
            (λ v r2. parse_parameters_from f allow_ows (set_entry params key v) r2))
        else some (found params, c ∷ r)
  ]

  unfoldable pub parse_parameters : Bool → Text → Option Params × Text
  parse_parameters allow_ows s = finished (parse_parameters_from (suc (length s)) allow_ows [] s) s

  -- `parseItemWithParameterOWS`
  unfoldable pub parse_item : Bool → Text → Read Item
  parse_item allow_ows s = on_read (parse_bare_item s) (λ v r.
      let (params, rest) = parse_parameters allow_ows r in
      (some (record { value = v; params = params }), rest))

  -- The loop of `parseInnerList`, up to and with the closing parenthesis.
  unfoldable pub inner_items : ℕ → List Item → Text → Option (Read (List Item))
  inner_items zero items s = none
  inner_items (suc f) items s = elim (skip_sp s) [
    | [] ↦ some (none, [])
    | c ∷ r ↦
        if c == b')'
        then some (some items, r)
        else on_round (parse_item false (c ∷ r)) (λ item behind. elim behind [
          | [] ↦ some (none, [])
          | d ∷ more ↦
              if d == b')'
              then some (some (items ++ item ∷ []), more)
              else if d == b' '
              then inner_items f (items ++ item ∷ []) (skip_sp more)
              else some (none, d ∷ more)
        ])
  ]

  unfoldable pub parse_items : Text → Read (List Item)
  parse_items s = finished (inner_items (suc (length s)) [] s) s

  -- Behind the opening parenthesis.
  unfoldable pub parse_inner_list : Text → Read Member
  parse_inner_list s =
      on_read (parse_items s) (λ items r.
        let (params, rest) = parse_parameters true r in (some (inner items params), rest))

  unfoldable pub parse_member : Text → Read Member
  parse_member [] = (none, [])
  parse_member (c ∷ s) =
      if c == b'('
      then parse_inner_list s
      else on_read (parse_item true (c ∷ s)) (λ item r. (some (single item), r))

  -- The loop of `parseList`, at a member.
  unfoldable pub list_from : ℕ → List Member → Text → Option (Read (List Member))
  list_from zero members s = none
  list_from (suc f) members s = elim (skip_ows s) [
    | [] ↦ some (some members, [])
    | c ∷ r ↦ on_round (parse_member (c ∷ r)) (λ m behind. elim (skip_ows behind) [
      | [] ↦ some (some (members ++ m ∷ []), [])
      | d ∷ more ↦
          if d == b','
          then elim (skip_ows more) [
            | [] ↦ some (none, [])
            | e ∷ next ↦ list_from f (members ++ m ∷ []) (e ∷ next)
          ]
          else some (none, d ∷ more)
    ])
  ]

  unfoldable pub parse_list : Text → Read (List Member)
  parse_list s = finished (list_from (suc (length s)) [] s) s

  -- What stands behind a key of a dictionary: `=` and a member, or parameters of `true`.
  unfoldable pub parse_entry_value : Text → Read Member
  parse_entry_value s =
      let (params, rest) = parse_parameters true (skip_ows s) in
      let flag : Read Member =
        (some (single (record { value = boolean true; params = params })), rest) in
      elim (skip_ows s) [
        | [] ↦ flag
        | c ∷ r ↦ if c == b'=' then parse_member (skip_ows r) else flag
      ]

  -- The loop of `parseDictionary`, at a key.
  unfoldable pub dictionary_from : ℕ → Dictionary → Text → Option (Read Dictionary)
  dictionary_from zero dict s = none
  dictionary_from (suc f) dict s = elim (skip_ows s) [
    | [] ↦ some (some dict, [])
    | c ∷ r ↦ on_round (parse_key (c ∷ r)) (λ key behind.
        on_round (parse_entry_value behind) (λ v after. elim (skip_ows after) [
          | [] ↦ some (some (set_entry dict key v), [])
          | d ∷ more ↦
              if d == b','
              then elim (skip_ows more) [
                | [] ↦ some (none, [])
                | e ∷ next ↦ dictionary_from f (set_entry dict key v) (e ∷ next)
              ]
              else some (none, d ∷ more)
        ]))
  ]

  unfoldable pub parse_dictionary : Text → Read Dictionary
  parse_dictionary s = finished (dictionary_from (suc (length s)) [] s) s

  unfoldable pub parse_sf_list : Text → Option (List Member)
  parse_sf_list s = at_end (parse_list s)

  unfoldable pub parse_sf_dict : Text → Option Dictionary
  parse_sf_dict s = at_end (parse_dictionary s)

  unfoldable pub parse_sf_item : Text → Option Item
  parse_sf_item s = at_end (parse_item true (trim s))
