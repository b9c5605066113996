-- ===== src/StructuredFields/Solid.antt =====
-- The text of an item ends with no blank, so that `parseSfItem`, which trims it, reads it whole.
use http_rfc_utils.Common.{
  ℕ, ◌/◌, ◌%◌, Bool, true, false, [], ◌∷◌, ◌++◌, Option, some, none, ◌≡◌, ◌≢◌, refl, subst, arith,
  all, ◌==◌, Bool-cases, inl, inr, append_assoc, append-nil, and_split,
}
use http_rfc_utils.Common.Int.{ℤ, magnitude}
use http_rfc_utils.Common.Results.{ok, Result-cases}
use http_rfc_utils.Text.{Text, is_digit, is_space, codes, to_decimal, trim}
use http_rfc_utils.Text.Trim.{ends_solid, ends_solid-append, ends_solid-to_decimal, trim-ends_solid}
use http_rfc_utils.StructuredFields.{
  thousandths, not_finite, BareItem, boolean, number, string, bytes, date, token, display, Params,
  Item, Codecs, is_token_char, is_token_start, is_sf_token_text, is_key_char, is_key_start,
  is_sf_key_text, is_lower, is_upper, is_printable,
}
use http_rfc_utils.StructuredFields.Parser.{parse_item, at_end, skip_ows, parse_sf_item}
use http_rfc_utils.StructuredFields.Serializer.{
  minus_sign, strip_zeros, three_digits, integer_text, number_text, escaped, display_text,
  has_lone_surrogate, is_true, serialize_bare_item, value_text, params_text, serialize_params,
  serialize_item, serialize_sf_item,
}
use http_rfc_utils.StructuredFields.Bare.{Leads, is_bare_start, ok_text}
use http_rfc_utils.StructuredFields.Parameters.{params_text-cons}
use http_rfc_utils.StructuredFields.Items.{
  WellFormedItem, serialize_item-split, serialize_item-Leads, parse_item-serialize,
}
use http_rfc_utils.StructuredFields.Delimiters.{follows}

-- A text of characters that are no blank ends with no blank.
all-ends_solid :
    (p : ℕ → Bool) (s : Text)
    → ((c : ℕ) → p c ≡ true → is_space c ≡ false)
    → (s ≢ [])
    → all p s ≡ true
    → ends_solid s ≡ true
unfolding ends_solid
all-ends_solid p [] solid n h = absurd (n refl)
all-ends_solid p (c ∷ []) solid n h = ground (arith, solid c)
all-ends_solid p (c ∷ d ∷ s) solid n h =
    all-ends_solid p (d ∷ s) solid (λ e. cc) (and_split (p c) (all p (d ∷ s)) h).1

token_char-not_space : (c : ℕ) → is_token_char c ≡ true → is_space c ≡ false
unfolding is_token_char is_space is_digit is_lower is_upper
token_char-not_space c h = ground arith

token_start-token_char : (c : ℕ) → is_token_start c ≡ true → is_token_char c ≡ true
unfolding is_token_char is_token_start is_digit is_lower is_upper
token_start-token_char c h = ground arith

key_char-not_space : (c : ℕ) → is_key_char c ≡ true → is_space c ≡ false
unfolding is_key_char is_space is_digit is_lower
key_char-not_space c h = ground arith

key_start-key_char : (c : ℕ) → is_key_start c ≡ true → is_key_char c ≡ true
unfolding is_key_char is_key_start is_digit is_lower
key_start-key_char c h = ground arith

token-ends_solid : (s : Text) → is_sf_token_text s ≡ true → ends_solid s ≡ true
unfolding is_sf_token_text
token-ends_solid [] h = absurd (ground arith)
token-ends_solid (c ∷ s) h =
    all-ends_solid is_token_char (c ∷ s) token_char-not_space (λ e. cc)
      (ground (arith, token_start-token_char c))

key-ends_solid : (s : Text) → is_sf_key_text s ≡ true → ends_solid s ≡ true
unfolding is_sf_key_text
key-ends_solid [] h = absurd (ground arith)
key-ends_solid (c ∷ s) h =
    all-ends_solid is_key_char (c ∷ s) key_char-not_space (λ e. cc)
      (ground (arith, key_start-key_char c))

-- The decimals that are left end with no zero, so with a digit or the point.
point-ends_solid : (n : ℕ) → ends_solid (b'.' ∷ strip_zeros (three_digits n)) ≡ true
unfolding ends_solid strip_zeros three_digits is_space
point-ends_solid n = ground arith

quoted-ends_solid : (a : Text) (c : ℕ) → is_space c ≡ false → ends_solid (a ++ c ∷ []) ≡ true
quoted-ends_solid a c h = ends_solid-append a (c ∷ []) (unfold ends_solid in ground arith)

number_text-ends_solid : (z : ℤ) (text : Text) → number_text z ≡ ok text → ends_solid text ≡ true
unfolding number_text
number_text-ends_solid z text h = elim (Bool-cases (magnitude z % 1000 == 0)) [
  | inl i ↦
      let n = magnitude z / 1000 in
      let same : text ≡ minus_sign z ++ to_decimal n = ground (arith, i) in
      rw same (ends_solid-append (minus_sign z) (to_decimal n) (ends_solid-to_decimal n))
  | inr i ↦
      let front = minus_sign z ++ to_decimal (magnitude z / 1000) in
      let s = b'.' ∷ strip_zeros (three_digits (magnitude z % 1000)) in
      let same : text ≡ front ++ s = ground (arith, i) in
      rw same (ends_solid-append front s (point-ends_solid (magnitude z % 1000)))
]

module _ (codecs : Codecs) where
  serialize_bare_item-ends_solid :
      (v : BareItem) (text : Text) → serialize_bare_item codecs v ≡ ok text → ends_solid text ≡ true
  unfolding serialize_bare_item integer_text
  serialize_bare_item-ends_solid (boolean true) text h =
      rw (ok_text text (codes "?1") h) (unfold ends_solid is_space in refl)
  serialize_bare_item-ends_solid (boolean false) text h =
      rw (ok_text text (codes "?0") h) (unfold ends_solid is_space in refl)
  serialize_bare_item-ends_solid (date n) text h =
      rw (ok_text text (b'@' ∷ minus_sign n ++ to_decimal (magnitude n)) h) (
        ends_solid-append (b'@' ∷ minus_sign n) (to_decimal (magnitude n))
          (ends_solid-to_decimal (magnitude n)))
  serialize_bare_item-ends_solid (number not_finite) text h = absurd (ground arith)
  serialize_bare_item-ends_solid (number (thousandths n)) text h = number_text-ends_solid n text h
  serialize_bare_item-ends_solid (bytes b) text h =
      let s = b':' ∷ codecs.base64_encode b in
      rw (ok_text text (s ++ b':' ∷ []) h) (quoted-ends_solid s b':' (unfold is_space in refl))
  serialize_bare_item-ends_solid (token t) text h = elim (Bool-cases (is_sf_token_text t)) [
    | inr e ↦ absurd (ground arith)
    | inl e ↦ let same : text ≡ t = ground (arith, e) in rw same (token-ends_solid t e)
  ]
  serialize_bare_item-ends_solid (display s) text h = elim (Bool-cases (has_lone_surrogate s)) [
    | inl e ↦ absurd (ground arith)
    | inr e ↦
        let front = codes "%\"" ++ display_text (codecs.utf8_encode s) in
        let same : text ≡ front ++ b'"' ∷ [] = ground (arith, e) in
        rw same (quoted-ends_solid front b'"' (unfold is_space in refl))
  ]
  serialize_bare_item-ends_solid (string s) text h = elim (Bool-cases (all is_printable s)) [
    | inr e ↦ absurd (ground arith)
    | inl e ↦
        let front = b'"' ∷ escaped s in
        let same : text ≡ front ++ b'"' ∷ [] = ground (arith, e) in
        rw same (quoted-ends_solid front b'"' (unfold is_space in refl))
  ]

  value_text-ends_solid :
      (front : Text) (v : BareItem) (text : Text)
      → ends_solid front ≡ true
      → value_text codecs v ≡ ok text
      → ends_solid (front ++ text) ≡ true
  unfolding value_text
  value_text-ends_solid front v text h k = elim (Bool-cases (is_true v)) [
    | inl e ↦ let same : text ≡ [] = ground (arith, e) in rw (same, append-nil front) h
    | inr e ↦ elim (Result-cases (serialize_bare_item codecs v)) [
      | inr (bad, n) ↦ absurd (ground (arith, e))
      | inl (t, n) ↦
          let same : text ≡ (b'=' ∷ []) ++ t = ground (arith, e, n) in
          rw same (
            ends_solid-append front ((b'=' ∷ []) ++ t)
              (ends_solid-append (b'=' ∷ []) t (serialize_bare_item-ends_solid v t n)))
    ]
  ]

  params_text-ends_solid :
      (front : Text) (ps : Params) (text : Text)
      → ends_solid front ≡ true
      → params_text codecs ps ≡ ok text
      → ends_solid (front ++ text) ≡ true
  params_text-ends_solid front [] text h k =
      let same : text ≡ [] = unfold params_text in ground arith in rw (same, append-nil front) h
  params_text-ends_solid front ((key, v) ∷ ps) text h k =
      let (first, more, valid, fe, me, same) = params_text-cons codecs key v ps text k in
      let front_key = front ++ (b';' ∷ key) in
      let solid =
        ends_solid-append front (b';' ∷ key)
          (ends_solid-append (b';' ∷ []) key (key-ends_solid key valid)) in
      rw
        (
          same,
          append_assoc key first more,
          ← append_assoc front (b';' ∷ key) (first ++ more),
          ← append_assoc (front ++ b';' ∷ key) first more,
        )
        (params_text-ends_solid (front_key ++ first) ps more
          (value_text-ends_solid front_key v first solid fe) me)

  serialize_params-ends_solid :
      (front : Text) (params : Option Params) (text : Text)
      → ends_solid front ≡ true
      → serialize_params codecs params ≡ ok text
      → ends_solid (front ++ text) ≡ true
  unfolding serialize_params
  serialize_params-ends_solid front none text h k =
      let same : text ≡ [] = ground arith in rw (same, append-nil front) h
  serialize_params-ends_solid front (some ps) text h k = params_text-ends_solid front ps text h k

  serialize_item-ends_solid :
      (item : Item) (text : Text) → serialize_item codecs item ≡ ok text → ends_solid text ≡ true
  serialize_item-ends_solid item text h =
      let (base, behind, be, pe, same) = serialize_item-split codecs item text h in
      let solid = serialize_bare_item-ends_solid item.value base be in
      rw same (serialize_params-ends_solid base item.params behind solid pe)

  trim-serialize_item :
      (text : Text) → Leads is_bare_start text → ends_solid text ≡ true → trim text ≡ text
  trim-serialize_item [] l h = absurd l
  trim-serialize_item (c ∷ s) l h =
      trim-ends_solid c s (unfold is_bare_start is_space is_digit is_lower is_upper in ground arith)
        h

  -- An item whose values the codecs give back, whose dates have at most fifteen digits, and whose
  -- parameters are absent or nonempty with distinct keys, is read back from the text that is
  -- written for it.
  pub parse_sf_item-serialize_sf_item :
      (item : Item) (text : Text)
      → WellFormedItem codecs item
      → serialize_sf_item codecs item ≡ ok text
      → parse_sf_item codecs text ≡ some item
  unfolding serialize_sf_item parse_sf_item
  parse_sf_item-serialize_sf_item item text w h =
      let leads : Leads is_bare_start text =
        subst (Leads is_bare_start) (append-nil text)
          (serialize_item-Leads codecs item text [] h) in
      let read : parse_item codecs true text ≡ (some item, []) =
        subst (λ t. parse_item codecs true t ≡ (some item, [])) (append-nil text)
          (parse_item-serialize codecs true item text [] w h (unfold follows in refl)) in
      rw (trim-serialize_item text leads (serialize_item-ends_solid item text h), read)
        (unfold at_end skip_ows in refl)
