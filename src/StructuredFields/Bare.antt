-- ===== src/StructuredFields/Bare.antt =====
-- A bare item is read back from the text that is written for it.
use http_rfc_utils.Common.{
  ℕ, ◌/◌, ◌%◌, ◌<◌, ◌≤◌, Bool, true, false, ◌||◌, List, [], ◌∷◌, ◌++◌, some, ◌≡◌, ◌≢◌, refl, ◌∙◌,
  arith, all, All, any, ◌==◌, Bool-cases, inl, inr, append_assoc, and_split,
}
use http_rfc_utils.Common.Int.{ℤ, pos, negsuc, magnitude}
use http_rfc_utils.Common.Results.{Result, ok}
use http_rfc_utils.Text.{Text, is_digit, codes, to_decimal}
use http_rfc_utils.Text.Laws.{Lacks}
use http_rfc_utils.Text.Trim.{cut_at-append}
use http_rfc_utils.Text.Decimal.{to_decimal-digits, to_decimal-ne-nil}
use http_rfc_utils.StructuredFields.{
  thousandths, not_finite, BareItem, boolean, number, string, bytes, date, token, display, Codecs,
  is_token_char, is_token_start, is_sf_token_text, is_lower, is_upper, is_printable,
}
use http_rfc_utils.StructuredFields.Parser.{
  is_base64, is_base64_group, is_base64_char, parse_string, parse_boolean, parse_byte_sequence,
  parse_date, parse_display_string, parse_number, parse_token, parse_bare_item,
}
use http_rfc_utils.StructuredFields.Serializer.{
  minus_sign, strip_zeros, three_digits, integer_text, number_text, escaped, display_text,
  serialize_bare_item, SfError,
}
use http_rfc_utils.Text.Spans.{Stops, span-append}
use http_rfc_utils.StructuredFields.Spans.{
  Stops-digit, string_body-escaped, display_body-display_text,
}
use http_rfc_utils.StructuredFields.Numbers.{parse_integer-integer_text, parse_number-number_text}

-- The first character of a bare item.
unfoldable pub is_bare_start : ℕ → Bool
unfolding is_digit is_upper is_lower
is_bare_start c = is_digit c || is_upper c || is_lower c || any (λ d. c == d) (codes "\"?:@%-*")

abbrev pub Leads : (ℕ → Bool) → Text → Type 0
Leads p [] = ⊥
Leads p (c ∷ s) = p c ≡ true

abbrev written : Text → Result SfError Text
written s = ok s

pub ok_text : (text s : Text) → written s ≡ written text → text ≡ s
ok_text text s h = ground arith

is_number_start : ℕ → Bool
unfolding is_digit
is_number_start c = c == b'-' || is_digit c

digits_lead : (s rest : Text) → s ≢ [] → all is_digit s ≡ true → Leads is_number_start (s ++ rest)
unfolding is_number_start
digits_lead [] rest n h = absurd (n refl)
digits_lead (c ∷ s) rest n h = ground arith

signed_lead :
    (z : ℤ) (n : ℕ) (rest : Text) → Leads is_number_start (minus_sign z ++ (to_decimal n ++ rest))
unfolding is_number_start
signed_lead (pos m) n rest =
    digits_lead (to_decimal n) rest (to_decimal-ne-nil n) (to_decimal-digits n)
signed_lead (negsuc m) n rest = refl

number_text-lead :
    (z : ℤ) (text rest : Text) → number_text z ≡ ok text → Leads is_number_start (text ++ rest)
unfolding number_text
number_text-lead z text rest h = elim (Bool-cases (magnitude z % 1000 == 0)) [
  | inl i ↦
      let n = magnitude z / 1000 in
      let same : text ≡ minus_sign z ++ to_decimal n = ground (arith, i) in
      rw (same, append_assoc (minus_sign z) (to_decimal n) rest) (signed_lead z n rest)
  | inr i ↦
      let n = magnitude z / 1000 in
      let s = b'.' ∷ strip_zeros (three_digits (magnitude z % 1000)) in
      let same : text ≡ minus_sign z ++ to_decimal n ++ s = ground (arith, i) in
      rw
        (
          same,
          append_assoc (minus_sign z ++ to_decimal n) s rest,
          append_assoc (minus_sign z) (to_decimal n) (s ++ rest),
        )
        (signed_lead z n (s ++ rest))
]

base64_char-ne-colon : (c : ℕ) → is_base64_char c ≡ true → c ≢ b':'
unfolding is_base64_char is_upper is_lower is_digit
base64_char-ne-colon c h = ground arith

base64_group-Lacks :
    (a b c d : ℕ) → is_base64_group a b c d ≡ true → Lacks b':' (a ∷ b ∷ c ∷ d ∷ [])
unfolding is_base64_group
base64_group-Lacks a b c d h =
    let na = base64_char-ne-colon a in
    let nb = base64_char-ne-colon b in
    let nc = base64_char-ne-colon c in
    let nd = base64_char-ne-colon d in
    (ground arith, (ground arith, (ground arith, (ground arith, tt))))

base64_four-Lacks :
    (a b c d : ℕ) (s : Text)
    → all is_base64_char (a ∷ b ∷ c ∷ d ∷ []) ≡ true
    → Lacks b':' s
    → Lacks b':' (a ∷ b ∷ c ∷ d ∷ s)
base64_four-Lacks a b c d s h k =
    let na = base64_char-ne-colon a in
    let nb = base64_char-ne-colon b in
    let nc = base64_char-ne-colon c in
    let nd = base64_char-ne-colon d in
    (ground arith, (ground arith, (ground arith, (ground arith, k))))

base64-Lacks : (s : Text) → is_base64 s ≡ true → Lacks b':' s
unfolding is_base64
base64-Lacks [] h = tt
base64-Lacks (a ∷ b ∷ c ∷ d ∷ []) h = base64_group-Lacks a b c d h
base64-Lacks (a ∷ b ∷ c ∷ d ∷ e ∷ s) h =
    let (p, q) = and_split (all is_base64_char (a ∷ b ∷ c ∷ d ∷ [])) (is_base64 (e ∷ s)) h in
    base64_four-Lacks a b c d (e ∷ s) p (base64-Lacks (e ∷ s) q)
base64-Lacks _ h = absurd (ground arith)

number_start-bare : (s : Text) → Leads is_number_start s → Leads is_bare_start s
unfolding is_number_start is_bare_start is_digit
number_start-bare [] h = h
number_start-bare (c ∷ s) h = ground arith

token-Leads : (t rest : Text) → is_sf_token_text t ≡ true → Leads is_bare_start (t ++ rest)
unfolding is_sf_token_text is_token_start is_bare_start is_upper is_lower
token-Leads [] rest h = absurd (ground arith)
token-Leads (c ∷ t) rest h = ground arith

module _ (codecs : Codecs) where
  -- The codecs of the platform give the value back, and a date has at most fifteen digits.
  abbrev pub Survives : BareItem → Type 0
  Survives (bytes b) =
      (is_base64 (codecs.base64_encode b) ≡ true)
      × (codecs.base64_decode (codecs.base64_encode b) ≡ b)
  Survives (display s) =
      All (λ b. b < 256) (codecs.utf8_encode s)
      × (codecs.utf8_decode (codecs.utf8_encode s) ≡ some s)
  Survives (date z) = magnitude z ≤ 999999999999999
  Survives v = Unit

  parse_bare_item-number :
      (s : Text) → Leads is_number_start s → parse_bare_item codecs s ≡ parse_number s
  unfolding parse_bare_item is_number_start is_digit
  parse_bare_item-number [] h = absurd h
  parse_bare_item-number (c ∷ s) h = ground arith

  parse_bare_item-token :
      (c : ℕ) (s : Text)
      → is_token_start c ≡ true
      → parse_bare_item codecs (c ∷ s) ≡ parse_token (c ∷ s)
  unfolding parse_bare_item is_token_start is_digit is_upper is_lower
  parse_bare_item-token c s h = ground arith

  token_read :
      (t rest : Text)
      → is_sf_token_text t ≡ true
      → Stops is_token_char rest
      → parse_bare_item codecs (t ++ rest) ≡ (some (token t), rest)
  unfolding is_sf_token_text
  token_read [] rest h k = absurd (ground arith)
  token_read (c ∷ t) rest h k =
      let (p, q) = and_split (is_token_start c) (all is_token_char t) h in
      parse_bare_item-token c (t ++ rest) p
      ∙ unfold parse_token in rw (p, span-append is_token_char t rest q k) refl

  string_read :
      (s text rest : Text)
      → serialize_bare_item codecs (string s) ≡ ok text
      → parse_bare_item codecs (text ++ rest) ≡ (some (string s), rest)
  unfolding serialize_bare_item parse_bare_item parse_string
  string_read s text rest h =
      let valid : all is_printable s ≡ true = ground arith in
      let same : text ≡ b'"' ∷ escaped s ++ b'"' ∷ [] = ground arith in
      rw (same, append_assoc (escaped s) (b'"' ∷ []) rest, string_body-escaped s rest valid) refl

  byte_sequence_read :
      (e rest : Text)
      → is_base64 e ≡ true
      → parse_byte_sequence codecs (e ++ b':' ∷ rest)
        ≡ (some (bytes (codecs.base64_decode e)), rest)
  unfolding parse_byte_sequence
  byte_sequence_read e rest h = ground (arith, cut_at-append b':' e rest (base64-Lacks e h), h)

  bytes_read :
      (b : List ℕ) (text rest : Text)
      → Survives (bytes b)
      → serialize_bare_item codecs (bytes b) ≡ ok text
      → parse_bare_item codecs (text ++ rest) ≡ (some (bytes b), rest)
  unfolding serialize_bare_item parse_bare_item
  bytes_read b text rest (valid, back) h =
      let e = codecs.base64_encode b in
      rw
        (
          ok_text text (b':' ∷ e ++ b':' ∷ []) h,
          append_assoc e (b':' ∷ []) rest,
          byte_sequence_read e rest valid,
          back,
        )
        refl

  display_read :
      (s text rest : Text)
      → Survives (display s)
      → serialize_bare_item codecs (display s) ≡ ok text
      → parse_bare_item codecs (text ++ rest) ≡ (some (display s), rest)
  unfolding serialize_bare_item parse_bare_item parse_display_string
  display_read s text rest (in_range, back) h =
      let body = display_text (codecs.utf8_encode s) in
      let same : text ≡ codes "%\"" ++ body ++ b'"' ∷ [] = ground arith in
      rw
        (
          same,
          append_assoc body (b'"' ∷ []) rest,
          display_body-display_text (codecs.utf8_encode s) rest in_range,
          back,
        )
        refl

  -- A bare item is read back from its text, in front of a text that does not go on with a character
  -- of a token.
  pub parse_bare_item-serialize :
      (v : BareItem) (text rest : Text)
      → Survives v
      → serialize_bare_item codecs v ≡ ok text
      → Stops is_token_char rest
      → parse_bare_item codecs (text ++ rest) ≡ (some v, rest)
  unfolding serialize_bare_item
  parse_bare_item-serialize (boolean true) text rest v h k =
      rw (ok_text text (codes "?1") h) (unfold parse_bare_item parse_boolean in refl)
  parse_bare_item-serialize (boolean false) text rest v h k =
      rw (ok_text text (codes "?0") h) (unfold parse_bare_item parse_boolean in refl)
  parse_bare_item-serialize (number (thousandths z)) text rest v h k =
      parse_bare_item-number (text ++ rest) (number_text-lead z text rest h)
      ∙ parse_number-number_text z text rest h k
  parse_bare_item-serialize (number not_finite) text rest v h k = absurd (ground arith)
  parse_bare_item-serialize (string s) text rest v h k = string_read s text rest h
  parse_bare_item-serialize (bytes b) text rest v h k = bytes_read b text rest v h
  parse_bare_item-serialize (date z) text rest v h k = rw (ok_text text (b'@' ∷ integer_text z) h) (
      unfold parse_bare_item parse_date in
      rw (parse_integer-integer_text z rest v (Stops-digit rest k)) refl)
  parse_bare_item-serialize (token t) text rest v h k =
      let valid : is_sf_token_text t ≡ true = ground arith in
      let same : text ≡ t = ground arith in rw same (token_read t rest valid k)
  parse_bare_item-serialize (display s) text rest v h k = display_read s text rest v h

  pub serialize_bare_item-Leads :
      (v : BareItem) (text rest : Text)
      → serialize_bare_item codecs v ≡ ok text
      → Leads is_bare_start (text ++ rest)
  unfolding serialize_bare_item is_bare_start
  serialize_bare_item-Leads (boolean true) text rest h = rw (ok_text text (codes "?1") h) refl
  serialize_bare_item-Leads (boolean false) text rest h = rw (ok_text text (codes "?0") h) refl
  serialize_bare_item-Leads (number (thousandths z)) text rest h =
      number_start-bare (text ++ rest) (number_text-lead z text rest h)
  serialize_bare_item-Leads (number not_finite) text rest h = absurd (ground arith)
  serialize_bare_item-Leads (string s) text rest h =
      let same : text ≡ b'"' ∷ escaped s ++ b'"' ∷ [] = ground arith in rw same refl
  serialize_bare_item-Leads (bytes b) text rest h =
      rw (ok_text text (b':' ∷ codecs.base64_encode b ++ b':' ∷ []) h) refl
  serialize_bare_item-Leads (date z) text rest h = rw (ok_text text (b'@' ∷ integer_text z) h) refl
  serialize_bare_item-Leads (token t) text rest h =
      let valid : is_sf_token_text t ≡ true = ground arith in
      let same : text ≡ t = ground arith in rw same (token-Leads t rest valid)
  serialize_bare_item-Leads (display s) text rest h =
      let same : text ≡ codes "%\"" ++ display_text (codecs.utf8_encode s) ++ b'"' ∷ [] =
        ground arith in
      rw same refl
