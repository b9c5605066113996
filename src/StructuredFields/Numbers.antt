-- ===== src/StructuredFields/Numbers.antt =====
-- Numbers and dates are read back from the text that is written for them.
use http_rfc_utils.Common.{
  ℕ, zero, suc, ◌+◌, ◌*◌, ◌/◌, ◌%◌, ◌<◌, ◌≤◌, Bool, true, false, [], ◌∷◌, ◌++◌, some, ◌≡◌, ◌≢◌,
  refl, ◌∙◌, arith, all, ◌==◌, ltb, Bool-cases, inl, inr, length, is_empty, if◌then◌else◌,
  append_assoc,
}
use http_rfc_utils.Common.Int.{ℤ, pos, negsuc, magnitude, negate}
use http_rfc_utils.Common.Results.{ok}
use http_rfc_utils.Text.{span, Text, is_digit, to_decimal, decimal_from, digits_value, parse_int}
use http_rfc_utils.Text.Decimal.{ten_to, to_decimal-digits, to_decimal-ne-nil, parse_int-to_decimal}
use http_rfc_utils.StructuredFields.{thousandths, number, is_token_char, is_lower, is_upper}
use http_rfc_utils.StructuredFields.Parser.{
  read_minus, signed, parse_integer, read_decimals, scaled, parse_number,
}
use http_rfc_utils.StructuredFields.Serializer.{
  minus_sign, integer_text, strip_zeros, three_digits, number_text,
}
use http_rfc_utils.Text.Spans.{Stops, span-append}
use http_rfc_utils.StructuredFields.Spans.{Stops-digit}

length-decimal_from :
    (d f n : ℕ) (out : Text)
    → n < ten_to d * 10
    → length (decimal_from f n out) ≤ suc d + length out
unfolding decimal_from
length-decimal_from d zero n out h = omega arith
length-decimal_from zero (suc f) n out h = ground arith
length-decimal_from (suc d) (suc f) n out h =
    ground (arith, length-decimal_from d f (n / 10) ((b'0' + n % 10) ∷ out) (omega arith))

-- A number below 10 ^ (d + 1) has at most d + 1 digits.
length-to_decimal : (d n : ℕ) → n < ten_to d * 10 → length (to_decimal n) ≤ suc d
unfolding to_decimal
length-to_decimal d n h = omega (arith, length-decimal_from d (suc n) n [] h)

read_minus-digits :
    (s rest : Text) → s ≢ [] → all is_digit s ≡ true → read_minus (s ++ rest) ≡ (false, s ++ rest)
unfolding read_minus is_digit
read_minus-digits [] rest n h = absurd (n refl)
read_minus-digits (c ∷ s) rest n h = ground arith

abbrev is_minus : ℤ → Bool
is_minus (pos n) = false
is_minus (negsuc n) = true

read_minus-minus_sign :
    (z : ℤ) (s rest : Text)
    → s ≢ []
    → all is_digit s ≡ true
    → read_minus (minus_sign z ++ (s ++ rest)) ≡ (is_minus z, s ++ rest)
read_minus-minus_sign (pos n) s rest ne h = read_minus-digits s rest ne h
read_minus-minus_sign (negsuc n) s rest ne h = unfold read_minus in refl

signed-magnitude : (z : ℤ) → signed (is_minus z) (magnitude z) ≡ z
unfolding signed negate
signed-magnitude (pos n) = refl
signed-magnitude (negsuc n) = refl

digits_value-to_decimal : (n : ℕ) → digits_value 0 (to_decimal n) ≡ n
digits_value-to_decimal n = unfold parse_int in parse_int-to_decimal n

is_empty-ne-nil : (s : Text) → s ≢ [] → is_empty s ≡ false
is_empty-ne-nil [] n = absurd (n refl)
is_empty-ne-nil (c ∷ s) n = refl

span-to_decimal :
    (n : ℕ) (rest : Text)
    → Stops is_digit rest
    → span is_digit (to_decimal n ++ rest) ≡ (to_decimal n, rest)
span-to_decimal n rest h = span-append is_digit (to_decimal n) rest (to_decimal-digits n) h

-- `parseInteger` reads what `String` writes of an integer of at most fifteen digits.
pub parse_integer-integer_text :
    (z : ℤ) (rest : Text)
    → magnitude z ≤ 999999999999999
    → Stops is_digit rest
    → parse_integer (integer_text z ++ rest) ≡ (some z, rest)
unfolding parse_integer integer_text
parse_integer-integer_text z rest h k =
    let n = magnitude z in
    let short : ltb 15 (length (to_decimal n)) ≡ false =
      ground (arith, length-to_decimal 14 n (omega arith)) in
    rw
      (
        append_assoc (minus_sign z) (to_decimal n) rest,
        read_minus-minus_sign z (to_decimal n) rest (to_decimal-ne-nil n) (to_decimal-digits n),
        span-to_decimal n rest k,
        is_empty-ne-nil (to_decimal n) (to_decimal-ne-nil n),
        short,
        digits_value-to_decimal n,
        signed-magnitude z,
      )
      refl

read_decimals-none : (rest : Text) → Stops is_token_char rest → read_decimals rest ≡ ([], rest)
unfolding read_decimals is_token_char is_digit is_lower is_upper
read_decimals-none [] h = refl
read_decimals-none (c ∷ []) h = refl
read_decimals-none (c ∷ d ∷ []) h = ground arith
read_decimals-none (c ∷ d ∷ e ∷ []) h = ground arith
read_decimals-none (c ∷ d ∷ e ∷ f ∷ s) h = ground arith

read_one :
    (a : ℕ) (rest : Text)
    → is_digit a ≡ true
    → Stops is_digit rest
    → read_decimals (b'.' ∷ a ∷ rest) ≡ (a ∷ [], rest)
unfolding read_decimals
read_one a [] h k = rw h refl
read_one a (c ∷ []) h k = rw (h, k) refl
read_one a (c ∷ d ∷ s) h k = rw (h, k) refl

read_two :
    (a b : ℕ) (rest : Text)
    → is_digit a ≡ true
    → is_digit b ≡ true
    → Stops is_digit rest
    → read_decimals (b'.' ∷ a ∷ b ∷ rest) ≡ (a ∷ b ∷ [], rest)
unfolding read_decimals
read_two a b [] h i k = rw (h, i) refl
read_two a b (c ∷ s) h i k = rw (h, i, k) refl

read_three :
    (a b c : ℕ) (rest : Text)
    → is_digit a ≡ true
    → is_digit b ≡ true
    → is_digit c ≡ true
    → read_decimals (b'.' ∷ a ∷ b ∷ c ∷ rest) ≡ (a ∷ b ∷ c ∷ [], rest)
unfolding read_decimals
read_three a b c rest h i j = rw (h, i, j) refl

digit_is_digit : (d : ℕ) → d < 10 → is_digit (b'0' + d) ≡ true
unfolding is_digit
digit_is_digit d h = ground arith

-- The decimals that are written, without the zeros behind them, are read back.
read_decimals-strip_zeros :
    (a b c : ℕ) (rest : Text)
    → a < 10
    → b < 10
    → c < 10
    → 0 < a + b + c
    → Stops is_digit rest
    → let s = strip_zeros ((b'0' + a) ∷ (b'0' + b) ∷ (b'0' + c) ∷ []) in
      (read_decimals (b'.' ∷ s ++ rest) ≡ (s, rest))
      × (scaled s ≡ a * 100 + b * 10 + c)
      × (is_empty s ≡ false)
unfolding strip_zeros
read_decimals-strip_zeros a b c rest ha hb hc h k = elim (Bool-cases (b'0' + c == b'0')) [
  | inr e ↦
      let same : strip_zeros ((b'0' + a) ∷ (b'0' + b) ∷ (b'0' + c) ∷ [])
          ≡ (b'0' + a) ∷ (b'0' + b) ∷ (b'0' + c) ∷ [] =
        ground (arith, e) in
      rw same (
        read_three (b'0' + a) (b'0' + b) (b'0' + c) rest (digit_is_digit a ha) (digit_is_digit b hb)
            (digit_is_digit c hc),
        unfold scaled digits_value in omega arith,
        refl,
      )
  | inl e ↦ elim (Bool-cases (b'0' + b == b'0')) [
    | inr f ↦
        let same : strip_zeros ((b'0' + a) ∷ (b'0' + b) ∷ (b'0' + c) ∷ [])
            ≡ (b'0' + a) ∷ (b'0' + b) ∷ [] =
          ground (arith, e, f) in
        rw same (
          read_two (b'0' + a) (b'0' + b) rest (digit_is_digit a ha) (digit_is_digit b hb) k,
          unfold scaled digits_value in ground arith,
          refl,
        )
    | inl f ↦ elim (Bool-cases (b'0' + a == b'0')) [
      | inl g ↦ absurd (ground arith)
      | inr g ↦
          let same : strip_zeros ((b'0' + a) ∷ (b'0' + b) ∷ (b'0' + c) ∷ []) ≡ (b'0' + a) ∷ [] =
            ground (arith, e, f, g) in
          rw same (
            read_one (b'0' + a) rest (digit_is_digit a ha) k,
            unfold scaled digits_value in ground arith,
            refl,
          )
    ]
  ]
]

read_decimals-three_digits :
    (f : ℕ) (rest : Text)
    → f < 1000
    → 0 < f
    → Stops is_digit rest
    → let s = strip_zeros (three_digits f) in
      (read_decimals (b'.' ∷ s ++ rest) ≡ (s, rest)) × (scaled s ≡ f) × (is_empty s ≡ false)
unfolding three_digits
read_decimals-three_digits f rest h p k =
    let (r, v, n) =
      read_decimals-strip_zeros (f / 100 % 10) (f / 10 % 10) (f % 10) rest (omega arith)
        (omega arith) (omega arith) (omega arith) k in
    (r, v ∙ omega arith, n)

-- A sign, the digits of a number and decimals that are read as such.
parse_number-parts :
    (z : ℤ) (n : ℕ) (decimals behind rest : Text)
    → read_decimals behind ≡ (decimals, rest)
    → Stops is_digit behind
    → ltb (if is_empty decimals then 15 else 12) (length (to_decimal n)) ≡ false
    → n * 1000 + scaled decimals ≡ magnitude z
    → parse_number (minus_sign z ++ (to_decimal n ++ behind))
      ≡ (some (number (thousandths z)), rest)
unfolding parse_number
parse_number-parts z n decimals behind rest r k short v =
    rw
      (
        read_minus-minus_sign z (to_decimal n) behind (to_decimal-ne-nil n) (to_decimal-digits n),
        span-to_decimal n behind k,
        is_empty-ne-nil (to_decimal n) (to_decimal-ne-nil n),
        r,
        short,
        digits_value-to_decimal n,
        v,
        signed-magnitude z,
      )
      refl

-- `parseNumber` reads what the serializer writes of a number.
pub parse_number-number_text :
    (z : ℤ) (text rest : Text)
    → number_text z ≡ ok text
    → Stops is_token_char rest
    → parse_number (text ++ rest) ≡ (some (number (thousandths z)), rest)
unfolding number_text
parse_number-number_text z text rest h k = elim (Bool-cases (m % 1000 == 0)) [
  | inl i ↦
      let same : text ≡ minus_sign z ++ to_decimal (m / 1000) = ground (arith, i) in
      let fits : m / 1000 ≤ 999999999999999 = ground (arith, i) in
      rw (same, append_assoc (minus_sign z) (to_decimal (m / 1000)) rest)
        (parse_number-parts z (m / 1000) [] rest rest (read_decimals-none rest k)
          (Stops-digit rest k) (ground (arith, length-to_decimal 14 (m / 1000) (omega arith)))
          (unfold scaled in ground (arith, i)))
  | inr i ↦
      let f = m % 1000 in
      let s = strip_zeros (three_digits f) in
      let same : text ≡ minus_sign z ++ to_decimal (m / 1000) ++ b'.' ∷ s = ground (arith, i) in
      let fits : m ≤ 999999999999999 = ground (arith, i) in
      let (r, v, n) =
        read_decimals-three_digits f rest (omega arith) (ground (arith, i)) (Stops-digit rest k) in
      let decimals : read_decimals (b'.' ∷ s ++ rest) ≡ (s, rest) = r in
      let short : ltb (if is_empty s then 15 else 12) (length (to_decimal (m / 1000))) ≡ false =
        rw n (ground (arith, length-to_decimal 11 (m / 1000) (omega arith))) in
      rw
        (
          same,
          append_assoc (minus_sign z ++ to_decimal (m / 1000)) (b'.' ∷ s) rest,
          append_assoc (minus_sign z) (to_decimal (m / 1000)) (b'.' ∷ s ++ rest),
        )
        (parse_number-parts z (m / 1000) s (b'.' ∷ s ++ rest) rest decimals
          (unfold is_digit in refl) short (omega (arith, v)))
]
  where
    m : ℕ
    m = magnitude z
