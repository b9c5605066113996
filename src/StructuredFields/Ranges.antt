-- ===== src/StructuredFields/Ranges.antt =====
-- The numbers that the parser reads are in the range of the serializer.
use native.Mathlib.Nat.{mul-le-mul_left}
use http_rfc_utils.Common.{
  ℕ, zero, suc, ◌+◌, ◌-◌, ◌*◌, ◌/◌, ◌%◌, ◌<◌, ◌≤◌, Bool, true, false, ◌||◌, [], ◌∷◌, ◌++◌, some,
  ◌≡◌, refl, ap, ◌∙◌, arith, ◌==◌, ltb, all, Bool-cases, inl, inr, ◌⊎◌, length, is_empty,
  if◌then◌else◌,
}
use http_rfc_utils.Common.Int.{ℤ, magnitude, negate}
use http_rfc_utils.Common.Results.{ok}
use http_rfc_utils.Text.{Text, is_digit, span, digits_value, to_decimal}
use http_rfc_utils.StructuredFields.{thousandths, number}
use http_rfc_utils.StructuredFields.Parser.{read_minus, signed, read_decimals, scaled, parse_number}
use http_rfc_utils.StructuredFields.Serializer.{minus_sign, strip_zeros, three_digits, number_text}
use http_rfc_utils.Text.Decimal.{ten_to}

span-all : (p : ℕ → Bool) (s : Text) → all p (span p s).0 ≡ true
unfolding span
span-all p [] = refl
span-all p (c ∷ s) = ground (arith, span-all p s)

digits_value-bound :
    (n : ℕ) (s : Text) → all is_digit s ≡ true → suc (digits_value n s) ≤ suc n * ten_to (length s)
unfolding digits_value
digits_value-bound n [] h = omega arith
digits_value-bound n (c ∷ s) h =
    let small : c - b'0' ≤ 9 = unfold is_digit in ground arith in
    let rest : all is_digit s ≡ true = ground arith in
    let ih = digits_value-bound (n * 10 + (c - b'0')) s rest in
    let wide : ten_to (length s) * suc (n * 10 + (c - b'0')) ≤ ten_to (length s) * (suc n * 10) =
      mul-le-mul_left (ten_to (length s)) (omega (arith, small)) in
    omega (arith, ih, wide)

ten_to_mono : (d b : ℕ) → d ≤ b → ten_to d ≤ ten_to b
ten_to_mono zero zero h = omega arith
ten_to_mono zero (suc b) h = omega (arith, ten_to_mono zero b (omega arith))
ten_to_mono (suc d) zero h = absurd (omega arith)
ten_to_mono (suc d) (suc b) h = omega (arith, ten_to_mono d b (omega arith))

-- A text of at most so many digits.
digits_value-small :
    (d : ℕ) (s : Text) → all is_digit s ≡ true → length s ≤ d → digits_value 0 s < ten_to d
digits_value-small d s h k = omega (arith, digits_value-bound 0 s h, ten_to_mono (length s) d k)

magnitude-signed : (minus : Bool) (n : ℕ) → magnitude (signed minus n) ≡ n
unfolding signed negate
magnitude-signed false n = refl
magnitude-signed true zero = refl
magnitude-signed true (suc n) = refl

-- At most three decimals are read, which are fewer than a thousand thousandths.
read_decimals-bound : (s : Text) → scaled (read_decimals s).0 < 1000
unfolding read_decimals scaled
read_decimals-bound [] = omega arith
read_decimals-bound (a ∷ []) = omega arith
read_decimals-bound (a ∷ b ∷ []) = unfold digits_value is_digit in ground arith
read_decimals-bound (a ∷ b ∷ c ∷ []) = unfold digits_value is_digit in ground arith
read_decimals-bound (a ∷ b ∷ c ∷ d ∷ s) = unfold digits_value is_digit in ground arith

number_text-total :
    (z : ℤ)
    → (magnitude z % 1000 ≡ 0) × (magnitude z / 1000 ≤ 999999999999999)
      ⊎ (magnitude z ≤ 999999999999999)
    → (text : Text) × (number_text z ≡ ok text)
unfolding number_text
number_text-total z h = elim (Bool-cases (magnitude z % 1000 == 0)) [
  | inl i ↦ (minus_sign z ++ to_decimal (magnitude z / 1000), ground (arith, i))
  | inr i ↦ (
    minus_sign z
        ++ to_decimal (magnitude z / 1000)
        ++ b'.' ∷ strip_zeros (three_digits (magnitude z % 1000)),
    ground (arith, i),
  )
]

scaled-empty : (s : Text) → is_empty s ≡ true → scaled s ≡ 0
unfolding scaled
scaled-empty [] h = refl
scaled-empty (c ∷ s) h = absurd (ground arith)

-- A number that the parser reads is in the range of the serializer: it is written again.
pub parse_number-number_text_total :
    (z : ℤ) (s rest : Text)
    → parse_number s ≡ (some (number (thousandths z)), rest)
    → (text : Text) × (number_text z ≡ ok text)
unfolding parse_number
parse_number-number_text_total z s rest h =
    let (minus, unsigned) = read_minus s in
    let (whole, behind) = span is_digit unsigned in
    let (decimals, _) = read_decimals behind in
    let n = digits_value 0 whole * 1000 + scaled decimals in
    let valid = span-all is_digit unsigned in
    elim (Bool-cases
      (is_empty whole || ltb (if is_empty decimals then 15 else 12) (length whole))) [
        | inl e ↦ absurd (ground (arith, e))
        | inr e ↦
            let value : z ≡ signed minus n = ground (arith, e) in
            let same : magnitude z ≡ n = ap magnitude value ∙ magnitude-signed minus n in
            number_text-total z (elim (Bool-cases (is_empty decimals)) [
              | inl integer ↦
                  let short : length whole ≤ 15 = ground (arith, e, integer) in
                  let small = digits_value-small 15 whole valid short in
                  let none_behind = scaled-empty decimals integer in
                  inl (omega (arith, same, none_behind), omega (arith, same, none_behind, small))
              | inr decimal ↦
                  let short : length whole ≤ 12 = ground (arith, e, decimal) in
                  let small = digits_value-small 12 whole valid short in
                  inr (omega (arith, same, small, read_decimals-bound behind))
            ])
      ]
