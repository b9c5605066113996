-- ===== src/Text/Decimal.antt =====
-- Reading a number from the decimal text that prints it.
use http_rfc_utils.Common.{
  ℕ, zero, suc, ◌+◌, ◌*◌, ◌/◌, ◌%◌, ◌<◌, true, [], ◌∷◌, ◌≡◌, ◌≢◌, refl, ap, ◌∙◌, arith, ◌==◌, all,
  Bool-cases, inl, inr,
}
use http_rfc_utils.Text.{Text, is_digit, digits_value, parse_int, decimal_from, to_decimal}

-- A power of ten.
abbrev pub ten_to : ℕ → ℕ
ten_to zero = 1
ten_to (suc d) = ten_to d * 10

digits_value-digit :
    (m d n : ℕ) (s : Text) → m * 10 + d ≡ n → digits_value m ((b'0' + d) ∷ s) ≡ digits_value n s
unfolding digits_value
digits_value-digit m d n s e = ap (λ k. digits_value k s) (ground arith)

digits_value-decimal_from :
    (f n : ℕ) (out : Text) → n < f → digits_value 0 (decimal_from f n out) ≡ digits_value n out
unfolding decimal_from
digits_value-decimal_from zero n out h = absurd (omega arith)
digits_value-decimal_from (suc f) n out h = elim (Bool-cases (n / 10 == 0)) [
  | inl last ↦ rw last (digits_value-digit 0 (n % 10) n out (ground arith))
  | inr more ↦ rw more (
      digits_value-decimal_from f (n / 10) ((b'0' + n % 10) ∷ out) (ground arith)
      ∙ digits_value-digit (n / 10) (n % 10) n out (omega arith))
]

decimal_from-digits :
    (f n : ℕ) (out : Text) → all is_digit out ≡ true → all is_digit (decimal_from f n out) ≡ true
unfolding decimal_from is_digit
decimal_from-digits zero n out h = h
decimal_from-digits (suc f) n out h =
    ground (arith, decimal_from-digits f (n / 10) ((b'0' + n % 10) ∷ out))

decimal_from-ne-nil : (f n : ℕ) (out : Text) → out ≢ [] → decimal_from f n out ≢ []
unfolding decimal_from
decimal_from-ne-nil zero n out h = h
decimal_from-ne-nil (suc f) n out h =
    ground (arith, decimal_from-ne-nil f (n / 10) ((b'0' + n % 10) ∷ out))

-- `parseInt` reads back what `String` writes.
pub parse_int-to_decimal : (n : ℕ) → parse_int (to_decimal n) ≡ n
unfolding parse_int to_decimal
parse_int-to_decimal n =
    digits_value-decimal_from (suc n) n [] (omega arith) ∙ unfold digits_value in refl

pub to_decimal-digits : (n : ℕ) → all is_digit (to_decimal n) ≡ true
unfolding to_decimal
to_decimal-digits n = decimal_from-digits (suc n) n [] refl

pub to_decimal-ne-nil : (n : ℕ) → to_decimal n ≢ []
unfolding to_decimal decimal_from
to_decimal-ne-nil n = ground (arith, decimal_from-ne-nil n (n / 10) ((b'0' + n % 10) ∷ []))
