-- ===== src/Datetime/Digits.antt =====
-- A run of digits of a fixed length is read as the number that it prints, and the other way round.
use native.Mathlib.Nat.{mul-le-mul_right}
use http_rfc_utils.Common.{
  ℕ, zero, suc, ◌+◌, ◌-◌, ◌*◌, ◌/◌, ◌%◌, ◌<◌, ◌≤◌, true, [], ◌∷◌, ◌++◌, some, ◌≡◌, refl, ap, ◌∙◌,
  arith, Bool-cases, inl, inr, append_assoc,
}
use http_rfc_utils.Text.Decimal.{ten_to}
use http_rfc_utils.Text.{Text, is_digit}
use http_rfc_utils.Datetime.Pieces.{read_digits, print_digits}

digit_back : (v : ℕ) → (is_digit (b'0' + v % 10) ≡ true) × (b'0' + v % 10 - b'0' ≡ v % 10)
unfolding is_digit
digit_back v = (ground arith, omega arith)

-- One digit more is read behind the others.
read_digits-behind :
    (n a w c : ℕ) (s rest : Text)
    → read_digits n a s ≡ some (w, c ∷ rest)
    → is_digit c ≡ true
    → read_digits (suc n) a s ≡ some (w * 10 + (c - b'0'), rest)
unfolding read_digits
read_digits-behind zero a w c s rest h d =
    let first : a ≡ w = ground arith in
    let text : s ≡ c ∷ rest = ground arith in rw (text, d, first) refl
read_digits-behind (suc n) a w c [] rest h d = absurd (ground arith)
read_digits-behind (suc n) a w c (e ∷ s) rest h d = elim (Bool-cases (is_digit e)) [
  | inr no_digit ↦ absurd (ground arith)
  | inl digit ↦
      let more : read_digits n (a * 10 + (e - b'0')) s ≡ some (w, c ∷ rest) = ground arith in
      rw (read_digits, digit) (read_digits-behind n (a * 10 + (e - b'0')) w c s rest more d)
]

read_digits-from :
    (n a v : ℕ) (rest : Text)
    → v < ten_to n
    → read_digits n a (print_digits n v ++ rest) ≡ some (a * ten_to n + v, rest)
unfolding print_digits
read_digits-from zero a v rest h = unfold read_digits in ap (λ k. some (k, rest)) (omega arith)
read_digits-from (suc n) a v rest h =
    let (digit, value) = digit_back v in
    rw (append_assoc (print_digits n (v / 10)) ((b'0' + v % 10) ∷ []) rest) (
      read_digits-behind n a (a * ten_to n + v / 10) (b'0' + v % 10)
        (print_digits n (v / 10) ++ (b'0' + v % 10) ∷ rest) rest
        (read_digits-from n a (v / 10) ((b'0' + v % 10) ∷ rest) (omega arith)) digit
      ∙ ap (λ k. some (k, rest)) (omega arith))

pub read_digits-print_digits :
    (n v : ℕ) (rest : Text)
    → v < ten_to n
    → read_digits n 0 (print_digits n v ++ rest) ≡ some (v, rest)
read_digits-print_digits n v rest h =
    read_digits-from n 0 v rest h ∙ ap (λ k. some (k, rest)) (omega arith)

print_digits-first :
    (n d v : ℕ)
    → d < 10
    → v < ten_to n
    → print_digits (suc n) (d * ten_to n + v) ≡ (b'0' + d) ∷ print_digits n v
unfolding print_digits
print_digits-first zero d v hd hv = ap (λ k. (b'0' + k) ∷ []) (omega arith)
print_digits-first (suc n) d v hd hv =
    let front : (d * (ten_to n * 10) + v) / 10 ≡ d * ten_to n + v / 10 = omega arith in
    let last : (d * (ten_to n * 10) + v) % 10 ≡ v % 10 = omega arith in
    let ih = print_digits-first n d (v / 10) hd (omega arith) in rw (front, last, ih) refl

-- The number that was read, and the text that prints it.
read_digits-text :
    (n a v : ℕ) (s rest : Text)
    → read_digits n a s ≡ some (v, rest)
    → (w : ℕ) × (w < ten_to n) × (v ≡ a * ten_to n + w) × (s ≡ print_digits n w ++ rest)
unfolding read_digits
read_digits-text zero a v s rest h =
    (0, omega arith, ground arith, unfold print_digits in ground arith)
read_digits-text (suc n) a v [] rest h = absurd (ground arith)
read_digits-text (suc n) a v (c ∷ s) rest h = elim (Bool-cases (is_digit c)) [
  | inr no_digit ↦ absurd (ground arith)
  | inl digit ↦
      let more : read_digits n (a * 10 + (c - b'0')) s ≡ some (v, rest) = ground arith in
      let (w, small, value, text) = read_digits-text n (a * 10 + (c - b'0')) v s rest more in
      let d = c - b'0' in
      let least : (d < 10) × (b'0' + d ≡ c) = unfold is_digit in ground arith in
      let nines : d * ten_to n ≤ 9 * ten_to n =
        mul-le-mul_right (ten_to n) (omega (arith, least)) in
      (
        d * ten_to n + w,
        omega (arith, nines),
        ground (arith, value),
        rw (text, print_digits-first n d w least.0 small, least.1) refl,
      )
]

pub read_digits-print :
    (n v : ℕ) (s rest : Text)
    → read_digits n 0 s ≡ some (v, rest)
    → (v < ten_to n) × (s ≡ print_digits n v ++ rest)
read_digits-print n v s rest h =
    let (w, small, value, text) = read_digits-text n 0 v s rest h in
    let same : w ≡ v = omega (arith, value) in rw (← same) (small, text)
