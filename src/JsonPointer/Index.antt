-- ===== src/JsonPointer/Index.antt =====
-- Array indices: which tokens are indices, and the number of each.
use http_rfc_utils.Common.{
  ℕ, ◌+◌, ◌-◌, ◌*◌, ◌<◌, ◌≤◌, true, false, [], ◌∷◌, ◌++◌, ◌≡◌, refl, arith, ◌↔◌, ◌⊎◌, inl, inr, all,
  append_assoc, append-nil, Bool-cases,
}
use http_rfc_utils.Text.{Text, codes, text_eq, is_digit, parse_int, digits_value}
use http_rfc_utils.Text.Laws.{text_eq_iff}
use http_rfc_utils.JsonPointer.{is_valid_array_index, numeral}

-- array-index = "0" / ( "1"-"9" *DIGIT ), with its number: each digit adds itself to ten times
-- the number in front of it.
pub data ElementIndex : Text → ℕ → Type 0 where
  zero : ElementIndex (codes "0") 0
  first :
      {c : ℕ}
      → b'1' ≤ c
      → c ≤ b'9'
      → {s : Text} {n : ℕ} → s ≡ c ∷ []
      → n ≡ c - b'0'
      → ElementIndex s n
  next :
      {s t : Text} {n m c : ℕ}
      → ElementIndex s n
      → 0 < n
      → b'0' ≤ c
      → c ≤ b'9'
      → t ≡ s ++ c ∷ []
      → m ≡ n * 10 + (c - b'0')
      → ElementIndex t m

extend :
    (s t : Text) (n : ℕ)
    → ElementIndex s n
    → 0 < n
    → all is_digit t ≡ true
    → ElementIndex (s ++ t) (digits_value n t)
unfolding is_digit digits_value
extend s [] n i p h = rw append-nil i
extend s (c ∷ t) n i p h = rw (← append_assoc s (c ∷ []) t) (
    extend (s ++ c ∷ []) t (n * 10 + (c - b'0')) (next i p (ground arith) (ground arith) refl refl)
      (ground arith) (ground arith))

digits_value-append :
    (n c : ℕ) (s : Text) → digits_value n (s ++ c ∷ []) ≡ digits_value n s * 10 + (c - b'0')
unfolding digits_value
digits_value-append n c [] = refl
digits_value-append n c (d ∷ s) = digits_value-append (n * 10 + (d - b'0')) c s

numeral-ElementIndex : (s : Text) → numeral s ≡ true → ElementIndex s (parse_int s)
unfolding numeral parse_int
numeral-ElementIndex [] h = cc
numeral-ElementIndex (c ∷ s) h =
    extend (c ∷ []) s (0 * 10 + (c - b'0'))
      (first {c = c} (ground arith) (ground arith) refl (ground arith)) (ground arith)
      (ground arith)

all_digits-append :
    (s : Text) (c : ℕ)
    → all is_digit s ≡ true
    → is_digit c ≡ true
    → all is_digit (s ++ c ∷ []) ≡ true
all_digits-append [] c h d = ground arith
all_digits-append (x ∷ s) c h d = ground (arith, all_digits-append s c)

numeral-append :
    (s : Text) (c : ℕ) → numeral s ≡ true → is_digit c ≡ true → numeral (s ++ c ∷ []) ≡ true
unfolding numeral
numeral-append [] c h d = cc
numeral-append (x ∷ s) c h d = ground (arith, all_digits-append s c)

abbrev IsNumeral : Text → ℕ → Type 0
IsNumeral s n = (numeral s ≡ true) × (parse_int s ≡ n)

IsNumeral-append :
    (s : Text) (n c : ℕ)
    → b'0' ≤ c
    → c ≤ b'9'
    → IsNumeral s n
    → IsNumeral (s ++ c ∷ []) (n * 10 + (c - b'0'))
unfolding parse_int is_digit
IsNumeral-append s n c lo hi (h, e) =
    (numeral-append s c h (ground arith), ground (arith, digits_value-append 0 c s))

ElementIndex-IsNumeral : {s : Text} {n : ℕ} → ElementIndex s n → 0 < n → IsNumeral s n
ElementIndex-IsNumeral zero p = absurd (omega arith)
ElementIndex-IsNumeral (first {c} lo hi es en) p =
    rw (es, en) (unfold numeral parse_int digits_value in (ground arith, ground arith))
ElementIndex-IsNumeral (next {s} {n} {c} i p lo hi es en) _ =
    rw (es, en) (IsNumeral-append s n c lo hi (ElementIndex-IsNumeral i p))

numeral-lead :
    (s : Text)
    → numeral s ≡ true
    → (text_eq s (codes "-") ≡ false) × (text_eq s [] ≡ false) × (text_eq s (codes "0") ≡ false)
unfolding numeral text_eq
numeral-lead [] h = cc
numeral-lead (c ∷ s) h = ground arith

ElementIndex-cases : {s : Text} {n : ℕ} → ElementIndex s n → ((s ≡ codes "0") × (n ≡ 0)) ⊎ (0 < n)
ElementIndex-cases zero = inl (refl, refl)
ElementIndex-cases (first lo hi es en) = inr (omega arith)
ElementIndex-cases (next i p lo hi es en) = inr (omega arith)

-- The tests that the loop of `evaluateJsonPointer` makes of a token before it indexes.
abbrev pub IsPosition : Text → ℕ → Type 0
IsPosition token n =
    (text_eq token (codes "-") ≡ false)
    × (is_valid_array_index token ≡ true)
    × (parse_int token ≡ n)

pub IsPosition-ElementIndex : (token : Text) (n : ℕ) → IsPosition token n → ElementIndex token n
IsPosition-ElementIndex token n (d, v, e) = elim (Bool-cases (text_eq token (codes "0"))) [
  | inl z ↦
      let t = (text_eq_iff token (codes "0")).0 z in
      let n_zero : n ≡ 0 = unfold parse_int digits_value in ground (arith, t) in
      rw (t, n_zero) ElementIndex.zero
  | inr nz ↦ rw (← e) (numeral-ElementIndex token (unfold is_valid_array_index in ground arith))
]

pub ElementIndex-IsPosition : (token : Text) (n : ℕ) → ElementIndex token n → IsPosition token n
ElementIndex-IsPosition token n i = elim (ElementIndex-cases i) [
  | inl (t, z) ↦
      rw (t, z) (unfold text_eq is_valid_array_index parse_int digits_value in (refl, refl, refl))
  | inr p ↦
      let (h, e) = ElementIndex-IsNumeral i p in
      let (d, b, z) = numeral-lead token h in
      (d, (unfold is_valid_array_index in rw (d, b, z) h), e)
]

-- A token passes the tests of an array index exactly if the grammar makes it an index, and the
-- element is the one of the grammar's number.
pub is_valid_array_index_iff : (token : Text) (n : ℕ) → IsPosition token n ↔ ElementIndex token n
is_valid_array_index_iff token n =
    (IsPosition-ElementIndex token n, ElementIndex-IsPosition token n)
