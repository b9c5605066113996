-- ===== src/Text/Trim.antt =====
-- Texts that `trim` leaves alone, and cutting a text at a unit.
use http_rfc_utils.Common.{
  ℕ, Bool, true, false, not, [], ◌∷◌, ◌++◌, some, ◌≡◌, ◌≢◌, refl, ap, arith, all, is_empty,
}
use http_rfc_utils.Text.{
  Text, is_space, trim_start, trim_cons, trim_end, trim, cut_at, is_digit, to_decimal,
}
use http_rfc_utils.Text.Laws.{Lacks}
use http_rfc_utils.Text.Decimal.{to_decimal-digits, to_decimal-ne-nil}

-- The last unit is there and is no blank.
unfoldable pub ends_solid : Text → Bool
ends_solid [] = false
ends_solid (c ∷ []) = not (is_space c)
ends_solid (c ∷ d ∷ s) = ends_solid (d ∷ s)

trim_end-ends_solid : (s : Text) → ends_solid s ≡ true → trim_end s ≡ s
unfolding trim_end trim_cons ends_solid
trim_end-ends_solid [] h = refl
trim_end-ends_solid (c ∷ []) h = ground arith
trim_end-ends_solid (c ∷ d ∷ s) h = rw (trim_end-ends_solid (d ∷ s) h)

pub ends_solid-append : (a s : Text) → ends_solid s ≡ true → ends_solid (a ++ s) ≡ true
unfolding ends_solid
ends_solid-append [] s h = h
ends_solid-append (c ∷ []) [] h = cc
ends_solid-append (c ∷ []) (d ∷ s) h = h
ends_solid-append (c ∷ d ∷ a) s h = ends_solid-append (d ∷ a) s h

-- A text that begins and ends with no blank is its own trim.
pub trim-ends_solid :
    (c : ℕ) (s : Text) → is_space c ≡ false → ends_solid (c ∷ s) ≡ true → trim (c ∷ s) ≡ c ∷ s
unfolding trim trim_start
trim-ends_solid c s h k = rw (h, trim_start) (trim_end-ends_solid (c ∷ s) k)

digit-not_space : (c : ℕ) → is_digit c ≡ true → is_space c ≡ false
unfolding is_digit is_space
digit-not_space c h = ground arith

pub ends_solid-digits : (s : Text) → s ≢ [] → all is_digit s ≡ true → ends_solid s ≡ true
unfolding ends_solid
ends_solid-digits [] n h = absurd (n refl)
ends_solid-digits (c ∷ []) n h = ground (arith, digit-not_space c)
ends_solid-digits (c ∷ d ∷ s) n h = ends_solid-digits (d ∷ s) (λ e. cc) (ground arith)

pub trim-digits_front :
    (s t : Text)
    → s ≢ []
    → all is_digit s ≡ true
    → ends_solid (s ++ t) ≡ true
    → trim (s ++ t) ≡ s ++ t
trim-digits_front [] t n h e = absurd (n refl)
trim-digits_front (c ∷ s) t n h e = trim-ends_solid c (s ++ t) (digit-not_space c (ground arith)) e

pub ends_solid-to_decimal : (n : ℕ) → ends_solid (to_decimal n) ≡ true
ends_solid-to_decimal n =
    ends_solid-digits (to_decimal n) (to_decimal-ne-nil n) (to_decimal-digits n)

-- The print of a number in front of a text that ends with no blank is left alone.
pub trim-to_decimal_front :
    (n : ℕ) (t : Text)
    → ends_solid (to_decimal n ++ t) ≡ true
    → trim (to_decimal n ++ t) ≡ to_decimal n ++ t
trim-to_decimal_front n t =
    trim-digits_front (to_decimal n) t (to_decimal-ne-nil n) (to_decimal-digits n)

digits-trim : (s : Text) → all is_digit s ≡ true → trim s ≡ s
digits-trim [] h = unfold trim trim_start trim_end in refl
digits-trim (c ∷ s) h =
    trim-ends_solid c s (digit-not_space c (ground arith)) (ends_solid-digits (c ∷ s) (λ e. cc) h)

pub trim-to_decimal : (n : ℕ) → trim (to_decimal n) ≡ to_decimal n
trim-to_decimal n = digits-trim (to_decimal n) (to_decimal-digits n)

digits-Lacks : (b : ℕ) (s : Text) → is_digit b ≡ false → all is_digit s ≡ true → Lacks b s
digits-Lacks b [] h d = tt
digits-Lacks b (c ∷ s) h d = (λ e. different e, digits-Lacks b s h (ground arith))
  where
    different : c ≡ b → ⊥
    different e = ground (arith, ap is_digit e)

pub to_decimal-Lacks : (b n : ℕ) → is_digit b ≡ false → Lacks b (to_decimal n)
to_decimal-Lacks b n h = digits-Lacks b (to_decimal n) h (to_decimal-digits n)

-- A text is cut behind a part that does not hold the unit.
pub cut_at-append : (b : ℕ) (s t : Text) → Lacks b s → cut_at b (s ++ (b ∷ t)) ≡ some (s, t)
unfolding cut_at
cut_at-append b [] t h = ground arith
cut_at-append b (c ∷ s) t (hc, h) = ground (arith, cut_at-append b s t h)

trim_cons-not_empty : (c : ℕ) (s : Text) → is_space c ≡ false → is_empty (trim_cons c s) ≡ false
unfolding trim_cons
trim_cons-not_empty c [] h = rw h refl
trim_cons-not_empty c (d ∷ s) h = refl

-- A text that begins with no blank is not blank.
pub trim-not_empty : (c : ℕ) (s : Text) → is_space c ≡ false → is_empty (trim (c ∷ s)) ≡ false
unfolding trim trim_start trim_end
trim-not_empty c s h = rw (h, trim_end) (trim_cons-not_empty c (trim_end s) h)
