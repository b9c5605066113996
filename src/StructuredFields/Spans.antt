-- ===== src/StructuredFields/Spans.antt =====
-- Where a scan of characters stops, and the bodies of strings.
use http_rfc_utils.Common.{
  ℕ, ◌+◌, ◌*◌, ◌/◌, ◌%◌, ◌<◌, true, false, List, [], ◌∷◌, ◌++◌, some, ◌≡◌, ◌≢◌, refl, arith, all,
  All, ◌==◌, Bool-cases, inl, inr, ◌⊎◌, ==_iff, and_split,
}
use http_rfc_utils.Text.Spans.{Stops}
use http_rfc_utils.Text.{Text, is_digit}
use http_rfc_utils.StructuredFields.{is_token_char, is_printable, is_lower, is_upper}
use http_rfc_utils.StructuredFields.Parser.{
  string_body, display_body, is_lower_hex, hex_digit_value,
}
use http_rfc_utils.StructuredFields.Serializer.{escaped, display_text, lower_hex}

-- A scan that stops at token characters stops at those of a key, and at digits.
pub Stops-digit : (rest : Text) → Stops is_token_char rest → Stops is_digit rest
unfolding is_token_char is_digit is_lower is_upper
Stops-digit [] h = tt
Stops-digit (c ∷ s) h = ground arith

string_body-plain :
    (c : ℕ) (s t rest : Text)
    → s ≢ []
    → is_printable c ≡ true
    → c ≢ b'"'
    → c ≢ b'\\'
    → string_body s ≡ (some t, rest)
    → string_body (c ∷ s) ≡ (some (c ∷ t), rest)
unfolding string_body
string_body-plain c [] t rest n p q b h = absurd (n refl)
string_body-plain c (d ∷ s) t rest n p q b h = ground (arith, h, p)

string_body-quote : (rest : Text) → string_body (b'"' ∷ rest) ≡ (some [], rest)
unfolding string_body
string_body-quote [] = refl
string_body-quote (d ∷ s) = refl

append-ne-nil : (s : Text) (c : ℕ) (rest : Text) → s ++ c ∷ rest ≢ []
append-ne-nil [] c rest e = cc
append-ne-nil (d ∷ s) c rest e = cc

string_body-escape :
    (c : ℕ) (s t rest : Text)
    → (c ≡ b'"') ⊎ (c ≡ b'\\')
    → string_body s ≡ (some t, rest)
    → string_body (b'\\' ∷ c ∷ s) ≡ (some (c ∷ t), rest)
unfolding string_body
string_body-escape c s t rest (inl q) h = rw (q, h)
string_body-escape c s t rest (inr q) h = rw (q, h)

-- A string of printable characters is read back from its escaped form.
pub string_body-escaped :
    (s rest : Text)
    → all is_printable s ≡ true
    → string_body (escaped s ++ b'"' ∷ rest) ≡ (some s, rest)
unfolding escaped
string_body-escaped [] rest h = string_body-quote rest
string_body-escaped (c ∷ s) rest h =
    let (p, q) = and_split (is_printable c) (all is_printable s) h in
    let ih = string_body-escaped s rest q in
    elim (Bool-cases (c == b'"')) [
      | inl e ↦
          rw e
            (string_body-escape c (escaped s ++ b'"' ∷ rest) s rest (inl ((==_iff c b'"').0 e)) ih)
      | inr e ↦ elim (Bool-cases (c == b'\\')) [
        | inl d ↦
            rw (e, d)
              (string_body-escape c (escaped s ++ b'"' ∷ rest) s rest (inr ((==_iff c b'\\').0 d))
                ih)
        | inr d ↦
            rw (e, d)
              (string_body-plain c (escaped s ++ b'"' ∷ rest) s rest
                (append-ne-nil (escaped s) b'"' rest) p (ground arith) (ground arith) ih)
      ]
    ]

lower_hex-hex :
    (n : ℕ) → n < 16 → (is_lower_hex (lower_hex n) ≡ true) × (hex_digit_value (lower_hex n) ≡ n)
unfolding is_lower_hex hex_digit_value is_digit
lower_hex-hex n h = ground arith

display_body-quote : (rest : Text) → display_body (b'"' ∷ rest) ≡ (some [], rest)
unfolding display_body is_printable
display_body-quote [] = refl
display_body-quote (d ∷ []) = refl
display_body-quote (d ∷ e ∷ s) = refl

display_body-plain :
    (c : ℕ) (s rest : Text) (t : List ℕ)
    → s ≢ []
    → is_printable c ≡ true
    → (c == b'%') ≡ false
    → (c == b'"') ≡ false
    → display_body s ≡ (some t, rest)
    → display_body (c ∷ s) ≡ (some (c ∷ t), rest)
unfolding display_body
display_body-plain c [] rest t n p q b h = absurd (n refl)
display_body-plain c (d ∷ []) rest t n p q b h = rw (p, q, b, h) refl
display_body-plain c (d ∷ e ∷ s) rest t n p q b h = rw (p, q, b, h) refl

display_body-escape :
    (b : ℕ) (s rest : Text) (t : List ℕ)
    → b < 256
    → display_body s ≡ (some t, rest)
    → display_body (b'%' ∷ lower_hex (b / 16) ∷ lower_hex (b % 16) ∷ s) ≡ (some (b ∷ t), rest)
unfolding display_body is_printable
display_body-escape b s rest t h e =
    let (p, v) = lower_hex-hex (b / 16) (omega arith) in
    let (q, w) = lower_hex-hex (b % 16) (omega arith) in
    let whole : b / 16 * 16 + b % 16 ≡ b = omega arith in rw (p, q, v, w, e, whole) refl

-- Bytes are read back from the body of a display string.
pub display_body-display_text :
    (bs : List ℕ) (rest : Text)
    → All (λ b. b < 256) bs
    → display_body (display_text bs ++ b'"' ∷ rest) ≡ (some bs, rest)
unfolding display_text
display_body-display_text [] rest h = display_body-quote rest
display_body-display_text (b ∷ bs) rest (hb, h) =
    let ih = display_body-display_text bs rest h in
    let tail = display_text bs ++ b'"' ∷ rest in
    elim (Bool-cases (b == b'%')) [
      | inl e ↦ rw e (display_body-escape b tail rest bs hb ih)
      | inr e ↦ elim (Bool-cases (b == b'"')) [
        | inl d ↦ rw (e, d) (display_body-escape b tail rest bs hb ih)
        | inr d ↦ elim (Bool-cases (is_printable b)) [
          | inl p ↦
              rw (e, d, p)
                (display_body-plain b tail rest bs (append-ne-nil (display_text bs) b'"' rest) p e d
                  ih)
          | inr p ↦ rw (e, d, p) (display_body-escape b tail rest bs hb ih)
        ]
      ]
    ]
