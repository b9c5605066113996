-- ===== src/StructuredFields/Shorter.antt =====
-- What the parser leaves is shorter than what it was given.
use http_rfc_utils.Common.{
  ℕ, ◌+◌, ◌<◌, ◌≤◌, Bool, true, false, not, ◌&&◌, ◌||◌, [], ◌∷◌, some, none, ◌≡◌, refl, arith, ◌==◌,
  ltb, Bool-cases, inl, inr, length, is_empty, if◌then◌else◌, Option-cases, ◌⊎◌, ap,
}
use http_rfc_utils.Text.{Text, is_digit, span, cut_at}
use http_rfc_utils.StructuredFields.{Codecs, is_printable, is_token_char, is_key_char}
use http_rfc_utils.StructuredFields.Parser.{
  Read, on_read, skip_ows, skip_sp, parse_key, parse_token, string_body, parse_string,
  parse_boolean, read_minus, parse_integer, parse_date, read_decimals, parse_number, display_body,
  is_lower_hex, parse_byte_sequence, parse_display_string, parse_bare_item,
}

pub length-skip_ows : (s : Text) → length (skip_ows s) ≤ length s
unfolding skip_ows
length-skip_ows [] = omega arith
length-skip_ows (c ∷ s) = ground (arith, length-skip_ows s)

pub length-skip_sp : (s : Text) → length (skip_sp s) ≤ length s
unfolding skip_sp
length-skip_sp [] = omega arith
length-skip_sp (c ∷ s) = ground (arith, length-skip_sp s)

length-span : (p : ℕ → Bool) (s : Text) → length (span p s).0 + length (span p s).1 ≡ length s
unfolding span
length-span p [] = refl
length-span p (c ∷ s) = ground (arith, length-span p s)

-- A result leaves fewer units than were given, and null no more.
abbrev pub Shortens : {A : Type 0} → Read A → Text → Type 0
Shortens (none, rest) s = length rest ≤ length s
Shortens (some a, rest) s = length rest < length s

pub if-Shortens :
    {A : Type 0} (b : Bool) (x y : Read A) (s : Text)
    → Shortens x s
    → Shortens y s
    → Shortens (if b then x else y) s
if-Shortens true x y s h k = h
if-Shortens false x y s h k = k

Shortens-cons : {A : Type 0} (x : Read A) (c : ℕ) (s : Text) → Shortens x s → Shortens x (c ∷ s)
Shortens-cons (none, r) c s h = omega arith
Shortens-cons (some a, r) c s h = omega arith

pub on_read-Shortens :
    {A B : Type 0} (x : Read A) (k : A → Text → Read B) (s t : Text)
    → Shortens x s
    → length s ≤ length t
    → ((a : A) (r : Text) → length r < length s → Shortens (k a r) t)
    → Shortens (on_read x k) t
on_read-Shortens (none, r) k s t h le f = omega arith
on_read-Shortens (some a, r) k s t h le f = f a r h

pub parse_key-Shortens : (s : Text) → Shortens (parse_key s) s
unfolding parse_key
parse_key-Shortens [] = omega arith
parse_key-Shortens (c ∷ s) = ground (arith, length-span is_key_char s)

parse_token-Shortens : (s : Text) → Shortens (parse_token s) s
unfolding parse_token
parse_token-Shortens [] = omega arith
parse_token-Shortens (c ∷ s) = ground (arith, length-span is_token_char s)

string_body-Shortens : (s : Text) → Shortens (string_body s) s
unfolding string_body
string_body-Shortens [] = omega arith
string_body-Shortens (c ∷ []) = ground arith
string_body-Shortens (c ∷ d ∷ s) = if-Shortens (c == b'"') _ _ _ (omega arith) (
    if-Shortens (c == b'\\') _ _ _
      (if-Shortens (d == b'"' || d == b'\\') _ _ _
        (on_read-Shortens (string_body s) _ _ _ (string_body-Shortens s) (omega arith)
          (λ t r lt. omega arith))
        (omega arith))
      (if-Shortens (is_printable c) _ _ _
        (on_read-Shortens (string_body (d ∷ s)) _ _ _ (string_body-Shortens (d ∷ s)) (omega arith)
          (λ t r lt. omega arith))
        (omega arith)))

display_body-Shortens : (s : Text) → Shortens (display_body s) s
unfolding display_body
display_body-Shortens [] = omega arith
display_body-Shortens (c ∷ []) = ground arith
display_body-Shortens (c ∷ d ∷ []) = ground (arith, display_body-Shortens (d ∷ []))
display_body-Shortens (c ∷ d ∷ e ∷ s) = if-Shortens (not (is_printable c)) _ _ _ (omega arith) (
    if-Shortens (c == b'%') _ _ _
      (if-Shortens (is_lower_hex d && is_lower_hex e) _ _ _
        (on_read-Shortens (display_body s) _ _ _ (display_body-Shortens s) (omega arith)
          (λ t r lt. omega arith))
        (omega arith))
      (if-Shortens (c == b'"') _ _ _ (omega arith) (
        on_read-Shortens (display_body (d ∷ e ∷ s)) _ _ _ (display_body-Shortens (d ∷ e ∷ s))
          (omega arith) (λ t r lt. omega arith))))

parse_boolean-Shortens : (s : Text) → Shortens (parse_boolean s) s
unfolding parse_boolean
parse_boolean-Shortens [] = omega arith
parse_boolean-Shortens (c ∷ s) = ground arith

length-read_minus : (s : Text) → length (read_minus s).1 ≤ length s
unfolding read_minus
length-read_minus [] = omega arith
length-read_minus (c ∷ s) = ground arith

length-read_decimals : (s : Text) → length (read_decimals s).1 ≤ length s
unfolding read_decimals
length-read_decimals [] = omega arith
length-read_decimals (a ∷ []) = omega arith
length-read_decimals (a ∷ b ∷ []) = ground arith
length-read_decimals (a ∷ b ∷ c ∷ []) = ground arith
length-read_decimals (a ∷ b ∷ c ∷ d ∷ s) = ground arith

empty_or_longer : (s : Text) → (is_empty s ≡ true) ⊎ (0 < length s)
empty_or_longer [] = inl refl
empty_or_longer (c ∷ s) = inr (omega arith)

parse_integer-Shortens : (s : Text) → Shortens (parse_integer s) s
unfolding parse_integer
parse_integer-Shortens s =
    let (minus, unsigned) = read_minus s in
    elim (empty_or_longer (span is_digit unsigned).0) [
      | inl e ↦ ground (arith, e)
      | inr e ↦
          if-Shortens
            (is_empty (span is_digit unsigned).0 || ltb 15 (length (span is_digit unsigned).0)) _ _
            _ (omega arith) (omega (arith, e, length-span is_digit unsigned, length-read_minus s))
    ]

parse_number-Shortens : (s : Text) → Shortens (parse_number s) s
unfolding parse_number
parse_number-Shortens s =
    let (minus, unsigned) = read_minus s in
    let (whole, behind) = span is_digit unsigned in
    let (decimals, rest) = read_decimals behind in
    elim (empty_or_longer whole) [
      | inl e ↦ ground (arith, e)
      | inr e ↦
          if-Shortens (is_empty whole || ltb (if is_empty decimals then 15 else 12) (length whole))
            _ _ _ (omega arith)
            (omega (
              arith,
              e,
              length-span is_digit unsigned,
              length-read_minus s,
              length-read_decimals behind,
            ))
    ]

cut_at-Shortens : (b : ℕ) (s a rest : Text) → cut_at b s ≡ some (a, rest) → length rest < length s
unfolding cut_at
cut_at-Shortens b [] a rest h = absurd (ground arith)
cut_at-Shortens b (c ∷ s) a rest h = elim (Bool-cases (c == b)) [
  | inl e ↦ ground (arith, e)
  | inr e ↦ elim (Option-cases (cut_at b s)) [
    | inl n ↦ absurd (ground (arith, e, n))
    | inr ((x, r), n) ↦
        let same : r ≡ rest = ground (arith, e, n) in
        omega (arith, cut_at-Shortens b s x r n, ap length same)
  ]
]

module _ (codecs : Codecs) where
  parse_byte_sequence-Shortens : (s : Text) → Shortens (parse_byte_sequence codecs s) s
  unfolding parse_byte_sequence
  parse_byte_sequence-Shortens s = elim (Option-cases (cut_at b':' s)) [
    | inl e ↦ ground (arith, e)
    | inr ((base64, rest), e) ↦
        let shorter = cut_at-Shortens b':' s base64 rest e in ground (arith, e, shorter)
  ]

  parse_display_string-Shortens : (s : Text) → Shortens (parse_display_string codecs s) s
  unfolding parse_display_string
  parse_display_string-Shortens [] = omega arith
  parse_display_string-Shortens (c ∷ s) =
      if-Shortens (c == b'"') _ _ _
        (on_read-Shortens (display_body s) _ _ _ (display_body-Shortens s) (omega arith) (λ b r lt.
          elim (Option-cases (codecs.utf8_decode b)) [
            | inl e ↦ ground (arith, e)
            | inr (t, e) ↦ ground (arith, e)
          ]))
        (omega arith)

  pub parse_bare_item-Shortens : (s : Text) → Shortens (parse_bare_item codecs s) s
  unfolding parse_bare_item parse_string parse_date
  parse_bare_item-Shortens [] = omega arith
  parse_bare_item-Shortens (c ∷ s) =
      if-Shortens (c == b'"') _ _ _
        (on_read-Shortens (string_body s) _ _ _ (string_body-Shortens s) (omega arith)
          (λ t r lt. omega arith))
        (if-Shortens (c == b'?') _ _ _
          (Shortens-cons (parse_boolean s) c s (parse_boolean-Shortens s))
          (if-Shortens (c == b':') _ _ _
            (Shortens-cons (parse_byte_sequence codecs s) c s (parse_byte_sequence-Shortens s))
            (if-Shortens (c == b'@') _ _ _
              (on_read-Shortens (parse_integer s) _ _ _ (parse_integer-Shortens s) (omega arith)
                (λ t r lt. omega arith))
              (if-Shortens (c == b'%') _ _ _
                (Shortens-cons (parse_display_string codecs s) c s
                  (parse_display_string-Shortens s))
                (if-Shortens (c == b'-' || is_digit c) _ _ _ (parse_number-Shortens (c ∷ s))
                  (parse_token-Shortens (c ∷ s)))))))
