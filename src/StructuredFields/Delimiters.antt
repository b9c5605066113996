-- ===== src/StructuredFields/Delimiters.antt =====
-- What may follow a value, and how the scans behave in front of it.
use http_rfc_utils.Common.{
  ℕ, Bool, true, false, not, ◌&&◌, ◌||◌, [], ◌∷◌, ◌++◌, some, ◌≡◌, refl, arith, all, ◌==◌,
  and_split,
}
use http_rfc_utils.Text.{Text, is_digit}
use http_rfc_utils.StructuredFields.{
  boolean, Codecs, is_token_char, is_key_char, is_key_start, is_lower, is_upper, is_ows,
  is_sf_key_text,
}
use http_rfc_utils.StructuredFields.Parser.{
  skip_ows, parse_key, parse_parameter_value, parse_bare_item,
}
use http_rfc_utils.Text.Spans.{Stops, span-append}
use http_rfc_utils.StructuredFields.Bare.{Leads, is_bare_start}

-- Something other than a blank, `=` and `;`.
abbrev pub goes_on : Text → Bool
goes_on [] = false
goes_on (c ∷ s) = not (is_ows c) && not (c == b'=') && not (c == b';')

-- What follows an item with its parameters: the end, a comma, a parenthesis, or, in an inner list, a
-- blank and the next item.
unfoldable pub follows : Bool → Text → Bool
follows allow_ows [] = true
follows allow_ows (c ∷ s) = c == b',' || c == b')' || (not allow_ows && c == b' ' && goes_on s)

-- What follows a value or a key: also a parameter.
unfoldable pub ends_value : Bool → Text → Bool
unfolding follows
ends_value allow_ows [] = true
ends_value allow_ows (c ∷ s) = c == b';' || follows allow_ows (c ∷ s)

pub ends_value-token : (a : Bool) (s : Text) → ends_value a s ≡ true → Stops is_token_char s
unfolding ends_value is_token_char is_lower is_upper is_digit
ends_value-token a [] h = tt
ends_value-token a (c ∷ s) h = ground arith

pub ends_value-key : (a : Bool) (s : Text) → ends_value a s ≡ true → Stops is_key_char s
unfolding ends_value is_key_char is_lower is_digit
ends_value-key a [] h = tt
ends_value-key a (c ∷ s) h = ground arith

pub ends_value-follows : (a : Bool) (s : Text) → follows a s ≡ true → ends_value a s ≡ true
unfolding ends_value follows
ends_value-follows a [] h = refl
ends_value-follows a (c ∷ s) h = ground arith

-- The scan over blanks stops at once, or behind the blank of an inner list.
pub skip_ows-Stops : (s : Text) → Stops is_ows s → skip_ows s ≡ s
unfolding skip_ows
skip_ows-Stops [] h = refl
skip_ows-Stops (c ∷ s) h = rw h refl

pub follows-no_ows : (s : Text) → follows true s ≡ true → Stops is_ows s
unfolding follows is_ows
follows-no_ows [] h = tt
follows-no_ows (c ∷ s) h = ground arith

pub ends_value-skip :
    (s : Text) → ends_value true s ≡ true → (skip_ows s ≡ s) × Stops (λ c. c == b'=') s
unfolding ends_value follows skip_ows is_ows
ends_value-skip [] h = (refl, tt)
ends_value-skip (c ∷ s) h = (ground arith, ground arith)

-- The first character of a bare item is no blank, no parenthesis, no `=` and no `;`.
pub bare_start-facts :
    (c : ℕ)
    → is_bare_start c ≡ true
    → (is_ows c ≡ false)
      × ((c == b'(') ≡ false)
      × ((c == b')') ≡ false)
      × ((c == b'=') ≡ false)
      × ((c == b';') ≡ false)
unfolding is_bare_start is_ows is_digit is_lower is_upper
bare_start-facts c h = ground arith

module _ (codecs : Codecs) where
  -- No value is read in front of what ends one: the parameter is `true`.
  pub parse_parameter_value-true :
      (a : Bool) (s : Text)
      → ends_value a s ≡ true
      → parse_parameter_value codecs s ≡ (some (boolean true), s)
  unfolding parse_parameter_value ends_value follows skip_ows is_ows
  parse_parameter_value-true a [] h = refl
  parse_parameter_value-true a (c ∷ []) h = ground arith
  parse_parameter_value-true a (c ∷ d ∷ s) h = ground arith

  pub parse_parameter_value-bare :
      (s : Text)
      → Leads is_bare_start s
      → parse_parameter_value codecs (b'=' ∷ s) ≡ parse_bare_item codecs s
  unfolding parse_parameter_value skip_ows is_ows
  parse_parameter_value-bare [] h = absurd h
  parse_parameter_value-bare (c ∷ s) h = ground (arith, bare_start-facts c h)

pub key_start-no_ows : (c : ℕ) → is_key_start c ≡ true → is_ows c ≡ false
unfolding is_key_start is_lower is_ows
key_start-no_ows c h = ground arith

-- A key is read up to a character that is none of a key.
pub parse_key-append :
    (key rest : Text)
    → is_sf_key_text key ≡ true
    → Stops is_key_char rest
    → (skip_ows (key ++ rest) ≡ key ++ rest) × (parse_key (key ++ rest) ≡ (some key, rest))
unfolding is_sf_key_text parse_key
parse_key-append [] rest h k = absurd (ground arith)
parse_key-append (c ∷ key) rest h k =
    let (p, q) = and_split (is_key_start c) (all is_key_char key) h in
    (
      skip_ows-Stops (c ∷ (key ++ rest)) (key_start-no_ows c p),
      rw (p, span-append is_key_char key rest q k) refl,
    )
