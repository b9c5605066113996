-- ===== src/StructuredFields.antt =====
-- structured-fields.ts and types/structured-fields.ts: the values of structured fields (RFC 8941 and
-- RFC 9651), and the characters of their keys and tokens. Parser and Serializer model the two
-- directions. The codecs of the platform (Buffer, TextEncoder, TextDecoder) are parameters.
pub mod Parser
pub mod Serializer
pub mod Spans
pub mod Numbers
pub mod Bare
pub mod Delimiters
pub mod Parameters
pub mod Entries
pub mod Items
pub mod Members
pub mod Lists
pub mod Solid
pub mod Ranges
pub mod Shorter
pub mod Rounds
pub mod Fuel
pub mod Dictionaries
mod Tests
use http_rfc_utils.Common.{
  ℕ, Bool, true, false, not, ◌&&◌, ◌||◌, List, [], ◌∷◌, Option, none, some, leb, ◌==◌, all, any,
  if◌then◌else◌,
}
use http_rfc_utils.Common.Int.{ℤ}
use http_rfc_utils.Text.{Text, codes, is_digit, text_eq}

-- A number by its thousandths: what the parser reads has at most three decimals, and at most fifteen
-- digits, so a double holds it exactly enough to print it again. -0 is 0.
pub data SfNumber : Type 0 where
  thousandths : ℤ → SfNumber
  not_finite : SfNumber

-- `SfBareItem`; a date is its seconds.
pub data BareItem : Type 0 where
  boolean : Bool → BareItem
  number : SfNumber → BareItem
  string : Text → BareItem
  bytes : List ℕ → BareItem
  date : ℤ → BareItem
  token : Text → BareItem
  display : Text → BareItem

-- `Record<string, SfBareItem>`: the members in the order they were added. No key spells an array
-- index, so this is the order of every loop.
abbrev pub Params : Type 0
Params = List (Text × BareItem)

pub record Item : Type 0 where
  pub value : BareItem
  pub params : Option Params

-- `SfItem | SfInnerList`
pub data Member : Type 0 where
  single : Item → Member
  inner : List Item → Option Params → Member

-- `SfDictionary`
abbrev pub Dictionary : Type 0
Dictionary = List (Text × Member)

-- `Buffer.from(s, 'base64')`, its inverse, `TextEncoder.encode` and `TextDecoder.decode`, which
-- throws for bytes that are no UTF-8.
pub record Codecs : Type 0 where
  pub base64_decode : Text → List ℕ
  pub base64_encode : List ℕ → Text
  pub utf8_decode : List ℕ → Option Text
  pub utf8_encode : Text → List ℕ

-- `record[key] = value`
unfoldable pub set_entry {ℓ} : {A : Type ℓ} → List (Text × A) → Text → A → List (Text × A)
set_entry [] key v = (key, v) ∷ []
set_entry ((k, w) ∷ es) key v = elim (text_eq k key) [
  | true ↦ (key, v) ∷ es
  | false ↦ (k, w) ∷ set_entry es key v
]

unfoldable pub is_lower : ℕ → Bool
is_lower c = leb b'a' c && leb c b'z'

unfoldable pub is_upper : ℕ → Bool
is_upper c = leb b'A' c && leb c b'Z'

unfoldable pub is_key_char : ℕ → Bool
unfolding is_lower is_digit
is_key_char c = is_lower c || is_digit c || c == b'_' || c == b'-' || c == b'.' || c == b'*'

-- The first character of a key.
unfoldable pub is_key_start : ℕ → Bool
unfolding is_lower
is_key_start c = c == b'*' || is_lower c

unfoldable pub is_token_char : ℕ → Bool
unfolding is_lower is_upper is_digit
is_token_char c =
    is_upper c || is_lower c || is_digit c || any (λ d. c == d) (codes "!#$%&'*+-.^_`|~:/")

unfoldable pub is_token_start : ℕ → Bool
unfolding is_lower is_upper
is_token_start c = is_upper c || is_lower c || c == b'*'

-- `SF_KEY_TEXT_RE.test(s)`
unfoldable pub is_sf_key_text : Text → Bool
unfolding is_key_start is_key_char
is_sf_key_text [] = false
is_sf_key_text (c ∷ s) = is_key_start c && all is_key_char s

-- `SF_TOKEN_TEXT_RE.test(s)`
unfoldable pub is_sf_token_text : Text → Bool
unfolding is_token_start is_token_char
is_sf_token_text [] = false
is_sf_token_text (c ∷ s) = is_token_start c && all is_token_char s

unfoldable pub is_ows : ℕ → Bool
is_ows c = c == b' ' || c == 9

-- A printable ASCII character.
unfoldable pub is_printable : ℕ → Bool
is_printable c = leb 0x20 c && leb c 0x7e
