-- ===== src/JsonPointer/Fragment.antt =====
-- A JSON Pointer as a URI fragment, and back.
use http_rfc_utils.Common.{
  ℕ, true, false, ◌||◌, List, [], ◌∷◌, Option, none, some, ◌≡◌, refl, is_some, is_empty,
  if◌then◌else◌,
}
use http_rfc_utils.Text.{Text, codes, strip_prefix}
use http_rfc_utils.UriEncoding.{
  Options, ascii_allow_table, encode_rfc3986, decode_percent_component,
}
use http_rfc_utils.UriEncoding.RoundTrip.{Plain, IsUtf8, decode_percent_component-encode_rfc3986}
use http_rfc_utils.JsonPointer.{parse_json_pointer}

abbrev pub uri_fragment_options : Options
uri_fragment_options = record {
  allow_table =
      ascii_allow_table
        (codes "/ABCDEFGHIJKLMNOPQRSTUVWXYZabcdefghijklmnopqrstuvwxyz0123456789-._~");
  preserve_pct_triplets = false;
  normalize_pct_hex_uppercase = true;
}

uri_fragment-Plain : Plain uri_fragment_options
uri_fragment-Plain = record {
  no_triplets = refl;
  percent_escaped = unfold ascii_allow_table in refl;
}

module _ (utf8_encode : Text → List ℕ) (utf8_decode : List ℕ → Option Text) where
  unfoldable pub to_uri_fragment : Text → Text
  to_uri_fragment [] = codes "#"
  to_uri_fragment (c ∷ pointer) =
      b'#' ∷ encode_rfc3986 utf8_encode utf8_decode uri_fragment_options (c ∷ pointer)

  abbrev checked : Option Text → Option Text
  checked none = none
  checked (some pointer) =
      if is_empty pointer || is_some (parse_json_pointer pointer) then some pointer else none

  unfoldable pub from_uri_fragment : Text → Option Text
  from_uri_fragment fragment = elim (strip_prefix (codes "#") fragment) [
    | none ↦ checked (decode_percent_component utf8_encode utf8_decode fragment)
    | some rest ↦ checked (decode_percent_component utf8_encode utf8_decode rest)
  ]

  -- A JSON Pointer that the UTF-8 codec gives back is read from the URI fragment that is written for
  -- it.
  pub from_uri_fragment-to_uri_fragment :
      (pointer : Text) (tokens : List Text)
      → IsUtf8 utf8_encode utf8_decode
      → utf8_decode (utf8_encode pointer) ≡ some pointer
      → parse_json_pointer pointer ≡ some tokens
      → from_uri_fragment (to_uri_fragment pointer) ≡ some pointer
  unfolding to_uri_fragment from_uri_fragment
  from_uri_fragment-to_uri_fragment [] tokens u back valid =
      unfold strip_prefix decode_percent_component in refl
  from_uri_fragment-to_uri_fragment (c ∷ pointer) tokens u back valid =
      unfold strip_prefix in
      rw
        (
          decode_percent_component-encode_rfc3986 utf8_encode utf8_decode uri_fragment_options
              (c ∷ pointer) u uri_fragment-Plain back,
          valid,
        )
        refl
