-- ===== src/Etag/Tests.antt =====
-- Runs of etag.ts, and its theorems at concrete inputs.
use http_rfc_utils.Common.{true, false, [], none, some, ◌≡◌, refl, ◌↔◌}
use http_rfc_utils.Common.Results.{ok}
use http_rfc_utils.Text.{Text, codes, trim}
use http_rfc_utils.Etag.{ETag, parse_etag, format_etag, generate_etag, compare_etag_strings, string}
use http_rfc_utils.Etag.Format.{parse_etag-format_etag, Reads, parse_etag_iff}
use http_rfc_utils.Etag.Compare.{Same, compare_etag_strings_iff}
use http_rfc_utils.Etag.Generate.{hex_value, hash_of, parse_etag-generate_etag}
use http_rfc_utils.Etag.{
  drop_last, djb2_hash, unquoted, ends_with, is_etag_char, djb2_step, is_valid_etag_value,
  parse_opaque, quoted, to_hex, parse_trimmed,
}
use http_rfc_utils.Text.{strip_prefix}

abbrev weak_abc : ETag
weak_abc = record { weak = true; value = codes "abc" }

abbrev strong_abc : ETag
strong_abc = record { weak = false; value = codes "abc" }

-- The text `"` alone is read as an empty tag.
lone_quote_accepted : parse_etag (codes "\"") ≡ some (record { weak = false; value = [] })
unfolding parse_etag parse_trimmed strip_prefix trim parse_opaque unquoted ends_with drop_last
    is_valid_etag_value
lone_quote_accepted = refl

rejected : (parse_etag (codes "abc") ≡ none) × (parse_etag (codes "\"a b\"") ≡ none)
unfolding parse_etag parse_trimmed strip_prefix trim parse_opaque unquoted ends_with drop_last
    is_valid_etag_value is_etag_char
rejected = (refl, refl)

format_weak : format_etag weak_abc ≡ ok (codes "W/\"abc\"")
unfolding format_etag is_valid_etag_value is_etag_char quoted
format_weak = refl

generated : generate_etag (string (codes "hello")) false ≡ codes "\"a9cede7\""
unfolding generate_etag quoted djb2_hash to_hex djb2_step
generated = refl

parse_etag-format_etag_example : parse_etag (codes "W/\"abc\"") ≡ some weak_abc
parse_etag-format_etag_example = parse_etag-format_etag weak_abc (codes "W/\"abc\"") format_weak

parse_etag_iff_example :
    (parse_etag (codes " \"abc\"") ≡ some strong_abc) ↔ Reads strong_abc (trim (codes " \"abc\""))
parse_etag_iff_example = parse_etag_iff (codes " \"abc\"") strong_abc

compare_etag_strings_iff_example :
    (compare_etag_strings (codes "\"abc\"") (codes "W/\"abc\"") true ≡ true) ↔ (
      (a : ETag) × (b : ETag) × (parse_etag (codes "\"abc\"") ≡ some a)
      × (parse_etag (codes "W/\"abc\"") ≡ some b)
      × Same true a b)
compare_etag_strings_iff_example =
    compare_etag_strings_iff (codes "\"abc\"") (codes "W/\"abc\"") true

parse_etag-generate_etag_example :
    (value : Text) × (parse_etag (generate_etag (string (codes "hello")) true)
      ≡ some (record { weak = true; value = value }))
    × (hex_value 0 value ≡ hash_of (string (codes "hello")))
parse_etag-generate_etag_example = parse_etag-generate_etag (string (codes "hello")) true
