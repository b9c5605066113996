-- ===== src/StructuredFields/Tests.antt =====
-- Runs of structured-fields.ts, and its theorems at concrete inputs.
use http_rfc_utils.Common.{true, List, [], ◌∷◌, none, some, ◌≡◌, refl, arith}
use http_rfc_utils.Common.Int.{pos, negsuc}
use http_rfc_utils.Common.Results.{ok, err}
use http_rfc_utils.Text.{span, Text, codes}
use http_rfc_utils.StructuredFields.{
  thousandths, BareItem, boolean, number, string, bytes, date, token, display, Item, Member, single,
  inner, Dictionary, Codecs,
}
use http_rfc_utils.StructuredFields.Parser.{parse_sf_list, parse_sf_dict, parse_sf_item}
use http_rfc_utils.StructuredFields.Serializer.{
  serialize_sf_list, serialize_sf_dict, serialize_sf_item, number_text, integer_text,
  integer_out_of_range,
}
use http_rfc_utils.StructuredFields.Ranges.{parse_number-number_text_total}
use http_rfc_utils.StructuredFields.Fuel.{parser_total}
use http_rfc_utils.StructuredFields.Lists.{parse_sf_list-serialize_sf_list}
use http_rfc_utils.StructuredFields.Dictionaries.{parse_sf_dict-serialize_sf_dict}
use http_rfc_utils.StructuredFields.Solid.{parse_sf_item-serialize_sf_item}
use http_rfc_utils.StructuredFields.Serializer.{
  serialize_params, entries_text, serialize_member, serialize_bare_item, entry_text, serialize_item,
  inner_text, has_lone_surrogate, items_text, display_text, entry_value_text,
}
use http_rfc_utils.StructuredFields.{is_sf_key_text, is_printable}
use http_rfc_utils.Text.{trim, is_digit, to_decimal}
use http_rfc_utils.StructuredFields.Parser.{
  read_minus, parse_date, at_end, parse_integer, parse_item, parse_bare_item,
}
use http_rfc_utils.StructuredFields.{
  is_key_char, is_key_start, is_lower, is_ows, is_sf_token_text, is_token_char, is_token_start,
  is_upper, set_entry,
}
use http_rfc_utils.StructuredFields.Serializer.{
  escaped, is_true, members_text, params_text, strip_zeros, three_digits, value_text,
}
use http_rfc_utils.Text.{
  cut_at, decimal_from, digits_value, is_space, text_eq, trim_end, trim_start,
}
use http_rfc_utils.StructuredFields.Parser.{
  dictionary_from, display_body, hex_digit_value, inner_items, parse_items, is_base64,
  is_base64_char, is_base64_group, is_lower_hex, list_from, parse_boolean, parse_byte_sequence,
  parse_dictionary, parse_display_string, parse_entry_value, parse_inner_list, parse_key,
  parse_list, parse_member, parse_number, parse_parameter_value, parse_parameters,
  parse_parameters_from, parse_string, parse_token, read_decimals, scaled, signed, skip_ows,
  skip_sp, string_body,
}
use http_rfc_utils.Common.Int.{negate}

-- Codecs that are right for the ASCII texts and the bytes of these runs.
abbrev ascii : Codecs
ascii = record {
  base64_decode = λ s. 104 ∷ 105 ∷ [];
  base64_encode = λ b. codes "aGk=";
  utf8_decode = λ b. some b;
  utf8_encode = λ s. s;
}

abbrev weighted : Item
weighted = record {
  value = token (codes "text/html");
  params = some ((codes "q", number (thousandths (pos 500))) ∷ (codes "sure", boolean true) ∷ []);
}

abbrev plain : BareItem → Item
plain v = record { value = v; params = none }

abbrev members : List Member
members =
    single weighted
    ∷ inner (plain (string (codes "a\"b")) ∷ plain (date (negsuc 9)) ∷ []) none
    ∷ inner [] none
    ∷ single (plain (bytes (104 ∷ 105 ∷ [])))
    ∷ []

abbrev members_written : Text
members_written = codes "text/html;q=0.5;sure, (\"a\\\"b\" @-10), (), :aGk=:"

write_members : serialize_sf_list ascii members ≡ ok members_written
unfolding serialize_sf_list serialize_member serialize_item serialize_bare_item is_sf_token_text
    serialize_params params_text is_sf_key_text value_text number_text members_text inner_text
    is_printable items_text to_decimal strip_zeros three_digits display_text escaped
    has_lone_surrogate integer_text is_true is_key_char is_key_start is_lower is_token_char
    is_token_start is_upper decimal_from is_digit
write_members = refl

read_members : parse_sf_list ascii members_written ≡ some members
unfolding parse_sf_list at_end parse_list list_from skip_ows is_ows parse_member parse_item
    parse_bare_item is_digit parse_token is_token_start parse_parameters parse_parameters_from span
    is_token_char parse_key negate display_body hex_digit_value inner_items is_base64 is_base64_char
    is_base64_group is_lower_hex parse_boolean parse_byte_sequence parse_date parse_display_string
    parse_inner_list parse_integer parse_number parse_parameter_value parse_string read_decimals
    read_minus scaled signed skip_sp string_body is_key_char is_key_start is_lower is_printable
    is_upper set_entry cut_at digits_value text_eq parse_items
read_members = refl

is_base64_written :
    (is_base64 (codes "aGk=") ≡ true) × (ascii.base64_decode (codes "aGk=") ≡ 104 ∷ 105 ∷ [])
unfolding is_base64 is_base64_group is_base64_char is_upper is_lower is_digit
is_base64_written = (refl, refl)

parse_sf_list-serialize_sf_list_example : parse_sf_list ascii members_written ≡ some members
parse_sf_list-serialize_sf_list_example =
    parse_sf_list-serialize_sf_list ascii members members_written
      (
        (tt, ((λ e. cc), ((unfold text_eq in refl, tt), (tt, tt)), (tt, (tt, tt)))),
        ((((tt, tt), ((omega arith, tt), tt)), tt), ((tt, tt), ((is_base64_written, tt), tt))),
      )
      write_members

abbrev entries : Dictionary
entries =
    (codes "max-age", single (plain (number (thousandths (pos 60000)))))
    ∷ (codes "private", single (plain (boolean true)))
    ∷ (codes "names", inner (plain (display (codes "50%")) ∷ []) none)
    ∷ []

abbrev entries_written : Text
entries_written = codes "max-age=60, private, names=(%\"50%25\")"

serialize_entries : serialize_sf_dict ascii entries ≡ ok entries_written
unfolding serialize_sf_dict entry_text is_sf_key_text entry_value_text serialize_item
    serialize_bare_item number_text serialize_params entries_text serialize_member inner_text
    has_lone_surrogate items_text to_decimal display_text is_printable
serialize_entries = refl

parse_sf_dict-serialize_sf_dict_example : parse_sf_dict ascii entries_written ≡ some entries
parse_sf_dict-serialize_sf_dict_example =
    parse_sf_dict-serialize_sf_dict ascii entries entries_written
      (
        (unfold text_eq in refl, (unfold text_eq in refl, tt)),
        ((unfold text_eq in refl, tt), (tt, tt)),
      )
      (
        (tt, tt),
        (
          (tt, tt),
          (((((((omega arith, (omega arith, (omega arith, tt))), refl), tt), tt), tt), tt)),
        ),
      )
      serialize_entries

abbrev weighted_written : Text
weighted_written = codes "text/html;q=0.5;sure"

serialize_weighted : serialize_sf_item ascii weighted ≡ ok weighted_written
unfolding serialize_sf_item serialize_item serialize_bare_item is_sf_token_text serialize_params
    params_text is_sf_key_text value_text number_text to_decimal strip_zeros three_digits
serialize_weighted = refl

parse_sf_item-serialize_sf_item_example : parse_sf_item ascii weighted_written ≡ some weighted
parse_sf_item-serialize_sf_item_example =
    parse_sf_item-serialize_sf_item ascii weighted weighted_written
      (tt, ((λ e. cc), ((unfold text_eq in refl, tt), (tt, tt)), (tt, (tt, tt)))) serialize_weighted

-- A later member of the same name takes the place of the earlier one, which keeps its position.
later_wins :
    parse_sf_dict ascii (codes "a=1,b , a;x")
    ≡ some (
        (
          codes "a",
          single (record { value = boolean true; params = some ((codes "x", boolean true) ∷ []) }),
        )
        ∷ (codes "b", single (plain (boolean true)))
        ∷ [])
unfolding parse_sf_dict at_end parse_dictionary dictionary_from skip_ows is_ows parse_key
    is_key_start parse_entry_value span is_key_char parse_member parse_item parse_bare_item
    parse_number read_minus read_decimals negate display_body hex_digit_value inner_items is_base64
    is_base64_char is_base64_group is_lower_hex parse_boolean parse_byte_sequence parse_date
    parse_display_string parse_inner_list parse_integer parse_parameter_value parse_parameters
    parse_parameters_from parse_string parse_token scaled signed skip_sp string_body is_lower
    is_printable is_token_char is_token_start is_upper set_entry cut_at digits_value is_digit
    text_eq
later_wins = refl

-- A comma at the end, and a member that is cut off, are refused.
refused :
    (parse_sf_list ascii (codes "a, ") ≡ none)
    × (parse_sf_dict ascii (codes "a=") ≡ none)
    × (parse_sf_list ascii (codes "(a b") ≡ none)
unfolding parse_sf_list at_end parse_list list_from skip_ows is_ows parse_member parse_item
    parse_bare_item is_digit parse_token is_token_start parse_parameters parse_parameters_from span
    is_token_char parse_sf_dict negate dictionary_from display_body hex_digit_value inner_items
    is_base64 is_base64_char is_base64_group is_lower_hex parse_boolean parse_byte_sequence
    parse_date parse_dictionary parse_display_string parse_entry_value parse_inner_list
    parse_integer parse_key parse_number parse_parameter_value parse_string read_decimals read_minus
    scaled signed skip_sp string_body is_key_char is_key_start is_lower is_printable is_upper
    set_entry cut_at digits_value text_eq parse_items
refused = (refl, refl, refl)

-- Parameters that are malformed are dropped, where what was read of them ends the field.
malformed_accepted :
    (parse_sf_item ascii (codes "a;") ≡ some (plain (token (codes "a"))))
    × (parse_sf_item ascii (codes "a;b=") ≡ some (plain (token (codes "a"))))
    × (parse_sf_item ascii (codes "a;b=\"x") ≡ some (plain (token (codes "a"))))
unfolding parse_sf_item at_end parse_item parse_bare_item trim is_digit parse_token is_token_start
    skip_ows parse_parameters parse_parameters_from span is_token_char is_ows parse_key is_key_start
    parse_parameter_value negate display_body hex_digit_value is_base64 is_base64_char
    is_base64_group is_lower_hex parse_boolean parse_byte_sequence parse_date parse_display_string
    parse_integer parse_number parse_string read_decimals read_minus scaled signed string_body
    is_key_char is_lower is_printable is_upper set_entry cut_at digits_value is_space text_eq
    trim_end trim_start
malformed_accepted = (refl, refl, refl)

-- A date of sixteen digits is written and not read.
long_date :
    (serialize_sf_item ascii (plain (date (pos 1000000000000000))) ≡ ok (codes "@1000000000000000"))
    × (parse_sf_item ascii (codes "@1000000000000000") ≡ none)
unfolding serialize_sf_item serialize_item serialize_bare_item serialize_params to_decimal
    parse_sf_item at_end parse_item parse_bare_item trim parse_date parse_integer span read_minus
    is_digit
long_date = (refl, refl)

out_of_range :
    serialize_sf_item ascii (plain (number (thousandths (pos 1000000000000000000))))
    ≡ err integer_out_of_range
unfolding serialize_sf_item serialize_item serialize_bare_item number_text
out_of_range = refl

parser_total_example :
    (list_from ascii 99 [] (codes "a, b") ≡ some (parse_list ascii (codes "a, b")))
    × (dictionary_from ascii 99 [] (codes "a, b") ≡ some (parse_dictionary ascii (codes "a, b")))
    × (inner_items ascii 99 [] (codes "a, b") ≡ some (parse_items ascii (codes "a, b")))
    × (parse_parameters_from ascii 99 true [] (codes "a, b")
        ≡ some (parse_parameters ascii true (codes "a, b")))
parser_total_example = parser_total ascii 99 true (codes "a, b") (omega arith)

one_and_a_half : parse_number (codes "1.5;q") ≡ (some (number (thousandths (pos 1500))), codes ";q")
unfolding parse_number span read_minus is_digit read_decimals signed digits_value scaled
one_and_a_half = refl

parse_number-number_text_total_example : (text : Text) × (number_text (pos 1500) ≡ ok text)
parse_number-number_text_total_example =
    parse_number-number_text_total (pos 1500) (codes "1.5;q") (codes ";q") one_and_a_half
