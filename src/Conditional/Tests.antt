-- ===== src/Conditional/Tests.antt =====
-- Runs of conditional.ts, and its theorems at concrete inputs.
use http_rfc_utils.Common.{
  ltb, not, ◌&&◌, ◌==◌, all, Bool, true, false, List, [], ◌∷◌, Option, none, some, ◌≡◌, refl, ◌↔◌,
  arith, All,
}
use http_rfc_utils.Common.Int.{ℤ, pos}
use http_rfc_utils.Common.Results.{ok, err}
use http_rfc_utils.Text.{
  Text, codes, trim, trim_start, trim_end, strip_prefix, cut_at, text_eq, is_space,
}
use http_rfc_utils.Etag.{
  ETag, parse_etag, parse_trimmed, parse_opaque, unquoted, ends_with, drop_last,
  is_valid_etag_value, is_etag_char, compare_etags, format_etag, quoted,
}
use http_rfc_utils.Conditional.{
  tags, parse_if_match, evaluate_if_match, Request, Headers, not_modified, proceed, stop,
  handle_conditional_request, new_response, fill_header, response_refused, evaluate_preconditions,
  check_none_match, evaluate_if_none_match, parse_if_none_match, if_none_match_hits,
  if_match_passes, any_matches, read_condition, read_tags, read_tag, opening, skip_blanks,
  after_tag, is_safe_method, stop_with, build_conditional_headers,
}
use http_rfc_utils.Conditional.Lists.{IsTag, format_tags, parse_if_none_match-format_tags}
use http_rfc_utils.Conditional.Fuel.{read_tags_total}
use http_rfc_utils.Conditional.Precedence.{
  Meets, Passes, evaluate_if_match_iff, evaluate_if_none_match_iff, evaluate_preconditions_iff,
}
use http_rfc_utils.Conditional.Stops.{Stops, evaluate_preconditions_stop}
use http_rfc_utils.Conditional.Handler.{Answered, handle_conditional_request_cases}

abbrev tag_a : ETag
tag_a = record { weak = false; value = codes "a" }

abbrev tag_b : ETag
tag_b = record { weak = true; value = codes "b" }

abbrev both : List ETag
both = tag_a ∷ tag_b ∷ []

-- A reader and a writer of dates that know one date.
abbrev read_date : Text → Option ℤ
read_date [] = none
read_date (c ∷ s) = some (pos 5000)

abbrev write_date : ℤ → Text
write_date date = codes "date"

abbrev get_request : Request
get_request = record {
  method = codes "get";
  if_match = none;
  if_none_match = some (codes "W/\"a\", \"c\"");
  if_modified_since = none;
  if_unmodified_since = none;
}

abbrev sent : Headers
sent =
    (codes "Access-Control-Allow-Origin", codes "*")
    ∷ (codes "Access-Control-Allow-Methods", codes "GET, HEAD, OPTIONS")
    ∷ (
      codes "Access-Control-Allow-Headers",
      codes "Content-Type, Accept, If-None-Match, If-Modified-Since",
    )
    ∷ (codes "Access-Control-Expose-Headers", codes "ETag, Last-Modified, Link, X-Total-Count")
    ∷ (codes "Access-Control-Max-Age", codes "86400")
    ∷ (codes "ETag", codes "\"a\"")
    ∷ (codes "Last-Modified", codes "date")
    ∷ []

parse_both : parse_if_none_match (codes "\"a\",\tW/\"b\"") ≡ tags both
unfolding parse_if_none_match read_condition read_tags read_tag opening skip_blanks after_tag trim
    trim_start trim_end strip_prefix cut_at text_eq is_space parse_etag parse_trimmed parse_opaque
    unquoted ends_with drop_last is_valid_etag_value is_etag_char
parse_both = refl

trailing_comma : parse_if_none_match (codes "\"a\",") ≡ tags []
unfolding parse_if_none_match read_condition read_tags read_tag opening skip_blanks after_tag trim
    trim_start trim_end strip_prefix cut_at text_eq is_space parse_etag parse_trimmed parse_opaque
    unquoted ends_with drop_last is_valid_etag_value is_etag_char
trailing_comma = refl

is_stopped :
    evaluate_preconditions read_date write_date get_request (some tag_a) (some (pos 7))
    ≡ ok (stop not_modified sent)
unfolding evaluate_preconditions check_none_match evaluate_if_none_match parse_if_none_match
    if_none_match_hits any_matches read_condition read_tags read_tag opening skip_blanks after_tag
    is_safe_method stop_with build_conditional_headers trim trim_start trim_end strip_prefix cut_at
    text_eq is_space parse_etag parse_trimmed parse_opaque unquoted ends_with drop_last
    is_valid_etag_value is_etag_char compare_etags format_etag quoted
is_stopped = refl

both-IsTag : All IsTag both
unfolding is_valid_etag_value is_etag_char
both-IsTag = (refl, (refl, tt))

parse_if_none_match-format_tags_example : parse_if_none_match (format_tags both) ≡ tags both
parse_if_none_match-format_tags_example = parse_if_none_match-format_tags both both-IsTag

read_tags_total_example : (r : List ETag) × (read_tags 3 [] (codes "\"a\"") ≡ some r)
read_tags_total_example = read_tags_total 3 [] (codes "\"a\"") (omega arith) (omega arith)

evaluate_if_match_iff_example :
    (evaluate_if_match (codes "*") (some tag_b) ≡ true)
    ↔ ((etag : ETag) × (some tag_b ≡ some etag) × Meets true etag (parse_if_match (codes "*")))
evaluate_if_match_iff_example = evaluate_if_match_iff (codes "*") (some tag_b)

evaluate_if_none_match_iff_example :
    (evaluate_if_none_match (codes "\"b\"") (some tag_b) ≡ true) ↔ (
      (etag : ETag) × (some tag_b ≡ some etag)
      × Meets false etag (parse_if_none_match (codes "\"b\"")))
evaluate_if_none_match_iff_example = evaluate_if_none_match_iff (codes "\"b\"") (some tag_b)

evaluate_preconditions_iff_example :
    (evaluate_preconditions read_date write_date get_request (some tag_b) none ≡ ok proceed)
    ↔ Passes read_date write_date get_request (some tag_b) none
evaluate_preconditions_iff_example =
    evaluate_preconditions_iff read_date write_date get_request (some tag_b) none

evaluate_preconditions_stop_example :
    (build_conditional_headers read_date write_date (some tag_a) (some (pos 7)) ≡ ok sent)
    × Stops read_date write_date not_modified get_request (some tag_a) (some (pos 7))
evaluate_preconditions_stop_example =
    evaluate_preconditions_stop read_date write_date get_request (some tag_a) (some (pos 7))
      not_modified sent is_stopped

-- The platform's test of a header's value: bytes, with no line break and no NUL.
abbrev takes_header : Text → Text → Bool
takes_header name value =
    all (λ c. ltb c 256 && not (c == 0) && not (c == 10) && not (c == 13)) value

handler_stops :
    handle_conditional_request read_date write_date takes_header get_request (codes "\"a\"") (pos 7)
    ≡ ok (some (not_modified, sent))
unfolding handle_conditional_request new_response fill_header evaluate_preconditions
    check_none_match evaluate_if_none_match parse_if_none_match if_none_match_hits any_matches
    read_condition read_tags read_tag opening skip_blanks after_tag is_safe_method stop_with
    build_conditional_headers trim trim_start trim_end strip_prefix cut_at text_eq is_space
    parse_etag parse_trimmed parse_opaque unquoted ends_with drop_last is_valid_etag_value
    is_etag_char compare_etags format_etag quoted
handler_stops = refl

abbrev put_request : Request
put_request = record {
  method = codes "PUT";
  if_match = some (codes "*");
  if_none_match = none;
  if_modified_since = none;
  if_unmodified_since = none;
}

-- The current tag is a text with a line break: the response is refused.
handler_throws :
    handle_conditional_request read_date write_date takes_header put_request (97 ∷ 10 ∷ []) (pos 7)
    ≡ err response_refused
unfolding handle_conditional_request new_response fill_header evaluate_preconditions
    evaluate_if_match if_match_passes parse_if_match parse_if_none_match read_condition trim text_eq
    parse_etag parse_trimmed strip_prefix parse_opaque unquoted stop_with build_conditional_headers
handler_throws = refl

handle_conditional_request_cases_example :
    Answered read_date write_date takes_header get_request (codes "\"a\"") (pos 7)
handle_conditional_request_cases_example =
    handle_conditional_request_cases read_date write_date takes_header get_request (codes "\"a\"")
      (pos 7)
