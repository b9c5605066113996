-- ===== src/Range/Tests.antt =====
-- Runs of range.ts, and its theorems at concrete inputs.
use http_rfc_utils.Common.{ℕ, true, List, [], ◌∷◌, Option, none, some, ◌≡◌, ◌↔◌, refl, arith}
use http_rfc_utils.Common.Int.{ℤ}
use http_rfc_utils.Text.{Text, codes, text_eq}
use http_rfc_utils.Range.{
  RawRange, suffix, open_ended, closed, Span, known, satisfied, unsatisfied, parse_range,
  parse_content_range, format_content_range, normalize_ranges, unsatisfiable, partial, RangeRequest,
  Headers, upper_case, if_range_holds, unsatisfied_headers, decide_ranges, evaluate_range,
  size_admits,
}
use http_rfc_utils.Range.Parse.{range_text, parse_range-range_text}
use http_rfc_utils.Range.Header.{parse_content_range-format_content_range}
use http_rfc_utils.Range.Normalize.{IsCanonical, normalize_ranges-IsCanonical}
use http_rfc_utils.Range.Coverage.{Covers, Asked, normalize_ranges-Covers}
use http_rfc_utils.Range.Evaluate.{Answers, decide_ranges_unsatisfiable, evaluate_range_partial}
use http_rfc_utils.Range.{
  sort_spans, parse_range_part, strip_prefix_ci, parse_part, merge_from, parse_range_and_size,
  parse_size, parse_bounds, parse_unsatisfied, is_strict_digits, resolve_all, insert_span, resolve,
  merge_spans, parse_parts,
}
use http_rfc_utils.Text.{
  is_digit, cut_at, split, trim, parse_int, decimal_from, digits_value, is_space, strip_prefix,
  to_decimal, trim_end, trim_start,
}
use http_rfc_utils.Range.{
  if_range_matches, match_tag_or_date, clip, dates_match, partial_headers, strong_match,
}
use http_rfc_utils.Etag.{
  parse_etag, compare_etags, drop_last, ends_with, is_etag_char, is_valid_etag_value, parse_opaque,
  parse_trimmed, unquoted,
}

abbrev asked : List RawRange
asked = suffix 5 ∷ closed 0 3 ∷ closed 4 4 ∷ open_ended 200 ∷ []

abbrev tail_span : Span
tail_span = record { start = 95; end = 99 }

abbrev head_span : Span
head_span = record { start = 0; end = 4 }

parse_asked : parse_range (codes "Bytes=-5, 0 - 3,4-4,200-") ≡ some asked
unfolding parse_range strip_prefix_ci trim parse_parts split parse_part cut_at parse_bounds
    is_strict_digits is_digit parse_int
parse_asked = refl

refused : (parse_range (codes "bytes=3-2") ≡ none) × (parse_range (codes "bytes=1-2,") ≡ none)
unfolding parse_range strip_prefix_ci trim parse_parts split parse_part cut_at parse_bounds
    is_strict_digits is_digit parse_int
refused = (refl, refl)

normalize_asked : normalize_ranges asked 100 ≡ head_span ∷ tail_span ∷ []
unfolding normalize_ranges merge_spans sort_spans resolve_all resolve insert_span merge_from
normalize_asked = refl

parse_unsatisfied_size : parse_content_range (codes "bytes */47") ≡ some (unsatisfied 47)
unfolding parse_content_range cut_at trim text_eq parse_range_and_size split parse_size
    is_strict_digits is_digit parse_range_part parse_unsatisfied parse_int
parse_unsatisfied_size = refl

abbrev read_date : Text → Option ℤ
read_date text = none

abbrev get_tail : RangeRequest
get_tail = record {
  method = codes "GET";
  range = some (codes "bytes=-5");
  if_range = some (codes "\"v1\"");
}

abbrev sent : Headers
sent =
    (codes "Accept-Ranges", codes "bytes") ∷ (codes "Content-Range", codes "bytes 95-99/100") ∷ []

answered :
    evaluate_range read_date get_tail 100 (some (codes "\"v1\"")) none
    ≡ partial (tail_span ∷ []) sent
unfolding evaluate_range text_eq parse_range strip_prefix_ci trim parse_parts split parse_part
    cut_at parse_bounds is_strict_digits is_digit parse_int if_range_holds if_range_matches
    match_tag_or_date parse_etag compare_etags drop_last ends_with is_etag_char is_valid_etag_value
    parse_opaque parse_trimmed unquoted clip dates_match decide_ranges format_content_range
    insert_span merge_from merge_spans normalize_ranges partial_headers resolve resolve_all
    sort_spans strong_match decimal_from digits_value is_space strip_prefix to_decimal trim_end
    trim_start
answered = refl

parse_range-range_text_example : parse_range (range_text asked) ≡ some asked
parse_range-range_text_example = parse_range-range_text asked (λ e. cc) (omega arith)

parse_content_range-format_content_range_example :
    parse_content_range (format_content_range tail_span (known 100))
    ≡ some (satisfied tail_span (known 100))
parse_content_range-format_content_range_example =
    parse_content_range-format_content_range tail_span (known 100) (omega arith) tail_fits
  where
    tail_fits : size_admits (known 100) 99 ≡ true
    tail_fits = unfold size_admits in refl

normalize_ranges-IsCanonical_example : IsCanonical 100 (normalize_ranges asked 100)
normalize_ranges-IsCanonical_example = normalize_ranges-IsCanonical asked 100

normalize_ranges-Covers_example : Covers 97 (normalize_ranges asked 100) ↔ Asked 100 asked 97
normalize_ranges-Covers_example = normalize_ranges-Covers asked 100 97

decide_ranges_unsatisfiable_example :
    (decide_ranges (open_ended 200 ∷ []) 100 ≡ unsatisfiable (unsatisfied_headers 100))
    ↔ ((b : ℕ) → ¬ (Asked 100 (open_ended 200 ∷ []) b))
decide_ranges_unsatisfiable_example = decide_ranges_unsatisfiable (open_ended 200 ∷ []) 100

evaluate_range_partial_example :
    (header : Text) × (parsed : List RawRange) × (some (codes "bytes=-5") ≡ some header)
    × (text_eq (upper_case (codes "GET")) (codes "GET") ≡ true)
    × (parse_range header ≡ some parsed)
    × (if_range_holds read_date (some (codes "\"v1\"")) (some (codes "\"v1\"")) none ≡ true)
    × Answers parsed 100 (tail_span ∷ []) sent
evaluate_range_partial_example =
    evaluate_range_partial read_date get_tail 100 (some (codes "\"v1\"")) none (tail_span ∷ []) sent
      answered
