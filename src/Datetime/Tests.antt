-- ===== src/Datetime/Tests.antt =====
-- Runs of datetime.ts, and its theorems at concrete inputs.
use http_rfc_utils.Common.{true, false, List, [], ◌∷◌, none, some, ◌≡◌, ◌↔◌, ◌≢◌, refl, arith, inl}
use http_rfc_utils.Common.Int.{ℤ, pos, negsuc, floor_to}
use http_rfc_utils.Text.{Text, codes}
use http_rfc_utils.Conditional.{Request, is_safe_method, evaluate_preconditions, stop, not_modified}
use http_rfc_utils.Common.Results.{ok}
use http_rfc_utils.Etag.{ETag, is_valid_etag_value, is_etag_char}
use http_rfc_utils.Conditional.Stops.{Formats, stop_headers}
use http_rfc_utils.Range.Parse.{range_text, parse_range-range_text}
use http_rfc_utils.Range.{
  RawRange, RangeRequest, open_ended, ignored, partial, normalize_ranges, upper_case,
  partial_headers, evaluate_range,
}
use http_rfc_utils.Datetime.{parse_http_date, format_http_date, imf_pieces, resolve_rfc850_year}
use http_rfc_utils.Datetime.Clock.{get_year}
use http_rfc_utils.Datetime.Pieces.{read_pieces}
use http_rfc_utils.Datetime.Timestamp.{parse_rfc3339, to_rfc3339}
use http_rfc_utils.Datetime.Rfc3339.{parse_rfc3339-to_rfc3339}
use http_rfc_utils.Datetime.HttpDate.{
  IsHttpTime, parse_http_date-format_http_date, parse_http_date_iff,
}
use http_rfc_utils.Datetime.Obsolete.{asctime_text, rfc850_text, parse_http_date_forms}
use http_rfc_utils.Datetime.Validators.{
  evaluate_preconditions-format_http_date, evaluate_range-format_http_date,
}
use http_rfc_utils.Datetime.Pieces.{print_pieces, name_at, print_digits}
use http_rfc_utils.Datetime.Clock.{
  days_before_month, is_leap, millis, get_hours, get_month, days_before_year, get_day, month_start,
  get_date, month_from, get_minutes, year_from, date_of, get_seconds, year_of, month_of,
}
use http_rfc_utils.Datetime.Pieces.{read_digits, read_name, read_piece, read_spaced}
use http_rfc_utils.Text.{is_digit, strip_prefix}
use http_rfc_utils.Datetime.{build_asctime, build_imf, build_rfc850, build_validated_http_date}
use http_rfc_utils.Datetime.Clock.{full_year, make_day, time_value, utc}
use http_rfc_utils.Datetime.Pieces.{read_one_of, read_front}
use http_rfc_utils.Text.{span, text_eq}
use http_rfc_utils.Datetime.Timestamp.{
  read_fraction, build_rfc3339, is_leap_year, get_days_in_month, is_valid_date_parts, apply_offset,
  read_offset,
}
use http_rfc_utils.Datetime.Pieces.{unit_at}
use http_rfc_utils.Datetime.Timestamp.{parse_fractional_milliseconds}
use http_rfc_utils.Text.{digits_value}

-- 1994-11-06T08:49:37.250Z
abbrev sunday : ℤ
sunday = pos 784111777250

abbrev sunday_text : Text
sunday_text = codes "Sun, 06 Nov 1994 08:49:37 GMT"

format_sunday : format_http_date sunday ≡ sunday_text
unfolding format_http_date print_pieces name_at get_day millis print_digits get_date get_month
    date_of month_of days_before_year month_from year_of days_before_month year_from month_start
    is_leap get_year get_hours get_minutes get_seconds
format_sunday = refl

parse_sunday : parse_http_date 2025 sunday_text ≡ some (pos 784111777000)
unfolding parse_http_date read_pieces read_piece read_name strip_prefix read_digits is_digit
    build_imf build_validated_http_date get_year year_of year_from days_before_year millis utc
    time_value make_day full_year days_before_month month_start is_leap get_month month_of
    month_from get_date date_of get_hours get_minutes get_seconds get_day read_front
parse_sunday = refl

obsolete_forms :
    (rfc850_text sunday ≡ codes "Sunday, 06-Nov-94 08:49:37 GMT")
    × (asctime_text sunday ≡ codes "Sun Nov  6 08:49:37 1994")
unfolding rfc850_text print_pieces name_at get_day millis print_digits get_date get_month date_of
    month_of days_before_year month_from year_of days_before_month year_from month_start is_leap
    get_year get_hours get_minutes get_seconds asctime_text
obsolete_forms = (refl, refl)

leap_day :
    (parse_http_date 2025 (codes "Thu, 29 Feb 2024 23:59:59 GMT") ≡ some (pos 1709251199000))
    × (parse_http_date 2025 (codes "Wed, 29 Feb 2023 23:59:59 GMT") ≡ none)
unfolding parse_http_date read_pieces read_piece read_name strip_prefix read_digits is_digit
    build_imf build_validated_http_date get_year year_of year_from days_before_year millis utc
    time_value make_day full_year days_before_month month_start is_leap get_month month_of
    month_from get_date date_of get_hours get_minutes get_seconds get_day read_front
leap_day = (refl, refl)

-- A wrong weekday, a second of 60, and a day of 00.
refused :
    (parse_http_date 2025 (codes "Mon, 06 Nov 1994 08:49:37 GMT") ≡ none)
    × (parse_http_date 2025 (codes "Sun, 06 Nov 1994 08:49:60 GMT") ≡ none)
    × (parse_http_date 2025 (codes "Mon, 00 Nov 1994 08:49:37 GMT") ≡ none)
unfolding parse_http_date read_pieces read_piece read_name strip_prefix read_digits is_digit
    build_imf build_validated_http_date get_year year_of year_from days_before_year millis utc
    time_value make_day full_year days_before_month month_start is_leap get_month month_of
    month_from get_date date_of get_hours get_minutes get_seconds get_day read_front
refused = (refl, refl, refl)

-- A year below 100 is written, and not read.
early_year :
    (format_http_date (negsuc 60589295999999) ≡ codes "Sat, 01 Jan 0050 00:00:00 GMT")
    × (parse_http_date 2025 (codes "Sat, 01 Jan 0050 00:00:00 GMT") ≡ none)
unfolding format_http_date print_pieces name_at get_day millis print_digits get_date get_month
    date_of month_of days_before_year month_from year_of days_before_month year_from month_start
    is_leap get_year get_hours get_minutes get_seconds parse_http_date read_pieces read_piece
    read_name full_year make_day time_value utc read_digits read_spaced build_asctime build_imf
    build_rfc850 build_validated_http_date resolve_rfc850_year is_digit strip_prefix read_front
early_year = (refl, refl)

-- In the second half of a century the window of two digits is the century.
window : (resolve_rfc850_year 5 2060 ≡ 2005) × (resolve_rfc850_year 5 2049 ≡ 2005)
unfolding resolve_rfc850_year
window = (refl, refl)

sunday_year : get_year sunday ≡ 1994
unfolding get_year year_of year_from days_before_year millis
sunday_year = refl

sunday-IsHttpTime : IsHttpTime sunday
unfolding get_year year_of year_from days_before_year millis
sunday-IsHttpTime = record {
  not_before = omega arith;
  year_in = (omega (arith, sunday_year), omega (arith, sunday_year));
}

parse_http_date-format_http_date_example :
    parse_http_date 2025 (format_http_date sunday) ≡ some (floor_to 1000 sunday)
parse_http_date-format_http_date_example =
    parse_http_date-format_http_date 2025 sunday sunday-IsHttpTime

sunday_read : read_pieces imf_pieces sunday_text ≡ some (0 ∷ 6 ∷ 10 ∷ 1994 ∷ 8 ∷ 49 ∷ 37 ∷ [])
unfolding read_pieces read_front read_piece read_name strip_prefix read_digits is_digit
sunday_read = refl

parse_http_date_iff_example : (parse_http_date 2025 sunday_text ≡ some sunday) ↔ (
    IsHttpTime sunday × (floor_to 1000 sunday ≡ sunday) × (format_http_date sunday ≡ sunday_text))
parse_http_date_iff_example = parse_http_date_iff 2025 sunday_text _ sunday sunday_read

parse_http_date_forms_example :
    (parse_http_date 2025 (format_http_date sunday) ≡ some (floor_to 1000 sunday))
    × (parse_http_date 2025 (rfc850_text sunday) ≡ some (floor_to 1000 sunday))
    × (parse_http_date 2025 (asctime_text sunday) ≡ some (floor_to 1000 sunday))
parse_http_date_forms_example =
    parse_http_date_forms 2025 sunday sunday-IsHttpTime (omega arith) (omega (arith, sunday_year))
      (omega (arith, sunday_year))

abbrev revalidation : Request
revalidation = record {
  method = codes "GET";
  if_match = none;
  if_none_match = none;
  if_modified_since = some (format_http_date sunday);
  if_unmodified_since = none;
}

get_is_safe : is_safe_method (codes "GET") ≡ true
unfolding is_safe_method text_eq
get_is_safe = refl

abbrev current_tag : ETag
current_tag = record { weak = false; value = codes "a" }

current_tag-Formats : Formats (some current_tag)
unfolding is_valid_etag_value is_etag_char
current_tag-Formats = refl

evaluate_preconditions-format_http_date_example :
    evaluate_preconditions
      (parse_http_date 2025)
      format_http_date
      revalidation
      (some current_tag)
      (some sunday)
    ≡ ok (stop not_modified (stop_headers format_http_date (some current_tag) sunday))
evaluate_preconditions-format_http_date_example =
    evaluate_preconditions-format_http_date 2025 sunday revalidation (some current_tag)
      sunday-IsHttpTime current_tag-Formats refl refl refl get_is_safe refl

abbrev resumption : RangeRequest
resumption = record {
  method = codes "GET";
  range = some (range_text (open_ended 90 ∷ []));
  if_range = some (format_http_date sunday);
}

get_method : text_eq (upper_case (codes "GET")) (codes "GET") ≡ true
unfolding text_eq
get_method = refl

abbrev tail_ranges : List RawRange
tail_ranges = open_ended 90 ∷ []

evaluate_range-format_http_date_example :
    ((evaluate_range (parse_http_date 2025) resumption 100 none (some sunday)
        ≡ partial
            (normalize_ranges tail_ranges 100)
            (partial_headers (normalize_ranges tail_ranges 100) 100))
      ↔ (floor_to 1000 sunday ≡ sunday))
    × ((evaluate_range (parse_http_date 2025) resumption 100 none (some sunday) ≡ ignored)
        ↔ (floor_to 1000 sunday ≢ sunday))
evaluate_range-format_http_date_example =
    evaluate_range-format_http_date 2025 sunday resumption (range_text tail_ranges) tail_ranges 100
      95 sunday-IsHttpTime get_method refl (parse_range-range_text tail_ranges (λ e. cc) (tt, tt))
      (inl (omega arith, omega arith)) refl

timestamps :
    (to_rfc3339 sunday ≡ codes "1994-11-06T08:49:37.250Z")
    × (parse_rfc3339 (codes "2025-02-01t12:30:45.1239+05:30") ≡ some (pos 1738393245123))
    × (parse_rfc3339 (codes "2016-12-31 23:59:60Z") ≡ some (pos 1483228800000))
unfolding to_rfc3339 print_pieces print_digits get_year get_month get_date unit_at year_of month_of
    date_of get_hours get_minutes get_seconds millis year_from month_from days_before_year
    days_before_month month_start is_leap parse_rfc3339 read_front read_piece read_digits is_digit
    strip_prefix read_one_of read_fraction full_year make_day time_value utc name_at read_name
    read_pieces read_spaced apply_offset build_rfc3339 get_days_in_month is_leap_year
    is_valid_date_parts parse_fractional_milliseconds read_offset digits_value span
timestamps = (refl, refl, refl)

not_timestamps :
    (parse_rfc3339 (codes "2025-02-29T12:30:45Z") ≡ none)
    × (parse_rfc3339 (codes "2025-02-01T12:30:45.Z") ≡ none)
    × (parse_rfc3339 (codes "2025-02-01T12:30:45+24:00") ≡ none)
unfolding parse_rfc3339 read_front read_piece read_digits is_digit strip_prefix read_one_of
    read_fraction read_offset build_rfc3339 is_valid_date_parts get_days_in_month is_leap_year span
    read_pieces apply_offset
not_timestamps = (refl, refl, refl)

-- The year 50 is read as 1950.
early_timestamp :
    parse_rfc3339 (codes "0050-01-01T00:00:00Z") ≡ parse_rfc3339 (codes "1950-01-01T00:00:00Z")
unfolding parse_rfc3339 read_front read_piece read_digits is_digit strip_prefix read_one_of
    build_rfc3339 is_valid_date_parts utc get_days_in_month full_year
early_timestamp = refl

parse_rfc3339-to_rfc3339_example : parse_rfc3339 (to_rfc3339 sunday) ≡ some sunday
parse_rfc3339-to_rfc3339_example = parse_rfc3339-to_rfc3339 sunday sunday-IsHttpTime
