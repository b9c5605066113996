-- ===== src/Datetime.antt =====
-- datetime.ts: the readers and writers of HTTP dates and of RFC 3339 timestamps. Clock models the
-- `Date` of ECMAScript that it stands on, Pieces the regular expressions, whose parts are literals,
-- names and runs of digits. A `Date` is its time value; the current time is a parameter.
pub mod Clock
pub mod Pieces
pub mod Digits
pub mod Reading
pub mod Years
pub mod HttpDate
pub mod Obsolete
pub mod Timestamp
pub mod Rfc3339
pub mod Validators
mod Tests
use http_rfc_utils.Common.{
  ℕ, ◌+◌, ◌-◌, ◌*◌, ◌/◌, ◌%◌, Bool, true, false, not, ◌&&◌, ◌||◌, List, [], ◌∷◌, ◌++◌, Option, none,
  some, leb, ltb, ◌==◌, if◌then◌else◌, length, is_empty,
}
use http_rfc_utils.Common.Int.{ℤ, leb_ℤ, pos_part, neg_part}
use http_rfc_utils.Text.{Text, codes, parse_int}
use http_rfc_utils.Datetime.Clock.{
  utc, get_year, get_month, get_date, get_hours, get_minutes, get_seconds, get_day,
}
use http_rfc_utils.Datetime.Pieces.{Piece, literal, digits, name, spaced, read_pieces, print_pieces}

abbrev pub day_names : List Text
day_names =
    codes "Sun"
    ∷ codes "Mon"
    ∷ codes "Tue"
    ∷ codes "Wed"
    ∷ codes "Thu"
    ∷ codes "Fri"
    ∷ codes "Sat"
    ∷ []

abbrev pub full_day_names : List Text
full_day_names =
    codes "Sunday"
    ∷ codes "Monday"
    ∷ codes "Tuesday"
    ∷ codes "Wednesday"
    ∷ codes "Thursday"
    ∷ codes "Friday"
    ∷ codes "Saturday"
    ∷ []

abbrev pub month_names : List Text
month_names =
    codes "Jan"
    ∷ codes "Feb"
    ∷ codes "Mar"
    ∷ codes "Apr"
    ∷ codes "May"
    ∷ codes "Jun"
    ∷ codes "Jul"
    ∷ codes "Aug"
    ∷ codes "Sep"
    ∷ codes "Oct"
    ∷ codes "Nov"
    ∷ codes "Dec"
    ∷ []

-- `buildValidatedHTTPDate`. Behind the first tests no argument is large enough for `Date.UTC` to
-- answer NaN.
unfoldable pub build_validated_http_date : ℕ → ℕ → ℕ → ℕ → ℕ → ℕ → ℕ → Option ℤ
build_validated_http_date year month_index day hours minutes seconds expected_weekday =
    let time = utc year month_index day hours minutes seconds 0 in
    if ltb 11 month_index || ltb 23 hours || ltb 59 minutes || ltb 59 seconds
    then none
    else if not (get_year time == year)
        || not (get_month time == month_index)
        || not (get_date time == day)
        || not (get_hours time == hours)
        || not (get_minutes time == minutes)
        || not (get_seconds time == seconds)
    then none
    else if not (get_day time == expected_weekday)
    then none
    else some time

-- `resolveRFC850Year`, by the current year.
unfoldable pub resolve_rfc850_year : ℕ → ℕ → ℕ
resolve_rfc850_year two_digit_year current_year =
    let year = current_year / 100 * 100 + two_digit_year in
    if ltb (current_year + 50) year then year - 100 else year

abbrev time_pieces : List Piece
time_pieces = digits 2 ∷ literal (codes ":") ∷ digits 2 ∷ literal (codes ":") ∷ digits 2 ∷ []

-- `Sun, 06 Nov 1994 08:49:37 GMT`
abbrev pub imf_pieces : List Piece
imf_pieces =
    name day_names
      ∷ literal (codes ", ")
      ∷ digits 2
      ∷ literal (codes " ")
      ∷ name month_names
      ∷ literal (codes " ")
      ∷ digits 4
      ∷ literal (codes " ")
      ∷ time_pieces
    ++ literal (codes " GMT") ∷ []

-- `Sunday, 06-Nov-94 08:49:37 GMT`
abbrev pub rfc850_pieces : List Piece
rfc850_pieces =
    name full_day_names
      ∷ literal (codes ", ")
      ∷ digits 2
      ∷ literal (codes "-")
      ∷ name month_names
      ∷ literal (codes "-")
      ∷ digits 2
      ∷ literal (codes " ")
      ∷ time_pieces
    ++ literal (codes " GMT") ∷ []

-- `Sun Nov  6 08:49:37 1994`
abbrev pub asctime_pieces : List Piece
asctime_pieces =
    name day_names
      ∷ literal (codes " ")
      ∷ name month_names
      ∷ literal (codes " ")
      ∷ spaced
      ∷ literal (codes " ")
      ∷ time_pieces
    ++ literal (codes " ") ∷ digits 4 ∷ []

-- The three forms, from what their pieces captured.
unfoldable pub build_imf : List ℕ → Option ℤ
build_imf (weekday ∷ day ∷ month ∷ year ∷ hours ∷ minutes ∷ seconds ∷ []) =
    build_validated_http_date year month day hours minutes seconds weekday
build_imf _ = none

unfoldable pub build_rfc850 : ℕ → List ℕ → Option ℤ
build_rfc850 current_year (weekday ∷ day ∷ month ∷ year ∷ hours ∷ minutes ∷ seconds ∷ []) =
    build_validated_http_date (resolve_rfc850_year year current_year) month day hours minutes
      seconds weekday
build_rfc850 current_year _ = none

unfoldable pub build_asctime : List ℕ → Option ℤ
build_asctime (weekday ∷ month ∷ day ∷ hours ∷ minutes ∷ seconds ∷ year ∷ []) =
    build_validated_http_date year month day hours minutes seconds weekday
build_asctime _ = none

-- The current year is that of `new Date()`.
unfoldable pub parse_http_date : ℕ → Text → Option ℤ
parse_http_date current_year str = elim (read_pieces imf_pieces str) [
  | some values ↦ build_imf values
  | none ↦ elim (read_pieces rfc850_pieces str) [
    | some values ↦ build_rfc850 current_year values
    | none ↦ elim (read_pieces asctime_pieces str) [
      | some values ↦ build_asctime values
      | none ↦ none
    ]
  ]
]

-- `date.toUTCString()`, for the years 0 to 9999.
unfoldable pub format_http_date : ℤ → Text
format_http_date date = print_pieces imf_pieces (
    get_day date
    ∷ get_date date
    ∷ get_month date
    ∷ get_year date
    ∷ get_hours date
    ∷ get_minutes date
    ∷ get_seconds date
    ∷ [])

-- `isExpired` and `secondsUntil` at the time `now`.
unfoldable pub is_expired : ℤ → ℤ → Bool
is_expired now date = not (leb_ℤ now date)

-- `Math.floor((date - now) / 1000)`, or 0 for a date that is not to come.
unfoldable pub seconds_until : ℤ → ℤ → ℕ
seconds_until now date = (pos_part date + neg_part now - (pos_part now + neg_part date)) / 1000
