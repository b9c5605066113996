-- ===== src/Datetime/Timestamp.antt =====
-- RFC 3339 timestamps: `toRFC3339`, `parseRFC3339` and their helpers.
use http_rfc_utils.Common.{
  ℕ, ◌+◌, ◌-◌, ◌*◌, ◌%◌, Bool, true, false, not, ◌&&◌, ◌||◌, List, [], ◌∷◌, ◌++◌, Option, none,
  some, leb, ltb, ◌==◌, if◌then◌else◌, is_empty,
}
use http_rfc_utils.Common.Int.{ℤ}
use http_rfc_utils.Text.{Text, codes, is_digit, digits_value, span}
use http_rfc_utils.Datetime.Clock.{
  utc, millis, time_value, get_year, get_month, get_date, get_hours, get_minutes, get_seconds,
}
use http_rfc_utils.Datetime.Pieces.{
  Piece, literal, digits, one_of, read_front, read_pieces, print_pieces,
}

unfoldable pub is_leap_year : ℕ → Bool
is_leap_year year =
    if not (year % 4 == 0) then false else if not (year % 100 == 0) then true else year % 400 == 0

-- The months count from 1.
unfoldable pub get_days_in_month : ℕ → ℕ → ℕ
get_days_in_month year month =
    if month == 2
    then if is_leap_year year then 29 else 28
    else if month == 4 || month == 6 || month == 9 || month == 11
    then 30
    else 31

unfoldable pub is_valid_date_parts : ℕ → ℕ → ℕ → Bool
is_valid_date_parts year month day =
    if ltb 9999 year
    then false
    else if ltb month 1 || ltb 12 month
    then false
    else leb 1 day && leb day (get_days_in_month year month)

-- The first three digits, with zeros behind fewer.
unfoldable pub parse_fractional_milliseconds : Text → ℕ
parse_fractional_milliseconds [] = 0
parse_fractional_milliseconds (a ∷ []) = digits_value 0 (a ∷ b'0' ∷ b'0' ∷ [])
parse_fractional_milliseconds (a ∷ b ∷ []) = digits_value 0 (a ∷ b ∷ b'0' ∷ [])
parse_fractional_milliseconds (a ∷ b ∷ c ∷ s) = digits_value 0 (a ∷ b ∷ c ∷ [])

-- `2025-02-01T12:30:45`
abbrev pub front_pieces : List Piece
front_pieces =
    digits 4
    ∷ literal (codes "-")
    ∷ digits 2
    ∷ literal (codes "-")
    ∷ digits 2
    ∷ one_of (codes "Tt ")
    ∷ digits 2
    ∷ literal (codes ":")
    ∷ digits 2
    ∷ literal (codes ":")
    ∷ digits 2
    ∷ []

-- `(?:\.(\d+))?`: the digits, none where the group is left out, and the text behind them.
unfoldable pub read_fraction : Text → Option (Text × Text)
read_fraction [] = some ([], [])
read_fraction (c ∷ s) =
    let (fraction, rest) = span is_digit s in
    if c == b'.'
    then if is_empty fraction then none else some (fraction, rest)
    else some ([], c ∷ s)

abbrev offset_of : Bool → Option (List ℕ) → Option (Option (Bool × ℕ × ℕ))
offset_of negative (some (hours ∷ minutes ∷ [])) = some (some (negative, hours, minutes))
offset_of negative _ = none

-- `(?:[Zz]|([+-])(\d{2}):(\d{2}))$`: the sign, the hours and the minutes, none of them for `Z`.
unfoldable pub read_offset : Text → Option (Option (Bool × ℕ × ℕ))
read_offset [] = none
read_offset (c ∷ s) =
    let offset =
      offset_of (c == b'-') (read_pieces (digits 2 ∷ literal (codes ":") ∷ digits 2 ∷ []) s) in
    if c == b'Z' || c == b'z'
    then if is_empty s then some none else none
    else if c == b'+' || c == b'-'
    then offset
    else none

-- Adding and subtracting milliseconds, at a time that does not fall in front of the year 0.
abbrev later : ℤ → ℕ → ℤ
later t n = time_value (millis t + n)

abbrev earlier : ℤ → ℕ → ℤ
earlier t n = time_value (millis t - n)

-- The offset is tested and subtracted.
unfoldable pub apply_offset : Option (Bool × ℕ × ℕ) → ℤ → Option ℤ
apply_offset none t = some t
apply_offset (some (negative, hours, minutes)) t =
    let offset = (hours * 60 + minutes) * 60000 in
    if ltb 23 hours || ltb 59 minutes
    then none
    else some (if negative then later t offset else earlier t offset)

-- The body of `parseRFC3339` behind the match. A second of 60 is the start of the next one.
unfoldable pub build_rfc3339 : List ℕ → Text → Option (Bool × ℕ × ℕ) → Option ℤ
build_rfc3339 (year ∷ month ∷ day ∷ separator ∷ hours ∷ minutes ∷ seconds ∷ []) fraction offset =
    let whole_seconds = if seconds == 60 then 59 else seconds in
    let leap_second_adjustment = if seconds == 60 then 1000 else 0 in
    let ms = parse_fractional_milliseconds fraction in
    if not (is_valid_date_parts year month day)
    then none
    else if ltb 23 hours || ltb 59 minutes || ltb 60 seconds
    then none
    else apply_offset offset
        (later (utc year (month - 1) day hours minutes whole_seconds ms) leap_second_adjustment)
build_rfc3339 _ fraction offset = none

unfoldable pub parse_rfc3339 : Text → Option ℤ
parse_rfc3339 str = elim (read_front front_pieces str) [
  | none ↦ none
  | some (values, behind) ↦ elim (read_fraction behind) [
    | none ↦ none
    | some (fraction, last) ↦ elim (read_offset last) [
      | none ↦ none
      | some offset ↦ build_rfc3339 values fraction offset
    ]
  ]
]

-- `date.toISOString()`, for the years 0 to 9999.
unfoldable pub to_rfc3339 : ℤ → Text
to_rfc3339 date =
    print_pieces front_pieces (
      get_year date
      ∷ (get_month date + 1)
      ∷ get_date date
      ∷ 0
      ∷ get_hours date
      ∷ get_minutes date
      ∷ get_seconds date
      ∷ [])
    ++ print_pieces (literal (codes ".") ∷ digits 3 ∷ literal (codes "Z") ∷ [])
        (millis date % 1000 ∷ [])
