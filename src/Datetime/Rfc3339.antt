-- ===== src/Datetime/Rfc3339.antt =====
-- An RFC 3339 timestamp is read as the time that it was written of.
use http_rfc_utils.Common.{
  ℕ, zero, suc, ◌+◌, ◌-◌, ◌%◌, ◌<◌, ◌≤◌, Bool, true, false, ◌||◌, [], ◌∷◌, ◌++◌, some, none, ◌≡◌,
  refl, ap, ◌∙◌, arith, if◌then◌else◌, ◌==◌,
}
use http_rfc_utils.Common.Int.{ℤ}
use http_rfc_utils.Text.{Text, codes, is_digit, digits_value}
use http_rfc_utils.Text.Spans.{span-append}
use http_rfc_utils.Datetime.Clock.{
  utc, millis, time_value, full_year, is_leap, month_start, days_before_month, year_of, month_of,
  date_of, day_of, get_year, get_month, get_date, get_hours, get_minutes, get_seconds,
}
use http_rfc_utils.Datetime.Pieces.{print_digits, print_pieces, read_front, read_one_of, unit_at}
use http_rfc_utils.Datetime.Reading.{Fits, AllTables, IsChoice, read_front-print_pieces}
use http_rfc_utils.Datetime.Years.{month_of-holds, make_day-date_of, time_value-millis}
use http_rfc_utils.Datetime.HttpDate.{IsHttpTime, clock_small}
use http_rfc_utils.Datetime.Timestamp.{
  is_leap_year, get_days_in_month, is_valid_date_parts, parse_fractional_milliseconds, front_pieces,
  read_fraction, read_offset, apply_offset, build_rfc3339, parse_rfc3339, to_rfc3339,
}

separator-IsChoice : IsChoice (codes "Tt ")
unfolding IsChoice read_one_of unit_at
separator-IsChoice zero rest h = refl
separator-IsChoice (suc zero) rest h = refl
separator-IsChoice (suc (suc zero)) rest h = refl
separator-IsChoice (suc (suc (suc v))) rest h = absurd (omega arith)

three_digits-read :
    (ms : ℕ)
    → ms < 1000
    → (read_fraction (b'.' ∷ print_digits 3 ms ++ b'Z' ∷ []) ≡ some (print_digits 3 ms, b'Z' ∷ []))
      × (parse_fractional_milliseconds (print_digits 3 ms) ≡ ms)
unfolding read_fraction print_digits
three_digits-read ms h = (
  rw
      (span-append is_digit (print_digits 3 ms) (b'Z' ∷ []) (unfold is_digit in ground arith)
        (unfold is_digit in refl))
      refl,
  unfold parse_fractional_milliseconds digits_value in omega arith,
)

is_leap-is_leap_year : (y : ℕ) → is_leap y ≡ is_leap_year y
unfolding is_leap is_leap_year
is_leap-is_leap_year y = ground arith

length_in : Bool → ℕ → ℕ
length_in leap month =
    if month == 2
    then if leap then 29 else 28
    else if month == 4 || month == 6 || month == 9 || month == 11
    then 30
    else 31

month_length_in :
    (leap : Bool) (m : ℕ)
    → m ≤ 11
    → days_before_month leap (suc m) ≡ days_before_month leap m + length_in leap (m + 1)
unfolding days_before_month month_start length_in
month_length_in true m h = ground arith
month_length_in false m h = ground arith

month_length :
    (y m : ℕ)
    → m ≤ 11
    → days_before_month (is_leap y) (suc m)
      ≡ days_before_month (is_leap y) m + get_days_in_month y (m + 1)
unfolding get_days_in_month length_in
month_length y m h = rw (is_leap-is_leap_year y) (month_length_in (is_leap_year y) m h)

-- The fields of a time make a valid date.
fields_valid :
    (t : ℤ)
    → get_year t < 10000
    → is_valid_date_parts (get_year t) (get_month t + 1) (get_date t) ≡ true
unfolding is_valid_date_parts get_year get_month get_date date_of
fields_valid t h =
    let d = day_of t in
    let (begins, ends, few) = month_of-holds d in
    ground (arith, begins, ends, few, month_length (year_of d) (month_of d) few)

utc-all_fields :
    (t : ℤ)
    → IsHttpTime t
    → utc
        (get_year t)
        (get_month t)
        (get_date t)
        (get_hours t)
        (get_minutes t)
        (get_seconds t)
        (millis t % 1000)
      ≡ t
unfolding utc get_year get_month get_date get_hours get_minutes get_seconds
utc-all_fields t h =
    let d = day_of t in
    let year : full_year (year_of d) ≡ year_of d =
      unfold full_year get_year in ground (arith, h.year_in) in
    rw (year, make_day-date_of d) (ap time_value (omega arith) ∙ time_value-millis t h.not_before)

-- Fields in their ranges, without an offset and with no leap second.
build_rfc3339-valid :
    (year month day separator hours minutes seconds : ℕ) (fraction : Text)
    → is_valid_date_parts year (month + 1) day ≡ true
    → hours < 24
    → minutes < 60
    → seconds < 60
    → build_rfc3339
        (year ∷ (month + 1) ∷ day ∷ separator ∷ hours ∷ minutes ∷ seconds ∷ [])
        fraction
        none
      ≡ some (
          time_value (
            millis
              (utc year month day hours minutes seconds (parse_fractional_milliseconds fraction))
            + 0))
unfolding build_rfc3339 apply_offset
build_rfc3339-valid year month day separator hours minutes seconds fraction valid h m s =
    let same : month + 1 - 1 ≡ month = omega arith in rw same (ground (arith, valid))

-- A timestamp that is written of a time of a year from 100 to 9999 is read as that time, to the
-- millisecond.
pub parse_rfc3339-to_rfc3339 : (t : ℤ) → IsHttpTime t → parse_rfc3339 (to_rfc3339 t) ≡ some t
unfolding to_rfc3339 parse_rfc3339 read_offset
parse_rfc3339-to_rfc3339 t h =
    let vs =
      get_year t
      ∷ (get_month t + 1)
      ∷ get_date t
      ∷ 0
      ∷ get_hours t
      ∷ get_minutes t
      ∷ get_seconds t
      ∷ [] in
    let ms = millis t % 1000 in
    let (fraction, value) = three_digits-read ms (omega arith) in
    let small = clock_small t in
    let tables : AllTables front_pieces = unfold AllTables in (separator-IsChoice, tt) in
    let fits : Fits front_pieces vs = unfold Fits in ground (arith, small, h.year_in) in
    let read : read_front front_pieces (to_rfc3339 t)
        ≡ some (vs, b'.' ∷ print_digits 3 ms ++ b'Z' ∷ []) =
      unfold print_pieces in
      read_front-print_pieces front_pieces vs (b'.' ∷ print_digits 3 ms ++ b'Z' ∷ []) tables fits in
    let built : build_rfc3339 vs (print_digits 3 ms) none ≡ some t =
      build_rfc3339-valid (get_year t) (get_month t) (get_date t) 0 (get_hours t) (get_minutes t)
        (get_seconds t) (print_digits 3 ms) (fields_valid t h.year_in.1) (omega (arith, small))
        (omega (arith, small)) (omega (arith, small))
      ∙ rw (value, utc-all_fields t h)
          (ap some (ap time_value (omega arith) ∙ time_value-millis t h.not_before)) in
    rw (parse_rfc3339, read, fraction) built
