-- ===== src/Datetime/Clock.antt =====
-- The `Date` of ECMAScript, as datetime.ts uses it: a time value, in milliseconds from 1970 on, with
-- `Date.UTC` and the UTC getters. Times in front of the year 0, which no reader of datetime.ts
-- makes, are counted as its start.
use http_rfc_utils.Common.{
  ℕ, zero, suc, ◌+◌, ◌-◌, ◌*◌, ◌/◌, ◌%◌, Bool, not, leb, ltb, ◌==◌, ◌&&◌, ◌||◌, if◌then◌else◌,
}
use http_rfc_utils.Common.Int.{ℤ, pos, negsuc}

-- From the start of the year 0 to 1970, in milliseconds.
abbrev pub epoch : ℕ
epoch = 62167219200000

-- The time value of the milliseconds from the start of the year 0 on, and back.
unfoldable pub time_value : ℕ → ℤ
time_value n = if leb epoch n then pos (n - epoch) else negsuc (epoch - n - 1)

unfoldable pub millis : ℤ → ℕ
millis (pos n) = epoch + n
millis (negsuc n) = epoch - suc n

abbrev pub ms_per_day : ℕ
ms_per_day = 86400000

unfoldable pub is_leap : ℕ → Bool
is_leap y = y % 4 == 0 && (not (y % 100 == 0) || y % 400 == 0)

-- The days of the years in front.
unfoldable pub days_before_year : ℕ → ℕ
days_before_year y = y * 365 + (y + 3) / 4 + (y + 399) / 400 - (y + 99) / 100

-- The days of the months in front, of a month from 0 on, in a year that is no leap year.
unfoldable pub month_start : ℕ → ℕ
month_start month =
    if month == 0
    then 0
    else if month == 1
    then 31
    else if month == 2
    then 59
    else if month == 3
    then 90
    else if month == 4
    then 120
    else if month == 5
    then 151
    else if month == 6
    then 181
    else if month == 7
    then 212
    else if month == 8
    then 243
    else if month == 9
    then 273
    else if month == 10
    then 304
    else if month == 11
    then 334
    else 365

unfoldable pub days_before_month : Bool → ℕ → ℕ
days_before_month leap month = month_start month + (if leap && ltb 1 month then 1 else 0)

-- `Date.UTC` of fields in their ranges, but for the day: a year below 100 is of the 20th century.
unfoldable pub full_year : ℕ → ℕ
full_year y = if leb y 99 then 1900 + y else y

unfoldable pub make_day : ℕ → ℕ → ℕ → ℕ
make_day year month day = days_before_year year + days_before_month (is_leap year) month + day - 1

unfoldable pub utc : ℕ → ℕ → ℕ → ℕ → ℕ → ℕ → ℕ → ℤ
utc year month day hours minutes seconds ms = time_value (
    make_day (full_year year) month day * ms_per_day
    + hours * 3600000
    + minutes * 60000
    + seconds * 1000
    + ms)

-- The last year from `y` on, among the next `f`, that begins no later than the day.
unfoldable pub year_from : ℕ → ℕ → ℕ → ℕ
year_from zero y day = y
year_from (suc f) y day =
    let later = year_from f (suc y) day in if leb (days_before_year (suc y)) day then later else y

-- `YearFromTime`: a year has 365 or 366 days.
unfoldable pub year_of : ℕ → ℕ
year_of day = year_from (suc (day / 365 - day / 366)) (day / 366) day

-- The last of the first so many months that begins no later than the day of its year.
unfoldable pub month_from : Bool → ℕ → ℕ → ℕ
month_from leap zero day = 0
month_from leap (suc m) day =
    let sooner = month_from leap m day in
    if leb (days_before_month leap (suc m)) day then suc m else sooner

unfoldable pub month_of : ℕ → ℕ
month_of day = month_from (is_leap (year_of day)) 11 (day - days_before_year (year_of day))

unfoldable pub date_of : ℕ → ℕ
date_of day = suc (
    day - days_before_year (year_of day) - days_before_month (is_leap (year_of day)) (month_of day))

abbrev pub day_of : ℤ → ℕ
day_of t = millis t / ms_per_day

unfoldable pub get_year : ℤ → ℕ
get_year t = year_of (day_of t)

unfoldable pub get_month : ℤ → ℕ
get_month t = month_of (day_of t)

unfoldable pub get_date : ℤ → ℕ
get_date t = date_of (day_of t)

unfoldable pub get_hours : ℤ → ℕ
get_hours t = millis t % ms_per_day / 3600000

unfoldable pub get_minutes : ℤ → ℕ
get_minutes t = millis t % 3600000 / 60000

unfoldable pub get_seconds : ℤ → ℕ
get_seconds t = millis t % 60000 / 1000

-- The first day of the year 0 is a Saturday.
unfoldable pub get_day : ℤ → ℕ
get_day t = (day_of t + 6) % 7
