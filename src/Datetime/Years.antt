-- ===== src/Datetime/Years.antt =====
-- `Date.UTC` of the fields of a time gives its whole second back.
use http_rfc_utils.Common.{
  ℕ, zero, suc, ◌+◌, ◌-◌, ◌*◌, ◌/◌, ◌%◌, ◌<◌, ◌≤◌, Bool, true, false, ◌≡◌, refl, sym, ap, ◌∙◌,
  arith, leb, Bool-cases, inl, inr, if◌then◌else◌,
}
use http_rfc_utils.Common.Int.{ℤ, pos, negsuc, floor_to, ◌≤ℤ◌}
use http_rfc_utils.Datetime.Clock.{
  epoch, time_value, millis, ms_per_day, is_leap, days_before_year, month_start, days_before_month,
  full_year, make_day, utc, year_from, year_of, month_from, month_of, date_of, day_of, get_year,
  get_month, get_date, get_hours, get_minutes, get_seconds,
}

pub days_before_year-suc :
    (y : ℕ) → days_before_year (suc y) ≡ days_before_year y + (if is_leap y then 366 else 365)
unfolding days_before_year is_leap
days_before_year-suc y = ground arith

days_before_year-bounds : (y : ℕ) → (y * 365 ≤ days_before_year y) × (days_before_year y ≤ y * 366)
unfolding days_before_year
days_before_year-bounds y = (omega arith, omega arith)

year_from-begins : (f y d : ℕ) → days_before_year y ≤ d → days_before_year (year_from f y d) ≤ d
unfolding year_from
year_from-begins zero y d h = h
year_from-begins (suc f) y d h = ground (arith, year_from-begins f (suc y) d)

year_from-ends :
    (f y e d : ℕ)
    → e ≡ y + suc f
    → d < days_before_year e
    → d < days_before_year (suc (year_from f y d))
unfolding year_from
year_from-ends zero y e d same h = let next : suc y ≡ e = omega arith in rw next h
year_from-ends (suc f) y e d same h = ground (arith, year_from-ends f (suc y) e d (omega arith) h)

-- The year of a day begins no later, and the next year later.
pub year_of-holds :
    (d : ℕ) → (days_before_year (year_of d) ≤ d) × (d < days_before_year (suc (year_of d)))
unfolding year_of
year_of-holds d = (
  year_from-begins (suc (d / 365 - d / 366)) (d / 366) d
      (omega (arith, days_before_year-bounds (d / 366))),
  year_from-ends (suc (d / 365 - d / 366)) (d / 366) (d / 366 + suc (suc (d / 365 - d / 366))) d
      refl (omega (arith, days_before_year-bounds (d / 366 + suc (suc (d / 365 - d / 366))))),
)

month_from-begins : (leap : Bool) (m d : ℕ) → days_before_month leap (month_from leap m d) ≤ d
unfolding month_from
month_from-begins leap zero d = unfold days_before_month month_start in ground arith
month_from-begins leap (suc m) d = ground (arith, month_from-begins leap m d)

month_from-ends :
    (leap : Bool) (m d : ℕ)
    → d < days_before_month leap (suc m)
    → (d < days_before_month leap (suc (month_from leap m d))) × (month_from leap m d ≤ m)
unfolding month_from
month_from-ends leap zero d h = (h, omega arith)
month_from-ends leap (suc m) d h = ground (arith, month_from-ends leap m d)

year_length : (leap : Bool) → days_before_month leap 12 ≡ (if leap then 366 else 365)
unfolding days_before_month month_start
year_length true = refl
year_length false = refl

-- The month of a day begins no later, the next month later, and there are twelve.
pub month_of-holds :
    (d : ℕ)
    → let leap = is_leap (year_of d) in
      let day = d - days_before_year (year_of d) in
      (days_before_month leap (month_of d) ≤ day)
      × (day < days_before_month leap (suc (month_of d)))
      × (month_of d ≤ 11)
unfolding month_of
month_of-holds d =
    let y = year_of d in
    let (below, above) = year_of-holds d in
    let fits : d - days_before_year y < days_before_month (is_leap y) 12 =
      rw (year_length (is_leap y)) (omega (arith, days_before_year-suc y)) in
    let (ends, few) = month_from-ends (is_leap y) 11 (d - days_before_year y) fits in
    (month_from-begins (is_leap y) 11 (d - days_before_year y), ends, few)

-- The day of the date that is read off a day.
pub make_day-date_of : (d : ℕ) → make_day (year_of d) (month_of d) (date_of d) ≡ d
unfolding make_day date_of
make_day-date_of d = omega (arith, year_of-holds d, month_of-holds d)

month_length :
    (leap : Bool) (m : ℕ) → m ≤ 11 → days_before_month leap (suc m) ≤ days_before_month leap m + 31
unfolding days_before_month month_start
month_length leap m h = ground arith

pub date_of-small : (d : ℕ) → date_of d ≤ 31
unfolding date_of
date_of-small d =
    let (_, ends, few) = month_of-holds d in
    omega (arith, ends, month_length (is_leap (year_of d)) (month_of d) few)

pub millis-time_value : (n : ℕ) → millis (time_value n) ≡ n
unfolding time_value millis
millis-time_value n = ground arith

pub time_value-millis : (t : ℤ) → negsuc (epoch - 1) ≤ℤ t → time_value (millis t) ≡ t
unfolding time_value millis
time_value-millis (pos n) h = ground arith
time_value-millis (negsuc n) h = ground arith

-- The whole second of a time that is not in front of the year 0.
time_value-floor :
    (t : ℤ) → negsuc (epoch - 1) ≤ℤ t → time_value (millis t / 1000 * 1000) ≡ floor_to 1000 t
unfolding time_value millis floor_to
time_value-floor (pos n) h = ground arith
time_value-floor (negsuc n) h = ground arith

pub utc-fields :
    (t : ℤ)
    → negsuc (epoch - 1) ≤ℤ t
    → 99 < get_year t
    → utc (get_year t) (get_month t) (get_date t) (get_hours t) (get_minutes t) (get_seconds t) 0
      ≡ floor_to 1000 t
unfolding utc get_year get_month get_date get_hours get_minutes get_seconds full_year
utc-fields t h y =
    let d = day_of t in
    let year : full_year (year_of d) ≡ year_of d = ground arith in
    rw (year, make_day-date_of d) (ap time_value (omega arith) ∙ time_value-floor t h)

-- `Date.UTC` of fields answers a whole second.
pub millis-floor_to :
    (t : ℤ) → negsuc (epoch - 1) ≤ℤ t → millis (floor_to 1000 t) ≡ millis t / 1000 * 1000
millis-floor_to t h =
    ap millis (sym (time_value-floor t h)) ∙ millis-time_value (millis t / 1000 * 1000)

time_value-not_before : (n : ℕ) → negsuc (epoch - 1) ≤ℤ time_value n
unfolding time_value
time_value-not_before n = ground arith

floor_to-time_value : (n : ℕ) → n % 1000 ≡ 0 → floor_to 1000 (time_value n) ≡ time_value n
unfolding time_value floor_to
floor_to-time_value n h = ground arith

pub utc-whole :
    (year month day hours minutes seconds : ℕ)
    → let t = utc year month day hours minutes seconds 0 in
      (negsuc (epoch - 1) ≤ℤ t) × (floor_to 1000 t ≡ t)
unfolding utc
utc-whole year month day hours minutes seconds =
    (time_value-not_before _, floor_to-time_value _ (omega arith))

-- No year below 100 is the year of what `Date.UTC` makes of it.
pub utc-year :
    (year month day hours minutes seconds : ℕ)
    → get_year (utc year month day hours minutes seconds 0) ≡ year
    → 99 < year
unfolding utc get_year
utc-year year month day hours minutes seconds h = elim (Bool-cases (leb year 99)) [
  | inr large ↦ ground (arith, large)
  | inl small ↦
      let later : full_year year ≡ 1900 + year = unfold full_year in ground (arith, small) in
      let few : year ≤ 99 = ground (arith, small) in
      let d = make_day (full_year year) month day in
      let begins : 1900 * 365 ≤ d + 1 =
        unfold make_day in omega (arith, later, days_before_year-bounds (full_year year)) in
      let n = d * ms_per_day + hours * 3600000 + minutes * 60000 + seconds * 1000 + 0 in
      absurd (
        omega (
          arith,
          few,
          begins,
          h,
          millis-time_value n,
          year_of-holds (day_of (time_value n)),
          days_before_year-bounds (suc (year_of (day_of (time_value n)))),
        ))
]
