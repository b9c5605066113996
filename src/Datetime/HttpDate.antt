-- ===== src/Datetime/HttpDate.antt =====
-- HTTP dates: what is written of a time is read as its whole second, and an IMF-fixdate is read just
-- if it is what is written of the time it is read as.
use http_rfc_utils.Common.{
  ℕ, zero, suc, ◌+◌, ◌-◌, ◌%◌, ◌<◌, List, [], ◌∷◌, some, ◌≡◌, ◌↔◌, refl, sym, ap, ◌∙◌, arith,
}
use http_rfc_utils.Common.Int.{ℤ, negsuc, floor_to, ◌≤ℤ◌}
use http_rfc_utils.Text.{Text, strip_prefix}
use http_rfc_utils.Datetime.{
  day_names, month_names, imf_pieces, build_imf, build_validated_http_date, parse_http_date,
  format_http_date,
}
use http_rfc_utils.Datetime.Clock.{
  epoch, utc, get_year, get_month, get_date, get_hours, get_minutes, get_seconds, get_day, day_of,
  date_of, month_of, year_of,
}
use http_rfc_utils.Datetime.Pieces.{read_pieces, print_pieces, read_name, name_at}
use http_rfc_utils.Datetime.Reading.{
  IsTable, Fits, AllTables, Exact, read_pieces-print_pieces, print_pieces-read_pieces,
}
use http_rfc_utils.Datetime.Years.{
  utc-fields, utc-whole, utc-year, millis-floor_to, month_of-holds, date_of-small,
}

-- A time of a year that `Date.UTC` takes as it is, with at most four digits.
pub record IsHttpTime (t : ℤ) : Type 0 where
  pub not_before : negsuc (epoch - 1) ≤ℤ t
  pub year_in : (99 < get_year t) × (get_year t < 10000)

pub day-IsTable : IsTable day_names
unfolding IsTable read_name name_at strip_prefix
day-IsTable zero rest h = refl
day-IsTable (suc zero) rest h = refl
day-IsTable (suc (suc zero)) rest h = refl
day-IsTable (suc (suc (suc zero))) rest h = refl
day-IsTable (suc (suc (suc (suc zero)))) rest h = refl
day-IsTable (suc (suc (suc (suc (suc zero))))) rest h = refl
day-IsTable (suc (suc (suc (suc (suc (suc zero)))))) rest h = refl
day-IsTable (suc (suc (suc (suc (suc (suc (suc v))))))) rest h = absurd (omega arith)

pub month-IsTable : IsTable month_names
unfolding IsTable read_name name_at strip_prefix
month-IsTable zero rest h = refl
month-IsTable (suc zero) rest h = refl
month-IsTable (suc (suc zero)) rest h = refl
month-IsTable (suc (suc (suc zero))) rest h = refl
month-IsTable (suc (suc (suc (suc zero)))) rest h = refl
month-IsTable (suc (suc (suc (suc (suc zero))))) rest h = refl
month-IsTable (suc (suc (suc (suc (suc (suc zero)))))) rest h = refl
month-IsTable (suc (suc (suc (suc (suc (suc (suc zero))))))) rest h = refl
month-IsTable (suc (suc (suc (suc (suc (suc (suc (suc zero)))))))) rest h = refl
month-IsTable (suc (suc (suc (suc (suc (suc (suc (suc (suc zero))))))))) rest h = refl
month-IsTable (suc (suc (suc (suc (suc (suc (suc (suc (suc (suc zero)))))))))) rest h = refl
month-IsTable (suc (suc (suc (suc (suc (suc (suc (suc (suc (suc (suc zero))))))))))) rest h = refl
month-IsTable (suc (suc (suc (suc (suc (suc (suc (suc (suc (suc (suc (suc v)))))))))))) rest h =
    absurd (omega arith)

abbrev pub fields_of : ℤ → List ℕ
fields_of t =
    get_day t
    ∷ get_date t
    ∷ get_month t
    ∷ get_year t
    ∷ get_hours t
    ∷ get_minutes t
    ∷ get_seconds t
    ∷ []

pub clock_small :
    (t : ℤ)
    → (get_day t < 7)
      × (get_date t < 100)
      × (get_month t < 12)
      × (get_hours t < 24)
      × (get_minutes t < 60)
      × (get_seconds t < 60)
unfolding get_day get_date get_month get_hours get_minutes get_seconds
clock_small t = (
  omega arith,
  omega (arith, date_of-small (day_of t)),
  omega (arith, (month_of-holds (day_of t)).2),
  omega arith,
  omega arith,
  omega arith,
)

pub fields_of-Fits : (t : ℤ) → get_year t < 10000 → Fits imf_pieces (fields_of t)
unfolding Fits
fields_of-Fits t h = ground (arith, clock_small t)

-- The getters do not see the milliseconds.
pub floor_to-fields :
    (t : ℤ)
    → negsuc (epoch - 1) ≤ℤ t
    → (get_day (floor_to 1000 t) ≡ get_day t)
      × (get_date (floor_to 1000 t) ≡ get_date t)
      × (get_month (floor_to 1000 t) ≡ get_month t)
      × (get_year (floor_to 1000 t) ≡ get_year t)
      × (get_hours (floor_to 1000 t) ≡ get_hours t)
      × (get_minutes (floor_to 1000 t) ≡ get_minutes t)
      × (get_seconds (floor_to 1000 t) ≡ get_seconds t)
unfolding get_day get_date get_month get_year get_hours get_minutes get_seconds
floor_to-fields t h =
    let whole = millis-floor_to t h in
    let day : day_of (floor_to 1000 t) ≡ day_of t = omega (arith, whole) in
    (
      ap (λ d. (d + 6) % 7) day,
      ap date_of day,
      ap month_of day,
      ap year_of day,
      omega (arith, whole),
      omega (arith, whole),
      omega (arith, whole),
    )

pub build_imf-fields_of : (t : ℤ) → IsHttpTime t → build_imf (fields_of t) ≡ some (floor_to 1000 t)
unfolding build_imf build_validated_http_date
build_imf-fields_of t h =
    ground
      (arith, clock_small t, floor_to-fields t h.not_before, utc-fields t h.not_before h.year_in.0)

-- What is written of a time is read as its whole second, whatever the current year.
pub parse_http_date-format_http_date :
    (current_year : ℕ) (t : ℤ)
    → IsHttpTime t
    → parse_http_date current_year (format_http_date t) ≡ some (floor_to 1000 t)
unfolding parse_http_date format_http_date
parse_http_date-format_http_date current_year t h =
    rw
      (
        parse_http_date,
        read_pieces-print_pieces imf_pieces (fields_of t)
            (unfold AllTables in (day-IsTable, (month-IsTable, tt))) (fields_of-Fits t h.year_in.1),
      )
      (build_imf-fields_of t h)

-- A date that is built is a whole second with the fields that were asked for.
build_validated_http_date-holds :
    (year month day hours minutes seconds weekday : ℕ) (t : ℤ)
    → build_validated_http_date year month day hours minutes seconds weekday ≡ some t
    → (negsuc (epoch - 1) ≤ℤ t)
      × (99 < year)
      × (floor_to 1000 t ≡ t)
      × (fields_of t ≡ weekday ∷ day ∷ month ∷ year ∷ hours ∷ minutes ∷ seconds ∷ [])
unfolding build_validated_http_date
build_validated_http_date-holds year month day hours minutes seconds weekday t h =
    let made : utc year month day hours minutes seconds 0 ≡ t = ground arith in
    let (after, whole) = utc-whole year month day hours minutes seconds in
    rw (← made)
      (after, utc-year year month day hours minutes seconds (ground arith), whole, ground arith)

-- The time of a date that is built of a year with four digits.
built_time :
    (year month day hours minutes seconds weekday : ℕ) (t : ℤ)
    → build_validated_http_date year month day hours minutes seconds weekday ≡ some t
    → year < 10000
    → IsHttpTime t × (floor_to 1000 t ≡ t)
built_time year month day hours minutes seconds weekday t h small =
    let (after, large, whole, fields) =
      build_validated_http_date-holds year month day hours minutes seconds weekday t h in
    let same : get_year t ≡ year = ground (arith, fields) in
    (
      record { not_before = after; year_in = (omega (arith, same, large), omega (arith, same)) },
      whole,
    )

build_imf-holds :
    (vs : List ℕ) (t : ℤ)
    → build_imf vs ≡ some t
    → Fits imf_pieces vs
    → IsHttpTime t × (floor_to 1000 t ≡ t) × (fields_of t ≡ vs)
unfolding build_imf Fits
build_imf-holds (w ∷ d ∷ m ∷ y ∷ h ∷ mi ∷ s ∷ []) t b (_, (_, (_, (small, _)))) =
    let (_, _, _, fields) = build_validated_http_date-holds y m d h mi s w t b in
    let (time, whole) = built_time y m d h mi s w t b small in (time, whole, fields)
build_imf-holds [] t b f = absurd f
build_imf-holds (w ∷ []) t b f = absurd (ground arith)
build_imf-holds (w ∷ d ∷ []) t b f = absurd (ground arith)
build_imf-holds (w ∷ d ∷ m ∷ []) t b f = absurd (ground arith)
build_imf-holds (w ∷ d ∷ m ∷ y ∷ []) t b f = absurd (ground arith)
build_imf-holds (w ∷ d ∷ m ∷ y ∷ h ∷ []) t b f = absurd (ground arith)
build_imf-holds (w ∷ d ∷ m ∷ y ∷ h ∷ mi ∷ []) t b f = absurd (ground arith)
build_imf-holds (w ∷ d ∷ m ∷ y ∷ h ∷ mi ∷ s ∷ x ∷ vs) t b f = absurd (ground arith)

-- A text in the form of an IMF-fixdate is read as a time just if it is what is written of that time,
-- which is a whole second of a year from 100 to 9999.
pub parse_http_date_iff :
    (current_year : ℕ) (s : Text) (vs : List ℕ) (t : ℤ)
    → read_pieces imf_pieces s ≡ some vs
    → (parse_http_date current_year s ≡ some t)
      ↔ (IsHttpTime t × (floor_to 1000 t ≡ t) × (format_http_date t ≡ s))
unfolding parse_http_date format_http_date
parse_http_date_iff current_year s vs t h =
    let (fits, text) = print_pieces-read_pieces imf_pieces vs s (unfold Exact in tt) h in
    let read : parse_http_date current_year s ≡ build_imf vs = rw (parse_http_date, h) refl in
    (
      λ built.
          let (time, whole, fields) = build_imf-holds vs t (sym read ∙ built) fits in
          (time, whole, ap (print_pieces imf_pieces) fields ∙ text),
      λ (time, whole, written).
          ap (parse_http_date current_year) (sym written)
          ∙ parse_http_date-format_http_date current_year t time
          ∙ ap some whole,
    )
