-- ===== src/Datetime/Obsolete.antt =====
-- The two obsolete forms of HTTP dates are read as the time that they spell.
use http_rfc_utils.Common.{
  ℕ, zero, suc, ◌+◌, ◌%◌, ◌<◌, ◌≤◌, [], ◌∷◌, ◌++◌, some, none, ◌≡◌, refl, arith,
}
use http_rfc_utils.Common.Int.{ℤ, floor_to}
use http_rfc_utils.Text.{Text, strip_prefix}
use http_rfc_utils.Datetime.{
  day_names, full_day_names, imf_pieces, rfc850_pieces, asctime_pieces, build_imf, build_rfc850,
  build_asctime, resolve_rfc850_year, parse_http_date, format_http_date,
}
use http_rfc_utils.Datetime.Clock.{
  get_year, get_month, get_date, get_hours, get_minutes, get_seconds, get_day,
}
use http_rfc_utils.Datetime.Pieces.{
  read_piece, read_front, read_pieces, print_pieces, read_name, name_at,
}
use http_rfc_utils.Datetime.Reading.{IsTable, Fits, AllTables, read_pieces-print_pieces}
use http_rfc_utils.Datetime.HttpDate.{
  IsHttpTime, day-IsTable, month-IsTable, clock_small, build_imf-fields_of,
  parse_http_date-format_http_date,
}

-- `Sun Nov  6 08:49:37 1994`
unfoldable pub asctime_text : ℤ → Text
asctime_text t = print_pieces asctime_pieces (
    get_day t
    ∷ get_month t
    ∷ get_date t
    ∷ get_hours t
    ∷ get_minutes t
    ∷ get_seconds t
    ∷ get_year t
    ∷ [])

-- `Sunday, 06-Nov-94 08:49:37 GMT`
unfoldable pub rfc850_text : ℤ → Text
rfc850_text t = print_pieces rfc850_pieces (
    get_day t
    ∷ get_date t
    ∷ get_month t
    ∷ get_year t % 100
    ∷ get_hours t
    ∷ get_minutes t
    ∷ get_seconds t
    ∷ [])

full_day-IsTable : IsTable full_day_names
unfolding IsTable read_name name_at strip_prefix
full_day-IsTable zero rest h = refl
full_day-IsTable (suc zero) rest h = refl
full_day-IsTable (suc (suc zero)) rest h = refl
full_day-IsTable (suc (suc (suc zero))) rest h = refl
full_day-IsTable (suc (suc (suc (suc zero)))) rest h = refl
full_day-IsTable (suc (suc (suc (suc (suc zero))))) rest h = refl
full_day-IsTable (suc (suc (suc (suc (suc (suc zero)))))) rest h = refl
full_day-IsTable (suc (suc (suc (suc (suc (suc (suc v))))))) rest h = absurd (omega arith)

-- The forms differ behind the third letter of the day.
asctime_only :
    (d : ℕ) (s : Text)
    → d < 7
    → (read_pieces imf_pieces (name_at day_names d ++ b' ' ∷ s) ≡ none)
      × (read_pieces rfc850_pieces (name_at day_names d ++ b' ' ∷ s) ≡ none)
unfolding read_pieces read_front read_piece read_name name_at strip_prefix
asctime_only zero s h = (refl, refl)
asctime_only (suc zero) s h = (refl, refl)
asctime_only (suc (suc zero)) s h = (refl, refl)
asctime_only (suc (suc (suc zero))) s h = (refl, refl)
asctime_only (suc (suc (suc (suc zero)))) s h = (refl, refl)
asctime_only (suc (suc (suc (suc (suc zero))))) s h = (refl, refl)
asctime_only (suc (suc (suc (suc (suc (suc zero)))))) s h = (refl, refl)
asctime_only (suc (suc (suc (suc (suc (suc (suc v))))))) s h = absurd (omega arith)

rfc850_only :
    (d : ℕ) (s : Text) → d < 7 → read_pieces imf_pieces (name_at full_day_names d ++ s) ≡ none
unfolding read_pieces read_front read_piece read_name name_at strip_prefix
rfc850_only zero s h = refl
rfc850_only (suc zero) s h = refl
rfc850_only (suc (suc zero)) s h = refl
rfc850_only (suc (suc (suc zero))) s h = refl
rfc850_only (suc (suc (suc (suc zero)))) s h = refl
rfc850_only (suc (suc (suc (suc (suc zero))))) s h = refl
rfc850_only (suc (suc (suc (suc (suc (suc zero)))))) s h = refl
rfc850_only (suc (suc (suc (suc (suc (suc (suc v))))))) s h = absurd (omega arith)

parse_http_date-asctime_text :
    (current_year : ℕ) (t : ℤ)
    → IsHttpTime t
    → parse_http_date current_year (asctime_text t) ≡ some (floor_to 1000 t)
unfolding parse_http_date asctime_text
parse_http_date-asctime_text current_year t h =
    let vs =
      get_day t
      ∷ get_month t
      ∷ get_date t
      ∷ get_hours t
      ∷ get_minutes t
      ∷ get_seconds t
      ∷ get_year t
      ∷ [] in
    let read : read_pieces asctime_pieces (print_pieces asctime_pieces vs) ≡ some vs =
      read_pieces-print_pieces asctime_pieces vs
        (unfold AllTables in (day-IsTable, (month-IsTable, tt)))
        (unfold Fits in ground (arith, clock_small t, h.year_in)) in
    let others : (read_pieces imf_pieces (print_pieces asctime_pieces vs) ≡ none)
        × (read_pieces rfc850_pieces (print_pieces asctime_pieces vs) ≡ none) =
      unfold print_pieces in asctime_only (get_day t) _ (clock_small t).0 in
    let built : build_asctime vs ≡ some (floor_to 1000 t) =
      unfold build_asctime build_imf in build_imf-fields_of t h in
    rw (parse_http_date, others.0, others.1, read) built

parse_http_date-rfc850_text :
    (current_year : ℕ) (t : ℤ)
    → IsHttpTime t
    → resolve_rfc850_year (get_year t % 100) current_year ≡ get_year t
    → parse_http_date current_year (rfc850_text t) ≡ some (floor_to 1000 t)
unfolding parse_http_date rfc850_text
parse_http_date-rfc850_text current_year t h year =
    let vs =
      get_day t
      ∷ get_date t
      ∷ get_month t
      ∷ get_year t % 100
      ∷ get_hours t
      ∷ get_minutes t
      ∷ get_seconds t
      ∷ [] in
    let read : read_pieces rfc850_pieces (print_pieces rfc850_pieces vs) ≡ some vs =
      read_pieces-print_pieces rfc850_pieces vs
        (unfold AllTables in (full_day-IsTable, (month-IsTable, tt)))
        (unfold Fits in ground (arith, clock_small t)) in
    let other : read_pieces imf_pieces (print_pieces rfc850_pieces vs) ≡ none =
      unfold print_pieces in rfc850_only (get_day t) _ (clock_small t).0 in
    let built : build_rfc850 current_year vs ≡ some (floor_to 1000 t) =
      unfold build_rfc850 build_imf in rw year (build_imf-fields_of t h) in
    rw (parse_http_date, other, read) built

-- With the current year in the first half of its century, two digits stand for the year from 49
-- years back to 50 years ahead.
pub resolve_rfc850_year-window :
    (year current_year : ℕ)
    → current_year % 100 < 50
    → current_year < year + 50
    → year ≤ current_year + 50
    → resolve_rfc850_year (year % 100) current_year ≡ year
unfolding resolve_rfc850_year
resolve_rfc850_year-window year current_year h lo hi = ground arith

-- The three forms of an HTTP date are read as one and the same whole second: the obsolete one with
-- two digits of the year, if the current year is in the first half of its century and the year is
-- from 49 years back to 50 years ahead.
pub parse_http_date_forms :
    (current_year : ℕ) (t : ℤ)
    → IsHttpTime t
    → current_year % 100 < 50
    → current_year < get_year t + 50
    → get_year t ≤ current_year + 50
    → (parse_http_date current_year (format_http_date t) ≡ some (floor_to 1000 t))
      × (parse_http_date current_year (rfc850_text t) ≡ some (floor_to 1000 t))
      × (parse_http_date current_year (asctime_text t) ≡ some (floor_to 1000 t))
parse_http_date_forms current_year t h early lo hi = (
  parse_http_date-format_http_date current_year t h,
  parse_http_date-rfc850_text current_year t h
      (resolve_rfc850_year-window (get_year t) current_year early lo hi),
  parse_http_date-asctime_text current_year t h,
)
