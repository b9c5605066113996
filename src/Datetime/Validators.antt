-- ===== src/Datetime/Validators.antt =====
-- The dates that the server sends come back in conditional and range requests: datetime.ts behind
-- conditional.ts and range.ts.
use http_rfc_utils.Common.{
  ℕ, zero, suc, ◌<◌, ◌++◌, true, false, Option, some, none, ◌≡◌, ◌↔◌, ◌≢◌, Bool, List, ◌∙◌,
  Bool-cases, inl, inr, refl, arith, is_empty,
}
use http_rfc_utils.Common.Int.{ℤ, pos, negsuc, leb_ℤ, floor_to}
use http_rfc_utils.Common.Results.{ok}
use http_rfc_utils.Text.{Text, codes, text_eq, trim, is_space}
use http_rfc_utils.Text.Trim.{trim-not_empty}
use http_rfc_utils.Datetime.Clock.{get_day}
use http_rfc_utils.Datetime.Pieces.{name_at, print_pieces}
use http_rfc_utils.Etag.{ETag}
use http_rfc_utils.Conditional.{
  Request, Headers, is_safe_method, to_whole_second_precision, evaluate_if_modified_since,
  not_modified, stop, check_modified_since, check_none_match, evaluate_preconditions,
}
use http_rfc_utils.Conditional.Stops.{Formats, stop_headers, stop_with-Formats}
use http_rfc_utils.Range.{
  RawRange, RangeRequest, RangeDecision, Span, ignored, partial, parse_range, normalize_ranges,
  upper_case, dates_match, match_tag_or_date, if_range_matches, if_range_holds, partial_headers,
  evaluate_range,
}
use http_rfc_utils.Range.Coverage.{Asked}
use http_rfc_utils.Range.Evaluate.{decide_ranges-Asked, evaluate_range-holds, evaluate_range-fails}
use http_rfc_utils.Datetime.{day_names, parse_http_date, format_http_date}
use http_rfc_utils.Datetime.HttpDate.{IsHttpTime, clock_small, parse_http_date-format_http_date}

floor_to_twice : (t : ℤ) → floor_to 1000 (floor_to 1000 t) ≡ floor_to 1000 t
unfolding floor_to
floor_to_twice (pos n) = ground arith
floor_to_twice (negsuc n) = ground arith

leb_ℤ_refl : (t : ℤ) → leb_ℤ t t ≡ true
leb_ℤ_refl (pos n) = ground arith
leb_ℤ_refl (negsuc n) = ground arith

-- The date of Last-Modified is no modification since itself.
evaluate_if_modified_since-format :
    (current_year : ℕ) (t : ℤ)
    → IsHttpTime t
    → evaluate_if_modified_since (parse_http_date current_year) (format_http_date t) (some t) ≡ true
unfolding evaluate_if_modified_since to_whole_second_precision
evaluate_if_modified_since-format current_year t h =
    rw
      (
        evaluate_if_modified_since,
        parse_http_date-format_http_date current_year t h,
        floor_to_twice t,
      )
      (leb_ℤ_refl (floor_to 1000 t))

-- For a modification time of a year from 100 to 9999: a client that sends its Last-Modified back as
-- If-Modified-Since, on GET or HEAD and with no other precondition, is answered 304 where the
-- current tag, if there is one, is one that `formatETag` takes: with that tag and the same date as
-- headers, next to the default ones.
pub evaluate_preconditions-format_http_date :
    (current_year : ℕ) (t : ℤ) (r : Request) (current : Option ETag)
    → IsHttpTime t
    → Formats current
    → r.if_match ≡ none
    → r.if_unmodified_since ≡ none
    → r.if_none_match ≡ none
    → is_safe_method r.method ≡ true
    → r.if_modified_since ≡ some (format_http_date t)
    → evaluate_preconditions (parse_http_date current_year) format_http_date r current (some t)
      ≡ ok (stop not_modified (stop_headers format_http_date current t))
unfolding evaluate_preconditions check_none_match check_modified_since
evaluate_preconditions-format_http_date current_year t r current h v m u n safe since =
    rw
      (
        evaluate_preconditions,
        m,
        u,
        check_none_match,
        n,
        check_modified_since,
        since,
        n,
        safe,
        evaluate_if_modified_since-format current_year t h,
      )
      (stop_with-Formats (parse_http_date current_year) format_http_date not_modified current t v)

floor_to-below : (t : ℤ) → (leb_ℤ t (floor_to 1000 t) ≡ true) ↔ (floor_to 1000 t ≡ t)
unfolding floor_to
floor_to-below (pos n) = ground arith
floor_to-below (negsuc n) = ground arith

day_name-solid :
    (d : ℕ) (s : Text)
    → d < 7
    → (is_empty (name_at day_names d ++ s) ≡ false)
      × (is_empty (trim (name_at day_names d ++ s)) ≡ false)
unfolding name_at is_space
day_name-solid zero s h = (refl, trim-not_empty _ _ refl)
day_name-solid (suc zero) s h = (refl, trim-not_empty _ _ refl)
day_name-solid (suc (suc zero)) s h = (refl, trim-not_empty _ _ refl)
day_name-solid (suc (suc (suc zero))) s h = (refl, trim-not_empty _ _ refl)
day_name-solid (suc (suc (suc (suc zero)))) s h = (refl, trim-not_empty _ _ refl)
day_name-solid (suc (suc (suc (suc (suc zero))))) s h = (refl, trim-not_empty _ _ refl)
day_name-solid (suc (suc (suc (suc (suc (suc zero)))))) s h = (refl, trim-not_empty _ _ refl)
day_name-solid (suc (suc (suc (suc (suc (suc (suc d))))))) s h = absurd (omega arith)

format_http_date-solid :
    (t : ℤ)
    → (is_empty (format_http_date t) ≡ false) × (is_empty (trim (format_http_date t)) ≡ false)
unfolding format_http_date print_pieces
format_http_date-solid t = day_name-solid (get_day t) _ (clock_small t).0

-- The test of If-Range keeps the milliseconds that the header has lost.
if_range_holds-format_http_date :
    (current_year : ℕ) (t : ℤ)
    → IsHttpTime t
    → (if_range_holds (parse_http_date current_year) (some (format_http_date t)) none (some t)
        ≡ true)
      ↔ (floor_to 1000 t ≡ t)
unfolding if_range_holds if_range_matches match_tag_or_date dates_match
if_range_holds-format_http_date current_year t h =
    let (full, solid) = format_http_date-solid t in
    rw (full, solid, parse_http_date-format_http_date current_year t h) (floor_to-below t)

partial-ne-ignored :
    {answer : RangeDecision} {spans : List Span} {headers : Headers}
    → answer ≡ partial spans headers
    → answer ≢ ignored
partial-ne-ignored h k = ground arith

true-ne-false : {b : Bool} → b ≡ true → b ≢ false
true-ne-false h k = ground arith

-- For a modification time of a year from 100 to 9999: a GET request for ranges that select some
-- byte of the representation, with the Last-Modified of that time as If-Range, where the server has
-- no entity tag, is answered with the bytes asked for exactly if the time is a whole second, and with
-- the whole representation, its range ignored, exactly if the time has milliseconds.
pub evaluate_range-format_http_date :
    (current_year : ℕ) (t : ℤ) (r : RangeRequest) (header : Text) (parsed : List RawRange)
    (size b : ℕ)
    → IsHttpTime t
    → text_eq (upper_case r.method) (codes "GET") ≡ true
    → r.range ≡ some header
    → parse_range header ≡ some parsed
    → Asked size parsed b
    → r.if_range ≡ some (format_http_date t)
    → let answer = evaluate_range (parse_http_date current_year) r size none (some t) in
      let spans = normalize_ranges parsed size in
      ((answer ≡ partial spans (partial_headers spans size)) ↔ (floor_to 1000 t ≡ t))
      × ((answer ≡ ignored) ↔ (floor_to 1000 t ≢ t))
evaluate_range-format_http_date current_year t r header parsed size b h get given read asked sent =
    let (to, from) = if_range_holds-format_http_date current_year t h in
    let reader = parse_http_date current_year in
    elim (Bool-cases (if_range_holds reader (some (format_http_date t)) none (some t))) [
      | inl holds ↦
          let served =
            evaluate_range-holds reader r header parsed size none (some t) get given read
              (rw sent holds)
            ∙ decide_ranges-Asked parsed size b asked in
          (
            (λ _. to holds, λ _. served),
            (λ e. absurd (partial-ne-ignored served e), λ part. absurd (part (to holds))),
          )
      | inr fails ↦
          let whole_sent =
            evaluate_range-fails reader r header parsed size none (some t) get given read
              (rw sent fails) in
          let part : floor_to 1000 t ≢ t = (λ whole. absurd (true-ne-false (from whole) fails)) in
          (
            (λ e. absurd (partial-ne-ignored e whole_sent), λ whole. absurd (part whole)),
            (λ _. part, λ _. whole_sent),
          )
    ]
