-- ===== src/Range/Evaluate.antt =====
-- What `evaluateRange` decides, in terms of the bytes that are asked for.
use http_rfc_utils.Common.{
  ℕ, ◌<◌, true, false, List, [], ◌∷◌, Option, some, ◌≡◌, ◌↔◌, refl, arith, is_empty, Bool-cases,
  Option-cases, inl, inr,
}
use http_rfc_utils.Common.Int.{ℤ}
use http_rfc_utils.Text.{Text, trim, trim_start, trim_end, codes, text_eq}
use http_rfc_utils.Range.{
  RawRange, suffix, open_ended, closed, Span, parse_range, strip_prefix_ci, normalize_ranges,
  Headers, ignored, unsatisfiable, partial, RangeRequest, upper_case, if_range_holds,
  unsatisfied_headers, partial_headers, decide_ranges, evaluate_range,
}
use http_rfc_utils.Range.Normalize.{IsCanonical, normalize_ranges-IsCanonical}
use http_rfc_utils.Range.Coverage.{Covers, Asks, Asked, normalize_ranges-Covers}

covered :
    (size : ℕ) (ss : List Span) → IsCanonical size ss → is_empty ss ≡ false → (b : ℕ) × Covers b ss
covered size [] c h = absurd (ground arith)
covered size (s ∷ ss) (w, a, c) h = (s.start, inl (omega arith))

Asks-lt : (size b : ℕ) (r : RawRange) → Asks size r b → b < size
Asks-lt size b (suffix n) h = h.0
Asks-lt size b (open_ended start) h = h.0
Asks-lt size b (closed start end) h = h.0

Asked-lt : (size b : ℕ) (rs : List RawRange) → Asked size rs b → b < size
Asked-lt size b [] h = absurd h
Asked-lt size b (r ∷ rs) (inl h) = Asks-lt size b r h
Asked-lt size b (r ∷ rs) (inr h) = Asked-lt size b rs h

none_covered : (ss : List Span) (b : ℕ) → is_empty ss ≡ true → ¬ (Covers b ss)
none_covered [] b h c = c
none_covered (s ∷ ss) b h c = absurd (ground arith)

-- With the bytes that the ranges select, once the tests of the headers have passed: the answer is
-- that the ranges are unsatisfiable exactly if no byte of the representation is asked for.
pub decide_ranges_unsatisfiable :
    (parsed : List RawRange) (size : ℕ)
    → (decide_ranges parsed size ≡ unsatisfiable (unsatisfied_headers size))
      ↔ ((b : ℕ) → ¬ (Asked size parsed b))
unfolding decide_ranges
decide_ranges_unsatisfiable parsed size = (to, from)
  where
    to :
        decide_ranges parsed size ≡ unsatisfiable (unsatisfied_headers size)
        → (b : ℕ) → ¬ (Asked size parsed b)
    to h b a = elim (Bool-cases (is_empty (normalize_ranges parsed size))) [
      | inl e ↦
          none_covered (normalize_ranges parsed size) b e
            ((normalize_ranges-Covers parsed size b).1 a)
      | inr full ↦ absurd (ground (arith, Asked-lt size b parsed a))
    ]

    from :
        ((b : ℕ) → ¬ (Asked size parsed b))
        → decide_ranges parsed size ≡ unsatisfiable (unsatisfied_headers size)
    from h = elim (Bool-cases (is_empty (normalize_ranges parsed size))) [
      | inl e ↦ ground arith
      | inr full ↦
          let (b, c) =
            covered size (normalize_ranges parsed size) (normalize_ranges-IsCanonical parsed size)
              full in
          absurd (h b ((normalize_ranges-Covers parsed size b).0 c))
    ]

-- Ranges that ask for a byte are answered.
pub decide_ranges-Asked :
    (parsed : List RawRange) (size b : ℕ)
    → Asked size parsed b
    → decide_ranges parsed size
      ≡ partial (normalize_ranges parsed size) (partial_headers (normalize_ranges parsed size) size)
unfolding decide_ranges
decide_ranges-Asked parsed size b a = elim (Bool-cases (is_empty (normalize_ranges parsed size))) [
  | inl e ↦ absurd (
      none_covered (normalize_ranges parsed size) b e ((normalize_ranges-Covers parsed size b).1 a))
  | inr full ↦ ground (arith, Asked-lt size b parsed a)
]

parse_range-full :
    (header : Text) (parsed : List RawRange)
    → parse_range header ≡ some parsed
    → is_empty header ≡ false
unfolding parse_range strip_prefix_ci trim trim_start trim_end
parse_range-full [] parsed h = absurd (ground arith)
parse_range-full (c ∷ s) parsed h = refl

module _ (parse_http_date : Text → Option ℤ) (r : RangeRequest) (header : Text)
    (parsed : List RawRange) (size : ℕ) (etag : Option Text) (last_modified : Option ℤ)
    (get : text_eq (upper_case r.method) (codes "GET") ≡ true) (given : r.range ≡ some header)
    (read : parse_range header ≡ some parsed) where
  -- A GET request with ranges that were read, by what its If-Range says.
  pub evaluate_range-holds :
      if_range_holds parse_http_date r.if_range etag last_modified ≡ true
      → evaluate_range parse_http_date r size etag last_modified ≡ decide_ranges parsed size
  unfolding evaluate_range
  evaluate_range-holds holds =
      rw (evaluate_range, given, parse_range-full header parsed read, get, read, holds) refl

  pub evaluate_range-fails :
      if_range_holds parse_http_date r.if_range etag last_modified ≡ false
      → evaluate_range parse_http_date r size etag last_modified ≡ ignored
  unfolding evaluate_range
  evaluate_range-fails fails =
      rw (evaluate_range, given, parse_range-full header parsed read, get, read, fails) refl

-- What a partial response sends for the parsed ranges.
pub record Answers (parsed : List RawRange) (size : ℕ) (ss : List Span) (headers : Headers)
    : Type 0 where
  pub canonical : IsCanonical size ss
  pub covers : (b : ℕ) → Covers b ss ↔ Asked size parsed b
  pub not_empty : is_empty ss ≡ false
  pub sent : headers ≡ partial_headers ss size

decide_ranges-Answers :
    (parsed : List RawRange) (size : ℕ) (ss : List Span) (headers : Headers)
    → decide_ranges parsed size ≡ partial ss headers
    → Answers parsed size ss headers
unfolding decide_ranges
decide_ranges-Answers parsed size ss headers h =
    let same : normalize_ranges parsed size ≡ ss = ground arith in
    record {
      canonical = rw (← same) (normalize_ranges-IsCanonical parsed size);
      covers = rw (← same) (normalize_ranges-Covers parsed size);
      not_empty = ground arith;
      sent = ground arith;
    }

-- A partial response is given only to a GET request whose Range header was read and whose If-Range,
-- if there is one, holds; it sends exactly the bytes asked for, at least one, in ranges that are in
-- order and apart, and names a single range in Content-Range.
pub evaluate_range_partial :
    (parse_http_date : Text → Option ℤ) (r : RangeRequest) (size : ℕ) (etag : Option Text)
    (last_modified : Option ℤ) (ss : List Span) (headers : Headers)
    → evaluate_range parse_http_date r size etag last_modified ≡ partial ss headers
    → (header : Text) × (parsed : List RawRange) × (r.range ≡ some header)
      × (text_eq (upper_case r.method) (codes "GET") ≡ true)
      × (parse_range header ≡ some parsed)
      × (if_range_holds parse_http_date r.if_range etag last_modified ≡ true)
      × Answers parsed size ss headers
unfolding evaluate_range
evaluate_range_partial parse_http_date r size etag last_modified ss headers h =
    elim (Option-cases r.range) [
      | inl missing ↦ absurd (ground arith)
      | inr (header, given) ↦ elim (Option-cases (parse_range header)) [
        | inl bad ↦ absurd (ground arith)
        | inr (parsed, read) ↦ (
          header,
          parsed,
          given,
          ground arith,
          read,
          ground arith,
          decide_ranges-Answers parsed size ss headers (ground arith),
        )
      ]
    ]
