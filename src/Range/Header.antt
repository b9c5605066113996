-- ===== src/Range/Header.antt =====
-- `parseContentRange` reads what `formatContentRange` writes.
use http_rfc_utils.Common.{
  ℕ, ◌≤◌, true, false, not, ◌&&◌, List, [], ◌∷◌, ◌++◌, some, ◌≡◌, ◌≢◌, refl, sym, ap, arith, all,
  All-append, is_empty, append_assoc,
}
use http_rfc_utils.Text.{
  Text, codes, text_eq, trim, trim_start, trim_end, split, cut_at, is_digit, is_space, to_decimal,
}
use http_rfc_utils.Text.Laws.{Lacks, split_front, split_part}
use http_rfc_utils.Text.Decimal.{parse_int-to_decimal, to_decimal-digits, to_decimal-ne-nil}
use http_rfc_utils.Text.Trim.{
  ends_solid, ends_solid-append, ends_solid-to_decimal, trim-ends_solid, trim-to_decimal_front,
  trim-to_decimal, to_decimal-Lacks, cut_at-append,
}
use http_rfc_utils.Range.{
  Span, Size, unknown, known, ContentRange, satisfied, is_strict_digits, parse_size, size_admits,
  parse_positions, parse_range_part, parse_range_and_size, parse_content_range, size_text,
  format_content_range, lower_case,
}

pub to_decimal-strict : (n : ℕ) → is_strict_digits (to_decimal n) ≡ true
unfolding is_strict_digits
to_decimal-strict n = strict (to_decimal n) (to_decimal-ne-nil n) (to_decimal-digits n)
  where
    strict :
        (s : Text) → s ≢ [] → all is_digit s ≡ true → (not (is_empty s) && all is_digit s) ≡ true
    strict [] n h = absurd (n refl)
    strict (c ∷ s) n h = h

strict-not_star : (s : Text) → is_strict_digits s ≡ true → text_eq s (codes "*") ≡ false
unfolding is_strict_digits text_eq is_digit
strict-not_star [] h = cc
strict-not_star (c ∷ s) h = ground arith

parse_size-size_text : (size : Size) → parse_size (trim (size_text size)) ≡ some size
unfolding parse_size
parse_size-size_text unknown = unfold text_eq trim trim_start trim_end is_space in refl
parse_size-size_text (known n) = ground (
  arith,
  trim-to_decimal n,
  strict-not_star (to_decimal n) (to_decimal-strict n),
  to_decimal-strict n,
  parse_int-to_decimal n,
)

ends_solid-size_text : (size : Size) → ends_solid (size_text size) ≡ true
ends_solid-size_text unknown = unfold ends_solid is_space in refl
ends_solid-size_text (known n) = ends_solid-to_decimal n

size_text-Lacks : (size : Size) → Lacks b'/' (size_text size)
size_text-Lacks unknown = (omega arith, tt)
size_text-Lacks (known n) = to_decimal-Lacks b'/' n (unfold is_digit in refl)

abbrev positions : Span → Text
positions range = to_decimal range.start ++ (b'-' ∷ to_decimal range.end)

parse_positions-eq :
    (range : Span) (size : Size)
    → range.start ≤ range.end
    → size_admits size range.end ≡ true
    → parse_positions (to_decimal range.start) (to_decimal range.end) size
      ≡ some (satisfied range size)
unfolding parse_positions
parse_positions-eq range size h k = ground (
  arith,
  to_decimal-strict range.start,
  to_decimal-strict range.end,
  parse_int-to_decimal range.start,
  parse_int-to_decimal range.end,
)

text_eq_star :
    (c : ℕ) (s t : Text) → s ≢ [] → all is_digit s ≡ true → text_eq (s ++ t) (codes "*") ≡ false
unfolding text_eq is_digit
text_eq_star c [] t n h = absurd (n refl)
text_eq_star c (d ∷ s) t n h = ground arith

ends_solid-positions : (range : Span) → ends_solid (positions range) ≡ true
ends_solid-positions range =
    ends_solid-append (to_decimal range.start) (b'-' ∷ to_decimal range.end)
      (ends_solid-append (b'-' ∷ []) (to_decimal range.end) (ends_solid-to_decimal range.end))

parse_range_part-positions :
    (range : Span) (size : Size)
    → range.start ≤ range.end
    → size_admits size range.end ≡ true
    → parse_range_part (positions range) size ≡ some (satisfied range size)
unfolding parse_range_part
parse_range_part-positions range size h k = ground (
  arith,
  trim-to_decimal_front range.start (b'-' ∷ to_decimal range.end) (ends_solid-positions range),
  text_eq_star 0 (to_decimal range.start) (b'-' ∷ to_decimal range.end)
      (to_decimal-ne-nil range.start) (to_decimal-digits range.start),
  cut_at-append b'-' (to_decimal range.start) (to_decimal range.end)
      (to_decimal-Lacks b'-' range.start (unfold is_digit in refl)),
  trim-to_decimal range.start,
  trim-to_decimal range.end,
  parse_positions-eq range size h k,
)

positions-Lacks : (range : Span) → Lacks b'/' (positions range)
positions-Lacks range =
    All-append (λ c. c ≢ b'/') (to_decimal range.start) (b'-' ∷ to_decimal range.end)
      (to_decimal-Lacks b'/' range.start (unfold is_digit in refl))
      (omega arith, to_decimal-Lacks b'/' range.end (unfold is_digit in refl))

split-positions :
    (range : Span) (size : Size)
    → split b'/' (positions range ++ (b'/' ∷ size_text size))
      ≡ positions range ∷ size_text size ∷ []
split-positions range size = ground (
  arith,
  split_front b'/' (positions range) (size_text size) (positions-Lacks range),
  split_part b'/' (size_text size) (size_text-Lacks size),
)

positions_not_empty : (s t : Text) → s ≢ [] → is_empty (s ++ t) ≡ false
positions_not_empty [] t n = absurd (n refl)
positions_not_empty (c ∷ s) t n = refl

parse_range_and_size-eq :
    (range : Span) (size : Size)
    → range.start ≤ range.end
    → size_admits size range.end ≡ true
    → parse_range_and_size (positions range ∷ size_text size ∷ []) ≡ some (satisfied range size)
unfolding parse_range_and_size
parse_range_and_size-eq range size h k = ground (
  arith,
  positions_not_empty (to_decimal range.start) (b'-' ∷ to_decimal range.end)
      (to_decimal-ne-nil range.start),
  parse_size-size_text size,
  parse_range_part-positions range size h k,
)

-- What follows the unit, as the reader sees it.
abbrev body : Span → Size → Text
body range size = positions range ++ (b'/' ∷ size_text size)

format_content_range-body :
    (range : Span) (size : Size)
    → format_content_range range size ≡ codes "bytes " ++ body range size
unfolding format_content_range
format_content_range-body range size =
    ap (λ t. codes "bytes " ++ t)
      (sym (
        append_assoc (to_decimal range.start) (b'-' ∷ to_decimal range.end)
          (b'/' ∷ size_text size)))

ends_solid-body : (range : Span) (size : Size) → ends_solid (body range size) ≡ true
ends_solid-body range size =
    ends_solid-append (positions range) (b'/' ∷ size_text size)
      (ends_solid-append (b'/' ∷ []) (size_text size) (ends_solid-size_text size))

trim-body : (range : Span) (size : Size) → trim (body range size) ≡ body range size
trim-body range size =
    rw (append_assoc (to_decimal range.start) (b'-' ∷ to_decimal range.end) (b'/' ∷ size_text size))
      (trim-to_decimal_front range.start ((b'-' ∷ to_decimal range.end) ++ (b'/' ∷ size_text size))
        (rw
          (← append_assoc (to_decimal range.start) (b'-' ∷ to_decimal range.end)
            (b'/' ∷ size_text size))
          (ends_solid-body range size)))

cut_unit : (b : Text) → cut_at b' ' (codes "bytes " ++ b) ≡ some (codes "bytes", b)
unfolding cut_at
cut_unit b = refl

unit_is_bytes : text_eq (lower_case (trim (codes "bytes"))) (codes "bytes") ≡ true
unfolding text_eq trim trim_start trim_end is_space
unit_is_bytes = refl

parse_of_body :
    (header b : Text) (parts : List Text) (r : ContentRange)
    → trim header ≡ codes "bytes " ++ b
    → trim b ≡ b
    → split b'/' b ≡ parts
    → parse_range_and_size parts ≡ some r
    → parse_content_range header ≡ some r
unfolding parse_content_range
parse_of_body header b parts r th tb sp pr =
    ground (arith, th, cut_unit b, unit_is_bytes, tb, sp, pr)

-- A range that does not end before it starts, and lies in the size if that is known, is read back
-- from the Content-Range that is written for it.
pub parse_content_range-format_content_range :
    (range : Span) (size : Size)
    → range.start ≤ range.end
    → size_admits size range.end ≡ true
    → parse_content_range (format_content_range range size) ≡ some (satisfied range size)
parse_content_range-format_content_range range size h k =
    parse_of_body (format_content_range range size) (body range size)
      (positions range ∷ size_text size ∷ []) (satisfied range size)
      (rw (format_content_range-body range size) (
        trim-ends_solid b'b' (codes "ytes " ++ body range size) (unfold is_space in refl)
          (ends_solid-append (codes "bytes ") (body range size) (ends_solid-body range size))))
      (trim-body range size) (split-positions range size) (parse_range_and_size-eq range size h k)
