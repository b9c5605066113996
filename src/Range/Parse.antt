-- ===== src/Range/Parse.antt =====
-- `parseRange` reads every list of ranges from its plain text.
use http_rfc_utils.Common.{
  ℕ, ◌<◌, ◌≤◌, true, false, List, [], ◌∷◌, ◌++◌, map, some, ◌≡◌, ◌≢◌, refl, arith, All, All-append,
  is_empty,
}
use http_rfc_utils.Text.{
  Text, codes, trim, trim_start, trim_end, join, is_digit, is_space, to_decimal,
}
use http_rfc_utils.Text.Laws.{Lacks, split-join}
use http_rfc_utils.Text.Decimal.{parse_int-to_decimal, to_decimal-ne-nil}
use http_rfc_utils.Text.Trim.{
  ends_solid, ends_solid-append, ends_solid-to_decimal, trim-ends_solid, trim-to_decimal_front,
  trim-to_decimal, to_decimal-Lacks, cut_at-append,
}
use http_rfc_utils.Range.{
  RawRange, suffix, open_ended, closed, strip_prefix_ci, parse_bounds, parse_part, parse_parts,
  parse_range,
}
use http_rfc_utils.Range.Header.{to_decimal-strict}

-- A range as RFC 9110 section 14.1.1 spells it.
abbrev pub raw_text : RawRange → Text
raw_text (suffix n) = b'-' ∷ to_decimal n
raw_text (open_ended start) = to_decimal start ++ b'-' ∷ []
raw_text (closed start end) = to_decimal start ++ (b'-' ∷ to_decimal end)

-- A suffix asks for a byte at least, and a range does not end before it starts.
abbrev pub IsRange : RawRange → Type 0
IsRange (suffix n) = 0 < n
IsRange (open_ended start) = Unit
IsRange (closed start end) = start ≤ end

not_digit : is_digit b'-' ≡ false
unfolding is_digit
not_digit = refl

to_decimal-not_empty : (n : ℕ) → is_empty (to_decimal n) ≡ false
to_decimal-not_empty n = nonempty (to_decimal n) (to_decimal-ne-nil n)
  where
    nonempty : (s : Text) → s ≢ [] → is_empty s ≡ false
    nonempty [] h = absurd (h refl)
    nonempty (c ∷ s) h = refl

dash_space : is_space b'-' ≡ false
unfolding is_space
dash_space = refl

trim-raw_text : (r : RawRange) → trim (raw_text r) ≡ raw_text r
trim-raw_text (suffix n) =
    trim-ends_solid b'-' (to_decimal n) dash_space
      (ends_solid-append (b'-' ∷ []) (to_decimal n) (ends_solid-to_decimal n))
trim-raw_text (open_ended start) =
    trim-to_decimal_front start (b'-' ∷ [])
      (ends_solid-append (to_decimal start) (b'-' ∷ []) (unfold ends_solid is_space in refl))
trim-raw_text (closed start end) = trim-to_decimal_front start (b'-' ∷ to_decimal end) (
    ends_solid-append (to_decimal start) (b'-' ∷ to_decimal end)
      (ends_solid-append (b'-' ∷ []) (to_decimal end) (ends_solid-to_decimal end)))

trim-nil : trim [] ≡ []
unfolding trim trim_start trim_end
trim-nil = refl

parse_part-raw_text : (r : RawRange) → IsRange r → parse_part (raw_text r) ≡ some r
unfolding parse_part parse_bounds
parse_part-raw_text (suffix n) h = ground (
  arith,
  trim-raw_text (suffix n),
  cut_at-append b'-' [] (to_decimal n) tt,
  trim-nil,
  trim-to_decimal n,
  to_decimal-strict n,
  parse_int-to_decimal n,
)
parse_part-raw_text (open_ended start) h = ground (
  arith,
  trim-raw_text (open_ended start),
  cut_at-append b'-' (to_decimal start) [] (to_decimal-Lacks b'-' start not_digit),
  trim-nil,
  trim-to_decimal start,
  to_decimal-strict start,
  to_decimal-not_empty start,
  parse_int-to_decimal start,
)
parse_part-raw_text (closed start end) h = ground (
  arith,
  trim-raw_text (closed start end),
  cut_at-append b'-' (to_decimal start) (to_decimal end) (to_decimal-Lacks b'-' start not_digit),
  trim-to_decimal start,
  trim-to_decimal end,
  to_decimal-strict start,
  to_decimal-strict end,
  to_decimal-not_empty start,
  to_decimal-not_empty end,
  parse_int-to_decimal start,
  parse_int-to_decimal end,
)

parse_parts-map : (rs : List RawRange) → All IsRange rs → parse_parts (map raw_text rs) ≡ some rs
unfolding parse_parts
parse_parts-map [] h = refl
parse_parts-map (r ∷ rs) (h, hs) = ground (arith, parse_part-raw_text r h, parse_parts-map rs hs)

comma_not_digit : is_digit b',' ≡ false
unfolding is_digit
comma_not_digit = refl

raw_text-Lacks : (r : RawRange) → Lacks b',' (raw_text r)
raw_text-Lacks (suffix n) = (omega arith, to_decimal-Lacks b',' n comma_not_digit)
raw_text-Lacks (open_ended start) =
    All-append (λ c. c ≢ b',') (to_decimal start) (b'-' ∷ [])
      (to_decimal-Lacks b',' start comma_not_digit) (omega arith, tt)
raw_text-Lacks (closed start end) =
    All-append (λ c. c ≢ b',') (to_decimal start) (b'-' ∷ to_decimal end)
      (to_decimal-Lacks b',' start comma_not_digit)
      (omega arith, to_decimal-Lacks b',' end comma_not_digit)

map-Lacks : (rs : List RawRange) → All (Lacks b',') (map raw_text rs)
map-Lacks [] = tt
map-Lacks (r ∷ rs) = (raw_text-Lacks r, map-Lacks rs)

abbrev pub range_text : List RawRange → Text
range_text rs = codes "bytes=" ++ join b',' (map raw_text rs)

ends_solid-raw_text : (r : RawRange) → ends_solid (raw_text r) ≡ true
ends_solid-raw_text (suffix n) =
    ends_solid-append (b'-' ∷ []) (to_decimal n) (ends_solid-to_decimal n)
ends_solid-raw_text (open_ended start) =
    ends_solid-append (to_decimal start) (b'-' ∷ []) (unfold ends_solid is_space in refl)
ends_solid-raw_text (closed start end) =
    ends_solid-append (to_decimal start) (b'-' ∷ to_decimal end)
      (ends_solid-append (b'-' ∷ []) (to_decimal end) (ends_solid-to_decimal end))

ends_solid-join :
    (r : RawRange) (rs : List RawRange) → ends_solid (join b',' (map raw_text (r ∷ rs))) ≡ true
unfolding join
ends_solid-join r [] = ends_solid-raw_text r
ends_solid-join r (q ∷ rs) =
    ends_solid-append (raw_text r) (b',' ∷ join b',' (map raw_text (q ∷ rs)))
      (ends_solid-append (b',' ∷ []) (join b',' (map raw_text (q ∷ rs))) (ends_solid-join q rs))

ends_solid-not_empty : (s : Text) → ends_solid s ≡ true → is_empty s ≡ false
unfolding ends_solid
ends_solid-not_empty [] h = cc
ends_solid-not_empty (c ∷ s) h = refl

strip_bytes : (s : Text) → strip_prefix_ci (codes "bytes=") (codes "bytes=" ++ s) ≡ some s
unfolding strip_prefix_ci
strip_bytes s = refl

-- Every list of ranges that is not empty, with suffixes of at least one byte and no range that ends
-- before it starts, is read back from its plain text, in order.
pub parse_range-range_text :
    (rs : List RawRange) → rs ≢ [] → All IsRange rs → parse_range (range_text rs) ≡ some rs
unfolding parse_range
parse_range-range_text [] n h = absurd (n refl)
parse_range-range_text (r ∷ rs) n h =
    let value = join b',' (map raw_text (r ∷ rs)) in
    ground (
      arith,
      trim-ends_solid b'b' (codes "ytes=" ++ value) (unfold is_space in refl)
          (ends_solid-append (codes "bytes=") value (ends_solid-join r rs)),
      strip_bytes value,
      ends_solid-not_empty value (ends_solid-join r rs),
      split-join b',' (map raw_text (r ∷ rs)) (λ e. cc) (map-Lacks (r ∷ rs)),
      parse_parts-map (r ∷ rs) h,
    )

-- Whatever the text, every range that is read is one of RFC 9110.
parse_bounds-IsRange : (a b : Text) (r : RawRange) → parse_bounds a b ≡ some r → IsRange r
unfolding parse_bounds
parse_bounds-IsRange a b (suffix n) h = ground arith
parse_bounds-IsRange a b (open_ended start) h = tt
parse_bounds-IsRange a b (closed start end) h = ground arith
