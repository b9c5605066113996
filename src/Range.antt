-- ===== src/Range.antt =====
-- range.ts: the Range and Content-Range headers, and the ranges of bytes that a response sends.
-- Positions are natural numbers, exact: what the code computes is exact for texts that spell
-- numbers below 2 ^ 53. `parseHTTPDate` of datetime.ts is a parameter, as in Conditional.
pub mod Parse
pub mod Header
pub mod Normalize
pub mod Coverage
pub mod Evaluate
mod Tests
use http_rfc_utils.Common.{
  ℕ, zero, suc, ◌+◌, ◌-◌, Bool, true, false, not, ◌&&◌, ◌||◌, List, [], ◌∷◌, ◌++◌, Option, none,
  some, ◌==◌, leb, ltb, all, max, if◌then◌else◌, is_some, is_empty,
}
use http_rfc_utils.Common.Int.{ℤ, leb_ℤ}
use http_rfc_utils.Text.{Text, codes, text_eq, trim, split, cut_at, is_digit, parse_int, to_decimal}
use http_rfc_utils.Etag.{ETag, parse_etag, compare_etags}

-- `ByteRange` as `parseRange` makes it: `{ -n, -1 }`, `{ start, Infinity }` or `{ start, end }`.
pub data RawRange : Type 0 where
  suffix : ℕ → RawRange
  open_ended : ℕ → RawRange
  closed : ℕ → ℕ → RawRange

-- `ByteRange` with both ends in the representation.
pub record Span : Type 0 where
  pub start : ℕ
  pub end : ℕ

pub is_strict_digits : Text → Bool
is_strict_digits s = not (is_empty s) && all is_digit s

abbrev pub lower_unit : ℕ → ℕ
lower_unit c = if leb b'A' c && leb c b'Z' then c + 32 else c

-- `/^p/i` for a text in lower case: the text behind the prefix.
pub strip_prefix_ci : Text → Text → Option Text
strip_prefix_ci [] s = some s
strip_prefix_ci (c ∷ p) [] = none
strip_prefix_ci (c ∷ p) (d ∷ s) = elim (lower_unit d == c) [
  | true ↦ strip_prefix_ci p s
  | false ↦ none
]

-- One part of the list behind its first `-`, with both ends trimmed.
pub parse_bounds : Text → Text → Option RawRange
parse_bounds start_str end_str =
    if is_empty start_str
    then if not (is_strict_digits end_str)
      then none
      else if parse_int end_str == 0
      then none
      else some (suffix (parse_int end_str))
    else if not (is_strict_digits start_str)
    then none
    else if is_empty end_str
    then some (open_ended (parse_int start_str))
    else if not (is_strict_digits end_str)
    then none
    else if ltb (parse_int end_str) (parse_int start_str)
    then none
    else some (closed (parse_int start_str) (parse_int end_str))

pub parse_part : Text → Option RawRange
parse_part part = elim (cut_at b'-' (trim part)) [
  | none ↦ none
  | some (a, b) ↦ parse_bounds (trim a) (trim b)
]

pub parse_parts : List Text → Option (List RawRange)
parse_parts [] = some []
parse_parts (p ∷ ps) = elim (parse_part p) [
  | none ↦ none
  | some r ↦ elim (parse_parts ps) [ none ↦ none | some rs ↦ some (r ∷ rs) ]
]

pub parse_range : Text → Option (List RawRange)
parse_range header = elim (strip_prefix_ci (codes "bytes=") (trim header)) [
  | none ↦ none
  | some value ↦ if is_empty value then none else parse_parts (split b',' value)
]

-- `number | '*'`
pub data Size : Type 0 where
  unknown : Size
  known : ℕ → Size

-- With a range, or `{ size, unsatisfied: true }`.
pub data ContentRange : Type 0 where
  satisfied : Span → Size → ContentRange
  unsatisfied : ℕ → ContentRange

pub parse_size : Text → Option Size
parse_size token =
    if text_eq token (codes "*")
    then some unknown
    else if not (is_strict_digits token)
    then none
    else some (known (parse_int token))

pub size_admits : Size → ℕ → Bool
size_admits unknown last = true
size_admits (known size) last = ltb last size

-- The two positions of a Content-Range, trimmed.
pub parse_positions : Text → Text → Size → Option ContentRange
parse_positions start_token end_token size =
    if not (is_strict_digits start_token) || not (is_strict_digits end_token)
    then none
    else if ltb (parse_int end_token) (parse_int start_token)
    then none
    else if not (size_admits size (parse_int end_token))
    then none
    else some (satisfied (record { start = parse_int start_token; end = parse_int end_token }) size)

pub parse_unsatisfied : Size → Option ContentRange
parse_unsatisfied unknown = none
parse_unsatisfied (known size) = some (unsatisfied size)

-- Behind the `/`; what stands behind a second `/` is not looked at.
pub parse_range_part : Text → Size → Option ContentRange
parse_range_part range_part size =
    if text_eq (trim range_part) (codes "*")
    then parse_unsatisfied size
    else elim (cut_at b'-' range_part) [
      | none ↦ none
      | some (a, b) ↦ parse_positions (trim a) (trim b) size
    ]

pub parse_range_and_size : List Text → Option ContentRange
parse_range_and_size [] = none
parse_range_and_size (range_part ∷ []) = none
parse_range_and_size (range_part ∷ size_part ∷ more) =
    if is_empty range_part then none else elim (parse_size (trim size_part)) [
      | none ↦ none
      | some size ↦ parse_range_part range_part size
    ]

abbrev pub lower_case : Text → Text
lower_case [] = []
lower_case (c ∷ s) = lower_unit c ∷ lower_case s

pub parse_content_range : Text → Option ContentRange
parse_content_range header = elim (cut_at b' ' (trim header)) [
  | none ↦ none
  | some (unit, rest) ↦
      if not (text_eq (lower_case (trim unit)) (codes "bytes"))
      then none
      else parse_range_and_size (split b'/' (trim rest))
]

abbrev pub size_text : Size → Text
size_text unknown = codes "*"
size_text (known size) = to_decimal size

pub format_content_range : Span → Size → Text
format_content_range range size =
    codes "bytes "
    ++ (to_decimal range.start ++ (b'-' ∷ (to_decimal range.end ++ (b'/' ∷ size_text size))))

-- One round of the first loop of `normalizeRanges`; `none` is `continue`.
pub clip : ℕ → ℕ → ℕ → Option Span
clip size start end =
    if leb size start
    then none
    else if ltb end start
    then none
    else if leb size end
    then some (record { start = start; end = size - 1 })
    else some (record { start = start; end = end })

pub resolve : ℕ → RawRange → Option Span
unfolding clip
resolve size (suffix n) = if n == 0 then none else clip size (size - n) (size - 1)
resolve size (open_ended start) = clip size start (size - 1)
resolve size (closed start end) = clip size start end

pub resolve_all : ℕ → List RawRange → List Span
resolve_all size [] = []
resolve_all size (r ∷ rs) = elim (resolve size r) [
  | none ↦ resolve_all size rs
  | some s ↦ s ∷ resolve_all size rs
]

-- `normalized.sort((a, b) => a.start - b.start)`, which is stable.
pub insert_span : Span → List Span → List Span
insert_span x [] = x ∷ []
insert_span x (y ∷ ys) = if leb x.start y.start then x ∷ y ∷ ys else y ∷ insert_span x ys

pub sort_spans : List Span → List Span
sort_spans [] = []
sort_spans (x ∷ xs) = insert_span x (sort_spans xs)

-- The second loop: `last` is the end of `merged`, which a touching range extends.
pub merge_from : Span → List Span → List Span
merge_from last [] = last ∷ []
merge_from last (c ∷ cs) = elim (leb c.start (last.end + 1)) [
  | true ↦ merge_from (record { start = last.start; end = max last.end c.end }) cs
  | false ↦ last ∷ merge_from c cs
]

pub merge_spans : List Span → List Span
merge_spans [] = []
merge_spans (s ∷ ss) = merge_from s ss

pub normalize_ranges : List RawRange → ℕ → List Span
normalize_ranges raw_ranges size = merge_spans (sort_spans (resolve_all size raw_ranges))

abbrev pub Headers : Type 0
Headers = List (Text × Text)

pub data RangeDecision : Type 0 where
  no_range ignored : RangeDecision
  unsatisfiable : Headers → RangeDecision
  partial : List Span → Headers → RangeDecision

-- What `evaluateRange` reads of a request.
pub record RangeRequest : Type 0 where
  pub method : Text
  pub range : Option Text
  pub if_range : Option Text

abbrev pub upper_unit : ℕ → ℕ
upper_unit c = if leb b'a' c && leb c b'z' then c - 32 else c

abbrev pub upper_case : Text → Text
upper_case [] = []
upper_case (c ∷ s) = upper_unit c ∷ upper_case s

unfoldable pub dates_match : Option ℤ → Option ℤ → Bool
dates_match (some date) (some modified) = leb_ℤ modified date
dates_match (some date) none = false
dates_match none modified = false

pub strong_match : ETag → Text → Bool
strong_match etag text = elim (parse_etag text) [
  | none ↦ false
  | some current ↦ compare_etags etag current true
]

-- The current tag counts as absent if it is empty.
unfoldable pub match_tag_or_date : (Text → Option ℤ) → Text → Option Text → Option ℤ → Bool
match_tag_or_date parse_http_date if_range none last_modified =
    dates_match (parse_http_date if_range) last_modified
match_tag_or_date parse_http_date if_range (some text) last_modified = elim (parse_etag if_range) [
  | none ↦ dates_match (parse_http_date if_range) last_modified
  | some etag ↦
      if is_empty text
      then dates_match (parse_http_date if_range) last_modified
      else strong_match etag text
]

unfoldable pub if_range_matches : (Text → Option ℤ) → Text → Option Text → Option ℤ → Bool
if_range_matches parse_http_date if_range current_etag last_modified =
    if is_empty (trim if_range)
    then false
    else match_tag_or_date parse_http_date if_range current_etag last_modified

-- An If-Range that is absent or empty asks nothing.
unfoldable pub if_range_holds : (Text → Option ℤ) → Option Text → Option Text → Option ℤ → Bool
if_range_holds parse_http_date none etag last_modified = true
if_range_holds parse_http_date (some if_range) etag last_modified =
    if is_empty if_range then true else if_range_matches parse_http_date if_range etag last_modified

abbrev pub unsatisfied_headers : ℕ → Headers
unsatisfied_headers size =
    (codes "Content-Range", codes "bytes */" ++ to_decimal size)
    ∷ (codes "Accept-Ranges", codes "bytes")
    ∷ []

pub partial_headers : List Span → ℕ → Headers
partial_headers (r ∷ []) size =
    (codes "Accept-Ranges", codes "bytes")
    ∷ (codes "Content-Range", format_content_range r (known size))
    ∷ []
partial_headers _ size = (codes "Accept-Ranges", codes "bytes") ∷ []

-- `evaluateRange` behind the tests of the headers.
pub decide_ranges : List RawRange → ℕ → RangeDecision
decide_ranges parsed size =
    if size == 0
    then unsatisfiable (unsatisfied_headers 0)
    else if is_empty (normalize_ranges parsed size)
    then unsatisfiable (unsatisfied_headers size)
    else partial (normalize_ranges parsed size)
        (partial_headers (normalize_ranges parsed size) size)

-- The size is that of a representation, so it is not negative.
pub evaluate_range : (Text → Option ℤ) → RangeRequest → ℕ → Option Text → Option ℤ → RangeDecision
evaluate_range parse_http_date r size etag last_modified = elim r.range [
  | none ↦ no_range
  | some header ↦
      if is_empty header
      then no_range
      else if not (text_eq (upper_case r.method) (codes "GET"))
      then ignored
      else elim (parse_range header) [
        | none ↦ ignored
        | some parsed ↦
            if not (if_range_holds parse_http_date r.if_range etag last_modified)
            then ignored
            else decide_ranges parsed size
      ]
]
