-- ===== src/Conditional.antt =====
-- conditional.ts: reading If-Match and If-None-Match, and the evaluation of preconditions. Dates
-- are read by `parseHTTPDate` of datetime.ts, which looks at the clock for two-digit years, so the
-- reader at the time of the request is a parameter; a time is its count of milliseconds.
pub mod Lists
pub mod Fuel
pub mod Precedence
pub mod Stops
pub mod Handler
mod Tests
use http_rfc_utils.Common.{
  ℕ, zero, suc, ◌-◌, Bool, true, false, not, ◌&&◌, ◌||◌, List, [], ◌∷◌, ◌++◌, Option, none, some,
  ◌==◌, leb, all, any, length, if◌then◌else◌, is_some, is_empty,
}
use http_rfc_utils.Common.Results.{Result, ok, err, ◌>>=◌}
use http_rfc_utils.Common.Int.{ℤ, leb_ℤ, floor_to}
use http_rfc_utils.Text.{Text, codes, text_eq, trim, strip_prefix, cut_at}
use http_rfc_utils.Etag.{ETag, EtagError, quote, parse_etag, compare_etags, format_etag}

-- `ETag[] | '*'`
pub data Condition : Type 0 where
  wildcard : Condition
  tags : List ETag → Condition

-- `while (trimmed[index] === ' ' || trimmed[index] === '\t') index += 1`
pub skip_blanks : Text → Text
skip_blanks [] = []
skip_blanks (c ∷ s) = if c == b' ' || c == 9 then skip_blanks s else c ∷ s

-- The text behind the opening `W/"` or `"`, with the opening; `none` where there is neither.
pub opening : Text → Option (Text × Text)
opening s = elim (strip_prefix (codes "W/\"") s) [
  | some body ↦ some (codes "W/\"", body)
  | none ↦ elim (strip_prefix (codes "\"") s) [ some body ↦ some (codes "\"", body) | none ↦ none ]
]

-- One entity tag at the front of the text, up to its closing quote, and the text behind it.
pub read_tag : Text → Option (ETag × Text)
read_tag s = elim (opening s) [
  | none ↦ none
  | some (open_text, body) ↦ elim (cut_at quote body) [
    | none ↦ none
    | some (inner, rest) ↦ elim (parse_etag (open_text ++ (inner ++ quote ∷ []))) [
      | none ↦ none
      | some etag ↦ some (etag, rest)
    ]
  ]
]

-- What follows a tag.
pub data After : Type 0 where
  finished : After
  malformed : After
  more : Text → After

-- The end of the header, or a comma with something other than blanks behind it.
pub behind_comma : Text → After
behind_comma [] = malformed
behind_comma (c ∷ s) = more (c ∷ s)

pub after_tag : Text → After
unfolding behind_comma
after_tag [] = finished
after_tag (c ∷ s) = if c == b',' then behind_comma (skip_blanks s) else malformed

-- The loop of `parseIfNoneMatch`, with the tags read so far; each round reads at least a quote, so
-- as many rounds as the text has units are enough. `none` means that the fuel ran out.
pub read_tags : ℕ → List ETag → Text → Option (List ETag)
read_tags zero etags s = none
read_tags (suc f) etags s = elim (read_tag s) [
  | none ↦ some []
  | some (etag, rest) ↦ elim (after_tag (skip_blanks rest)) [
    | finished ↦ some (etags ++ etag ∷ [])
    | malformed ↦ some []
    | more next ↦ read_tags f (etags ++ etag ∷ []) next
  ]
]

abbrev pub or_empty : Option (List ETag) → List ETag
or_empty none = []
or_empty (some etags) = etags

-- `parseIfNoneMatch` behind `trim`.
pub read_condition : Text → Condition
read_condition [] = tags []
read_condition (c ∷ s) =
    if text_eq (c ∷ s) (codes "*")
    then wildcard
    else tags (or_empty (read_tags (length (c ∷ s)) [] (c ∷ s)))

pub parse_if_none_match : Text → Condition
parse_if_none_match header = read_condition (trim header)

unfoldable pub parse_if_match : Text → Condition
parse_if_match header = parse_if_none_match header

-- The loop over the tags that were read.
pub any_matches : List ETag → ETag → Bool → Bool
any_matches [] current strong = false
any_matches (t ∷ ts) current strong =
    compare_etags t current strong || any_matches ts current strong

-- `evaluateIfMatch` behind the parser: the wildcard passes if the resource exists.
pub if_match_passes : Condition → Option ETag → Bool
if_match_passes wildcard current = is_some current
if_match_passes (tags parsed) none = false
if_match_passes (tags parsed) (some current) = any_matches parsed current true

pub evaluate_if_match : Text → Option ETag → Bool
evaluate_if_match header current = if_match_passes (parse_if_match header) current

-- `evaluateIfNoneMatch` behind the parser: without a resource nothing matches.
pub if_none_match_hits : Condition → Option ETag → Bool
if_none_match_hits parsed none = false
if_none_match_hits wildcard (some current) = true
if_none_match_hits (tags parsed) (some current) = any_matches parsed current false

pub evaluate_if_none_match : Text → Option ETag → Bool
evaluate_if_none_match header current = if_none_match_hits (parse_if_none_match header) current

unfoldable pub to_whole_second_precision : ℤ → ℤ
to_whole_second_precision date = floor_to 1000 date

-- The upper case of an ASCII method; no other character's upper case is an ASCII letter of these
-- two names.
abbrev pub to_upper : ℕ → ℕ
to_upper c = if leb b'a' c && leb c b'z' then c - 32 else c

abbrev pub upper_case : Text → Text
upper_case [] = []
upper_case (c ∷ s) = to_upper c ∷ upper_case s

unfoldable pub is_safe_method : Text → Bool
is_safe_method method =
    text_eq (upper_case method) (codes "GET") || text_eq (upper_case method) (codes "HEAD")

-- The four headers that `evaluatePreconditions` reads, and the method.
pub record Request : Type 0 where
  pub method : Text
  pub if_match : Option Text
  pub if_none_match : Option Text
  pub if_modified_since : Option Text
  pub if_unmodified_since : Option Text

-- `Record<string, string>`
abbrev pub Headers : Type 0
Headers = List (Text × Text)

pub data Status : Type 0 where
  not_modified precondition_failed : Status

-- `{ proceed: true }` or `{ proceed: false, status, headers }`.
pub data ConditionalResult : Type 0 where
  proceed : ConditionalResult
  stop : Status → Headers → ConditionalResult

-- What `handleConditionalRequest` throws: what `formatETag` throws, or the TypeError of
-- `new Response` for a header that the platform refuses.
pub data HandlerError : Type 0 where
  etag_error : EtagError → HandlerError
  response_refused : HandlerError

-- `defaultCorsHeaders` of cors.ts.
abbrev pub default_cors_headers : Headers
default_cors_headers =
    (codes "Access-Control-Allow-Origin", codes "*")
    ∷ (codes "Access-Control-Allow-Methods", codes "GET, HEAD, OPTIONS")
    ∷ (
      codes "Access-Control-Allow-Headers",
      codes "Content-Type, Accept, If-None-Match, If-Modified-Since",
    )
    ∷ (codes "Access-Control-Expose-Headers", codes "ETag, Last-Modified, Link, X-Total-Count")
    ∷ (codes "Access-Control-Max-Age", codes "86400")
    ∷ []

module _ (parse_http_date : Text → Option ℤ) where
  unfoldable pub evaluate_if_modified_since : Text → Option ℤ → Bool
  evaluate_if_modified_since header none = false
  evaluate_if_modified_since header (some last_modified) = elim (parse_http_date header) [
    | none ↦ false
    | some since ↦ leb_ℤ (to_whole_second_precision last_modified) (to_whole_second_precision since)
  ]

  unfoldable pub evaluate_if_unmodified_since : Text → Option ℤ → Bool
  evaluate_if_unmodified_since header last_modified =
      if text_eq (trim header) [] then true else elim (parse_http_date header) [
        | none ↦ true
        | some since ↦ elim last_modified [
          | none ↦ true
          | some date ↦ leb_ℤ (to_whole_second_precision date) (to_whole_second_precision since)
        ]
      ]

-- The two functions of datetime.ts: `parseHTTPDate` at the time of the request, `formatHTTPDate`.
module _ (parse_http_date : Text → Option ℤ) (format_http_date : ℤ → Text) where
  pub last_modified_header : Option ℤ → Headers
  last_modified_header none = []
  last_modified_header (some date) = (codes "Last-Modified", format_http_date date) ∷ []

  -- `formatETag` throws for a value that is no entity tag's.
  pub build_conditional_headers : Option ETag → Option ℤ → Result EtagError Headers
  unfolding last_modified_header
  build_conditional_headers none date = ok (default_cors_headers ++ last_modified_header date)
  build_conditional_headers (some etag) date = do
    text ← format_etag etag
    ok (default_cors_headers ++ ((codes "ETag", text) ∷ last_modified_header date))

  pub stop_with : Status → Option ETag → Option ℤ → Result EtagError ConditionalResult
  stop_with status current date = do
    headers ← build_conditional_headers current date
    ok (stop status headers)

  -- Step 4, reached when no earlier step stops.
  unfoldable pub check_modified_since :
      Request → Option ETag → Option ℤ → Result EtagError ConditionalResult
  check_modified_since r current date = elim r.if_modified_since [
    | none ↦ ok proceed
    | some since ↦
        if not (is_some r.if_none_match) && is_safe_method r.method
        then if evaluate_if_modified_since parse_http_date since date
          then stop_with not_modified current date
          else ok proceed
        else ok proceed
  ]

  -- Steps 3 and 4.
  unfoldable pub check_none_match :
      Request → Option ETag → Option ℤ → Result EtagError ConditionalResult
  check_none_match r current date = elim r.if_none_match [
    | none ↦ check_modified_since r current date
    | some header ↦
        if evaluate_if_none_match header current
        then if is_safe_method r.method
          then stop_with not_modified current date
          else stop_with precondition_failed current date
        else check_modified_since r current date
  ]

  unfoldable pub evaluate_preconditions :
      Request → Option ETag → Option ℤ → Result EtagError ConditionalResult
  evaluate_preconditions r current date = elim r.if_match [
    | some header ↦
        if not (evaluate_if_match header current)
        then stop_with precondition_failed current date
        else check_none_match r current date
    | none ↦ elim r.if_unmodified_since [
      | some header ↦
          if not (evaluate_if_unmodified_since parse_http_date header date)
          then stop_with precondition_failed current date
          else check_none_match r current date
      | none ↦ check_none_match r current date
    ]
  ]

  -- `if (!responseHeaders[name]) responseHeaders[name] = value`
  unfoldable pub fill_header : Text → Text → Headers → Headers
  fill_header name value [] = (name, value) ∷ []
  fill_header name value ((n, v) ∷ hs) =
      if text_eq n name
      then if is_empty v then (n, value) ∷ hs else (n, v) ∷ hs
      else (n, v) ∷ fill_header name value hs

  -- `new Response(null, { status, headers })`, with the platform's test of a header's name and value;
  -- a response is the status and the headers that it is made of.
  unfoldable pub new_response :
      (Text → Text → Bool) → Status → Headers → Result HandlerError (Option (Status × Headers))
  new_response takes_header status headers =
      if all (λ h. takes_header h.0 h.1) headers
      then ok (some (status, headers))
      else err response_refused

  -- The status and the headers of the response; `none` where the request should proceed.
  pub handle_conditional_request :
      (Text → Text → Bool) → Request → Text → ℤ → Result HandlerError (Option (Status × Headers))
  handle_conditional_request takes_header r etag last_modified =
      elim (evaluate_preconditions r (parse_etag etag) (some last_modified)) [
        | err e ↦ err (etag_error e)
        | ok proceed ↦ ok none
        | ok (stop status headers) ↦ new_response takes_header status (
            fill_header (codes "Last-Modified") (format_http_date last_modified)
              (fill_header (codes "ETag") etag headers))
      ]
