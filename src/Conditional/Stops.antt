-- ===== src/Conditional/Stops.antt =====
-- What a response of 304 or 412 says of the request, and the headers it carries.
use http_rfc_utils.Common.{true, false, [], ◌∷◌, ◌++◌, Option, none, some, ◌≡◌, refl, arith, ◌⊎◌}
use http_rfc_utils.Common.Int.{ℤ}
use http_rfc_utils.Common.Results.{ok}
use http_rfc_utils.Text.{Text, codes}
use http_rfc_utils.Etag.{ETag, quoted, is_valid_etag_value, format_etag}
use http_rfc_utils.Conditional.{
  evaluate_if_match, evaluate_if_none_match, is_safe_method, Request, Headers, Status, not_modified,
  precondition_failed, stop, evaluate_if_modified_since, evaluate_if_unmodified_since,
  build_conditional_headers, stop_with, check_modified_since, check_none_match,
  evaluate_preconditions, default_cors_headers, last_modified_header,
}
use http_rfc_utils.Conditional.Precedence.{Given, Unless}

-- The tag can be formatted, if there is one.
abbrev pub Formats : Option ETag → Type 0
Formats none = Unit
Formats (some etag) = is_valid_etag_value etag.value ≡ true

abbrev pub etag_header : Option ETag → Headers
etag_header none = []
etag_header (some etag) = (codes "ETag", quoted etag.weak etag.value) ∷ []

-- The headers of a response of 304 or 412.
abbrev pub stop_headers : (ℤ → Text) → Option ETag → ℤ → Headers
stop_headers format_http_date current date =
    default_cors_headers
    ++ (etag_header current ++ (codes "Last-Modified", format_http_date date) ∷ [])

module _ (parse_http_date : Text → Option ℤ) (format_http_date : ℤ → Text) where
  -- Steps 1 and 2 pass.
  abbrev pub EarlierPass : Request → Option ETag → Option ℤ → Type 0
  EarlierPass r current date =
      Given r.if_match (λ h. evaluate_if_match h current ≡ true)
      × Unless r.if_match (
          Given r.if_unmodified_since
            (λ h. evaluate_if_unmodified_since parse_http_date h date ≡ true))

  -- A header that is present, with a property.
  abbrev pub Present : Option Text → (Text → Type 0) → Type 0
  Present none P = ⊥
  Present (some header) P = P header

  -- 304: a safe method, and step 3 hits, or step 4 finds the resource not modified. 412: step 1 or
  -- step 2 fails, or step 3 hits for another method.
  abbrev pub Stops : Status → Request → Option ETag → Option ℤ → Type 0
  Stops not_modified r current date =
      EarlierPass r current date
      × (is_safe_method r.method ≡ true)
      × (Present r.if_none_match (λ h. evaluate_if_none_match h current ≡ true)
          ⊎ ((r.if_none_match ≡ none)
              × Present r.if_modified_since
                  (λ h. evaluate_if_modified_since parse_http_date h date ≡ true)))
  Stops precondition_failed r current date =
      Present r.if_match (λ h. evaluate_if_match h current ≡ false)
      ⊎ ((r.if_match ≡ none)
          × Present r.if_unmodified_since
              (λ h. evaluate_if_unmodified_since parse_http_date h date ≡ false))
      ⊎ (EarlierPass r current date
          × (is_safe_method r.method ≡ false)
          × Present r.if_none_match (λ h. evaluate_if_none_match h current ≡ true))

  abbrev request : Text → Option Text → Option Text → Option Text → Option Text → Request
  request m im inm ims ius = record {
    method = m;
    if_match = im;
    if_none_match = inm;
    if_modified_since = ims;
    if_unmodified_since = ius;
  }

  stop_with-eq :
      (s status : Status) (current : Option ETag) (date : Option ℤ) (headers : Headers)
      → stop_with parse_http_date format_http_date s current date ≡ ok (stop status headers)
      → (s ≡ status)
        × (build_conditional_headers parse_http_date format_http_date current date ≡ ok headers)
  unfolding stop_with
  stop_with-eq s status current date headers h = ground arith

  stop_cases :
      (status : Status) (m : Text) (im inm ims ius : Option Text) (current : Option ETag)
      (date : Option ℤ) (headers : Headers)
      → evaluate_preconditions parse_http_date format_http_date
          (request m im inm ims ius)
          current
          date
        ≡ ok (stop status headers)
      → (build_conditional_headers parse_http_date format_http_date current date ≡ ok headers)
        × Stops status (request m im inm ims ius) current date
  unfolding evaluate_preconditions check_none_match check_modified_since
  stop_cases not_modified m none none none none current date headers h = ground arith
  stop_cases _ m _ _ _ _ current date headers h = ground (
    arith,
    stop_with-eq not_modified not_modified current date headers,
    stop_with-eq not_modified precondition_failed current date headers,
    stop_with-eq precondition_failed not_modified current date headers,
    stop_with-eq precondition_failed precondition_failed current date headers,
  )

  -- A response of 304 or 412 has its reason in the request, the earlier steps having passed, and
  -- carries the headers that are built of the current tag and date.
  pub evaluate_preconditions_stop :
      (r : Request) (current : Option ETag) (date : Option ℤ) (status : Status) (headers : Headers)
      → evaluate_preconditions parse_http_date format_http_date r current date
        ≡ ok (stop status headers)
      → (build_conditional_headers parse_http_date format_http_date current date ≡ ok headers)
        × Stops status r current date
  evaluate_preconditions_stop r current date status headers =
      stop_cases status r.method r.if_match r.if_none_match r.if_modified_since
        r.if_unmodified_since current date headers

  pub stop_with-Formats :
      (status : Status) (current : Option ETag) (date : ℤ)
      → Formats current
      → stop_with parse_http_date format_http_date status current (some date)
        ≡ ok (stop status (stop_headers format_http_date current date))
  unfolding stop_with build_conditional_headers last_modified_header format_etag
  stop_with-Formats status none date v = refl
  stop_with-Formats status (some etag) date v = ground arith
