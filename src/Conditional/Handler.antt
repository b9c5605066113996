-- ===== src/Conditional/Handler.antt =====
-- What `handleConditionalRequest` of conditional.ts answers on every branch.
use http_rfc_utils.Common.{
  Bool, true, false, [], ◌∷◌, ◌++◌, Option, none, some, ◌≡◌, ◌≢◌, refl, arith, ◌⊎◌, all, inl, inr,
  Bool-cases,
}
use http_rfc_utils.Common.Int.{ℤ}
use http_rfc_utils.Common.Results.{ok, err, Result-cases}
use http_rfc_utils.Text.{Text, codes, text_eq}
use http_rfc_utils.Etag.{ETag, EtagError, quoted, format_etag, parse_etag}
use http_rfc_utils.Etag.Format.{parse_etag_iff}
use http_rfc_utils.Conditional.{
  Request, Headers, Status, proceed, stop, default_cors_headers, build_conditional_headers,
  last_modified_header, stop_with, check_modified_since, check_none_match, evaluate_preconditions,
  fill_header, response_refused, new_response, handle_conditional_request,
}
use http_rfc_utils.Conditional.Precedence.{Passes, evaluate_preconditions_iff}
use http_rfc_utils.Conditional.Stops.{Formats, stop_headers, Stops, evaluate_preconditions_stop}

module _ (parse_http_date : Text → Option ℤ) (format_http_date : ℤ → Text) where
  abbrev request : Text → Option Text → Option Text → Option Text → Option Text → Request
  request m im inm ims ius = record {
    method = m;
    if_match = im;
    if_none_match = inm;
    if_modified_since = ims;
    if_unmodified_since = ius;
  }

  parse_etag-Formats :
      (text : Text) (parsed : Option ETag) → parse_etag text ≡ parsed → Formats parsed
  parse_etag-Formats text none p = tt
  parse_etag-Formats text (some etag) p = ((parse_etag_iff text etag).0 p).0

  throw_cases :
      (m : Text) (im inm ims ius : Option Text) (current : Option ETag) (date : Option ℤ)
      (e : EtagError)
      → evaluate_preconditions parse_http_date format_http_date
          (request m im inm ims ius)
          current
          date
        ≡ err e
      → build_conditional_headers parse_http_date format_http_date current date ≡ err e
  unfolding evaluate_preconditions check_none_match check_modified_since stop_with
  throw_cases m none none none none current date e h = ground arith
  throw_cases m _ _ _ _ current date e h = ground arith

  build_conditional_headers-Formats :
      (current : Option ETag) (date : ℤ) (headers : Headers)
      → Formats current
      → build_conditional_headers parse_http_date format_http_date current (some date) ≡ ok headers
      → headers ≡ stop_headers format_http_date current date
  unfolding build_conditional_headers last_modified_header format_etag
  build_conditional_headers-Formats none date headers v h = ground arith
  build_conditional_headers-Formats (some etag) date headers v h = ground arith

  build_conditional_headers-ne-err :
      (current : Option ETag) (date : Option ℤ) (e : EtagError)
      → Formats current
      → build_conditional_headers parse_http_date format_http_date current date ≢ err e
  unfolding build_conditional_headers format_etag
  build_conditional_headers-ne-err none date e v h = ground arith
  build_conditional_headers-ne-err (some etag) date e v h = ground arith

  -- The headers of the handler's response: the formatted tag where the text is one, and otherwise
  -- the text itself.
  abbrev pub response_headers : Text → Option ETag → ℤ → Headers
  response_headers text none date =
      default_cors_headers
      ++ ((codes "Last-Modified", format_http_date date) ∷ (codes "ETag", text) ∷ [])
  response_headers text (some etag) date = stop_headers format_http_date (some etag) date

  fill_headers :
      (text : Text) (parsed : Option ETag) (date : ℤ)
      → fill_header parse_http_date format_http_date
          (codes "Last-Modified")
          (format_http_date date)
          (fill_header parse_http_date format_http_date
            (codes "ETag")
            text
            (stop_headers format_http_date parsed date))
        ≡ response_headers text parsed date
  unfolding fill_header text_eq quoted
  fill_headers text none date = ground arith
  fill_headers text (some etag) date = ground arith

  -- The three branches: the request goes on, the platform takes the headers, or refuses one.
  abbrev pub Answered : (Text → Text → Bool) → Request → Text → ℤ → Type 0
  Answered takes_header r text date =
      let answer =
        handle_conditional_request parse_http_date format_http_date takes_header r text date in
      let headers = response_headers text (parse_etag text) date in
      let taken = all (λ h. takes_header h.0 h.1) headers in
      (Passes parse_http_date format_http_date r (parse_etag text) (some date) × (answer ≡ ok none))
      ⊎ ((status : Status) × Stops parse_http_date format_http_date status r (parse_etag text)
            (some date)
          × (((taken ≡ true) × (answer ≡ ok (some (status, headers))))
              ⊎ ((taken ≡ false) × (answer ≡ err response_refused))))

  -- Whatever the request, the text given as the current tag and the date: where the preconditions
  -- pass, the handler answers `null`. Where one stops the request, it answers the status of that
  -- step, with the date and the formatted tag as headers, or the text itself in place of a tag where
  -- `parseETag` refuses it, if the platform takes each of the headers, and throws what `new Response`
  -- throws if it refuses one. It throws nothing else.
  pub handle_conditional_request_cases :
      (takes_header : Text → Text → Bool) (r : Request) (text : Text) (date : ℤ)
      → Answered takes_header r text date
  unfolding handle_conditional_request new_response
  handle_conditional_request_cases takes_header r text date =
      let parsed = parse_etag text in
      let formats = parse_etag-Formats text parsed refl in
      elim (Result-cases
        (evaluate_preconditions parse_http_date format_http_date r parsed (some date))) [
          | inr (e, h) ↦ absurd (
              build_conditional_headers-ne-err parsed (some date) e formats (
                throw_cases r.method r.if_match r.if_none_match r.if_modified_since
                  r.if_unmodified_since parsed (some date) e h))
          | inl (proceed, h) ↦ inl (
            (evaluate_preconditions_iff parse_http_date format_http_date r parsed (some date)).0 h,
            rw (handle_conditional_request, h) refl,
          )
          | inl (stop status headers, h) ↦
              let (built, stops) =
                evaluate_preconditions_stop parse_http_date format_http_date r parsed (some date)
                  status headers h in
              let same = build_conditional_headers-Formats parsed date headers formats built in
              let filled = fill_headers text parsed date in
              inr (
                status,
                stops,
                elim (Bool-cases
                    (all (λ h. takes_header h.0 h.1) (response_headers text parsed date))) [
                      | inl taken ↦
                          inl (taken, rw (handle_conditional_request, h, same, filled, taken) refl)
                      | inr refused ↦
                          inr (
                            refused,
                            rw (handle_conditional_request, h, same, filled, refused) refl,
                          )
                    ],
              )
        ]
