-- ===== src/Conditional/Precedence.antt =====
-- RFC 9110 section 13.2.2: which preconditions are looked at, and what each decides.
use http_rfc_utils.Common.{
  Bool, true, false, ◌&&◌, List, [], ◌∷◌, Option, none, some, ◌≡◌, ◌≢◌, ◌↔◌, refl, arith, ◌⊎◌, inl,
  inr, Bool-cases,
}
use http_rfc_utils.Common.Int.{ℤ}
use http_rfc_utils.Common.Results.{ok}
use http_rfc_utils.Text.{Text}
use http_rfc_utils.Etag.{ETag, format_etag, compare_etags}
use http_rfc_utils.Etag.Compare.{Same, compare_etags_iff}
use http_rfc_utils.Conditional.{
  Condition, wildcard, tags, any_matches, if_match_passes, if_none_match_hits, parse_if_none_match,
  parse_if_match, evaluate_if_match, evaluate_if_none_match, is_safe_method, Request, Status,
  not_modified, precondition_failed, proceed, evaluate_if_modified_since,
  evaluate_if_unmodified_since, build_conditional_headers, stop_with, check_modified_since,
  check_none_match, evaluate_preconditions,
}

-- Some tag of the list is the same as the current one.
abbrev pub Among : Bool → ETag → List ETag → Type 0
Among strong current [] = ⊥
Among strong current (t ∷ ts) = Same strong t current ⊎ Among strong current ts

any_matches-Among :
    (strong : Bool) (current : ETag) (ts : List ETag)
    → (any_matches ts current strong ≡ true) ↔ Among strong current ts
unfolding any_matches
any_matches-Among strong current [] = (λ h. absurd (ground arith), λ h. absurd h)
any_matches-Among strong current (t ∷ ts) =
    let (to, from) = compare_etags_iff t current strong in
    let (to', from') = any_matches-Among strong current ts in
    elim (Bool-cases (compare_etags t current strong)) [
      | inl same ↦ (λ h. inl (to same), λ h. ground (arith, same))
      | inr differ ↦ (
        λ h. inr (to' (ground (arith, differ))),
        λ h. elim h [
          | inl e ↦ absurd (ground (arith, from e))
          | inr later ↦ ground (arith, from' later)
        ],
      )
    ]

-- The header is the wildcard, or lists a tag that is the same.
abbrev pub Meets : Bool → ETag → Condition → Type 0
Meets strong current wildcard = Unit
Meets strong current (tags ts) = Among strong current ts

if_match_passes_iff :
    (c : Condition) (current : Option ETag)
    → (if_match_passes c current ≡ true)
      ↔ ((etag : ETag) × (current ≡ some etag) × Meets true etag c)
unfolding if_match_passes
if_match_passes_iff wildcard none = (λ h. absurd (ground arith), λ (e, h, m). absurd (ground arith))
if_match_passes_iff (tags ts) none =
    (λ h. absurd (ground arith), λ (e, h, m). absurd (ground arith))
if_match_passes_iff wildcard (some etag) = (λ h. (etag, refl, tt), λ h. refl)
if_match_passes_iff (tags ts) (some etag) = (
  λ h. (etag, refl, (any_matches-Among true etag ts).0 h),
  λ (e, h, m). let same : etag ≡ e = ground arith in (any_matches-Among true etag ts).1 (rw same m),
)

-- If-Match passes exactly if the resource exists and the header is the wildcard or lists a tag that
-- equals the current one by the strong comparison.
pub evaluate_if_match_iff :
    (header : Text) (current : Option ETag)
    → (evaluate_if_match header current ≡ true)
      ↔ ((etag : ETag) × (current ≡ some etag) × Meets true etag (parse_if_match header))
unfolding evaluate_if_match
evaluate_if_match_iff header current = if_match_passes_iff (parse_if_match header) current

if_none_match_hits_iff :
    (c : Condition) (current : Option ETag)
    → (if_none_match_hits c current ≡ true)
      ↔ ((etag : ETag) × (current ≡ some etag) × Meets false etag c)
unfolding if_none_match_hits
if_none_match_hits_iff wildcard none =
    (λ h. absurd (ground arith), λ (e, h, m). absurd (ground arith))
if_none_match_hits_iff (tags ts) none =
    (λ h. absurd (ground arith), λ (e, h, m). absurd (ground arith))
if_none_match_hits_iff wildcard (some etag) = (λ h. (etag, refl, tt), λ h. refl)
if_none_match_hits_iff (tags ts) (some etag) = (
  λ h. (etag, refl, (any_matches-Among false etag ts).0 h),
  λ (e, h, m).
      let same : etag ≡ e = ground arith in (any_matches-Among false etag ts).1 (rw same m),
)

-- If-None-Match is met exactly if the resource exists and the header is the wildcard or lists a tag
-- that equals the current one by the weak comparison.
pub evaluate_if_none_match_iff :
    (header : Text) (current : Option ETag)
    → (evaluate_if_none_match header current ≡ true)
      ↔ ((etag : ETag) × (current ≡ some etag) × Meets false etag (parse_if_none_match header))
unfolding evaluate_if_none_match
evaluate_if_none_match_iff header current =
    if_none_match_hits_iff (parse_if_none_match header) current

-- A header that is absent asks nothing.
abbrev pub Given : Option Text → (Text → Type 0) → Type 0
Given none P = Unit
Given (some header) P = P header

-- What is asked only where another header is absent.
abbrev pub Unless : Option Text → Type 0 → Type 0
Unless none P = P
Unless (some header) P = Unit

module _ (parse_http_date : Text → Option ℤ) (format_http_date : ℤ → Text) where
  -- Every precondition that RFC 9110 section 13.2.2 looks at passes: If-Unmodified-Since counts only
  -- without If-Match, If-Modified-Since only without If-None-Match and for GET and HEAD.
  abbrev pub Passes : Request → Option ETag → Option ℤ → Type 0
  Passes r current date =
      Given r.if_match (λ h. evaluate_if_match h current ≡ true)
      × Unless r.if_match (
          Given r.if_unmodified_since
            (λ h. evaluate_if_unmodified_since parse_http_date h date ≡ true))
      × Given r.if_none_match (λ h. evaluate_if_none_match h current ≡ false)
      × Unless r.if_none_match (
          Given r.if_modified_since (λ h.
            (is_safe_method r.method && evaluate_if_modified_since parse_http_date h date) ≡ false))

  abbrev request : Text → Option Text → Option Text → Option Text → Option Text → Request
  request m im inm ims ius = record {
    method = m;
    if_match = im;
    if_none_match = inm;
    if_modified_since = ims;
    if_unmodified_since = ius;
  }

  stop_with-ne-proceed :
      (status : Status) (current : Option ETag) (date : Option ℤ)
      → stop_with parse_http_date format_http_date status current date ≢ ok proceed
  unfolding stop_with build_conditional_headers format_etag
  stop_with-ne-proceed status none date h = ground arith
  stop_with-ne-proceed status (some etag) date h = ground arith

  proceed_cases :
      (m : Text) (im inm ims ius : Option Text) (current : Option ETag) (date : Option ℤ)
      → (evaluate_preconditions parse_http_date format_http_date
            (request m im inm ims ius)
            current
            date
          ≡ ok proceed)
        ↔ Passes (request m im inm ims ius) current date
  unfolding evaluate_preconditions check_none_match check_modified_since
  proceed_cases m none none none none current date = (λ h. ground arith, λ p. refl)
  proceed_cases m _ _ _ _ current date = (
    λ h. ground (
      arith,
      stop_with-ne-proceed not_modified current date,
      stop_with-ne-proceed precondition_failed current date,
    ),
    λ p. ground arith,
  )

  -- The request goes on exactly if every precondition that is looked at, in the order of RFC 9110
  -- section 13.2.2, passes.
  pub evaluate_preconditions_iff :
      (r : Request) (current : Option ETag) (date : Option ℤ)
      → (evaluate_preconditions parse_http_date format_http_date r current date ≡ ok proceed)
        ↔ Passes r current date
  evaluate_preconditions_iff r =
      proceed_cases r.method r.if_match r.if_none_match r.if_modified_since r.if_unmodified_since
