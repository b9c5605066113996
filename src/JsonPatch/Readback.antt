-- ===== src/JsonPatch/Readback.antt =====
-- What an operation has written is read back at its path.
use http_rfc_utils.Common.{
  ℕ, true, false, List, [], ◌∷◌, none, some, ◌≡◌, ◌≢◌, refl, arith, Option-cases, Bool-cases, inl,
  inr, get_elem?,
}
use http_rfc_utils.Common.Results.{ok, Result-cases}
use http_rfc_utils.Text.{Text, codes, text_eq, parse_int}
use http_rfc_utils.Text.Laws.{text_eq_iff}
use http_rfc_utils.Json.{Value, arr, obj, elems, get}
use http_rfc_utils.JsonPointer.{
  parse_json_pointer, child, evaluate_from, evaluate_json_pointer, is_valid_array_index, numeral,
}
use http_rfc_utils.JsonMergePatch.Distinct.{DistinctKeys}
use http_rfc_utils.JsonPatch.Values.{is_json_value}
use http_rfc_utils.JsonPatch.Paths.{
  Problem, invalid_path, missing_path, child_at, get_at, parse_array_index, change_at, add_child,
  replace_child,
}
use http_rfc_utils.JsonPatch.Document.{map_error}
use http_rfc_utils.JsonPatch.{
  parse_pointer_tokens, add_at, replace_at, apply_add, apply_replace, get_at_path, apply_test,
}
use http_rfc_utils.JsonPatch.Places.{
  last_token, get_at-change_at, add_child-Puts, replace_child-Puts, defined-some,
}
use http_rfc_utils.JsonPatch.Copies.{cloned-eq, is_json_value-defined, deep_equal_refl}

-- A path that does not end in the token for the end of an array.
abbrev pub NotAtEnd : List Text → Type 0
NotAtEnd [] = Unit
NotAtEnd (token ∷ tokens) = last_token token tokens ≢ codes "-"

add_at-get_at :
    (index : ℕ) (v target next : Value) (tokens : List Text)
    → is_json_value 0 v ≡ true
    → NotAtEnd tokens
    → add_at index v target tokens ≡ ok next
    → get_at next tokens ≡ some v
unfolding add_at
add_at-get_at index v target next [] j n h = unfold get_at in ground arith
add_at-get_at index v target next (t ∷ ts) j n h =
    elim (Result-cases (change_at (add_child v) target t ts)) [
      | inl (changed, e) ↦
          get_at-change_at (add_child v) v target next t ts
            (add_child-Puts v (last_token t ts) (is_json_value-defined 0 v j) n) (ground (arith, e))
      | inr (bad, e) ↦ absurd (ground arith)
    ]

replace_at-get_at :
    (index : ℕ) (v target next : Value) (tokens : List Text)
    → is_json_value 0 v ≡ true
    → replace_at index v target tokens ≡ ok next
    → get_at next tokens ≡ some v
unfolding replace_at
replace_at-get_at index v target next [] j h = unfold get_at in ground arith
replace_at-get_at index v target next (t ∷ ts) j h =
    elim (Result-cases (change_at (replace_child v) target t ts)) [
      | inl (changed, e) ↦
          get_at-change_at (replace_child v) v target next t ts
            (replace_child-Puts v (last_token t ts) (is_json_value-defined 0 v j))
            (ground (arith, e))
      | inr (bad, e) ↦ absurd (ground arith)
    ]

dash_is_no_index : parse_array_index (codes "-") ≡ none
unfolding parse_array_index text_eq numeral
dash_is_no_index = refl

empty_is_no_index : parse_array_index [] ≡ none
unfolding parse_array_index text_eq numeral
empty_is_no_index = refl

index_is_valid :
    (token : Text) (i : ℕ)
    → parse_array_index token ≡ some i
    → (text_eq token (codes "-") ≡ false)
      × (is_valid_array_index token ≡ true)
      × (parse_int token ≡ i)
unfolding parse_array_index is_valid_array_index
index_is_valid token i h = elim (Bool-cases (text_eq token (codes "-"))) [
  | inl e ↦
      let same : token ≡ codes "-" = (text_eq_iff token (codes "-")).0 e in
      absurd (ground (arith, same, dash_is_no_index, h))
  | inr e ↦ elim (Bool-cases (text_eq token [])) [
    | inl z ↦
        let same : token ≡ [] = (text_eq_iff token []).0 z in
        absurd (ground (arith, same, empty_is_no_index, h))
    | inr z ↦ (e, ground (arith, e, z, h), ground (arith, h))
  ]
]

child_at-child : (v w : Value) (token : Text) → child_at v token ≡ some w → child v token ≡ some w
unfolding child_at child
child_at-child (arr xs) w token h = elim (Option-cases (parse_array_index token)) [
  | inl e ↦ absurd (ground arith)
  | inr (i, e) ↦
      let (d, valid, same) = index_is_valid token i e in
      let found : get_elem? (elems xs) i ≡ some w = defined-some _ w (ground (arith, e)) in
      ground (arith, d, valid, same, found)
]
child_at-child (obj true fs) w token h = defined-some (get fs token) w h
child_at-child _ w token h = absurd (ground arith)

get_at-evaluate_from :
    (v w : Value) (tokens : List Text) → get_at v tokens ≡ some w → evaluate_from v tokens ≡ w
unfolding get_at evaluate_from
get_at-evaluate_from v w [] h = ground arith
get_at-evaluate_from v w (t ∷ ts) h = elim (Option-cases (child_at v t)) [
  | inl e ↦ absurd (ground arith)
  | inr (u, e) ↦ ground (arith, child_at-child v u t e, get_at-evaluate_from u w ts)
]

-- What `getAtPath` finds is what `evaluateJsonPointer` evaluates to.
pub evaluate_json_pointer-get_at_path :
    (index : ℕ) (bad_pointer missing : Problem) (target v : Value) (path : Text)
    → get_at_path index bad_pointer missing target path ≡ ok v
    → evaluate_json_pointer path target ≡ v
unfolding get_at_path parse_pointer_tokens evaluate_json_pointer
evaluate_json_pointer-get_at_path index bad_pointer missing target v path h =
    elim (Option-cases (parse_json_pointer path)) [
      | inl e ↦ absurd (ground arith)
      | inr (tokens, e) ↦ elim (Option-cases (get_at target tokens)) [
        | inl n ↦ absurd (ground arith)
        | inr (w, g) ↦ ground (arith, e, g, get_at-evaluate_from target w tokens g)
      ]
    ]

-- A JSON value that "add" has written is what the path then evaluates to, unless the path ends in
-- the token for the end of an array.
pub evaluate_json_pointer-apply_add :
    (index : ℕ) (target v next : Value) (path : Text)
    → is_json_value 0 v ≡ true
    → ((tokens : List Text) → parse_json_pointer path ≡ some tokens → NotAtEnd tokens)
    → apply_add index target path v ≡ ok next
    → evaluate_json_pointer path next ≡ v
unfolding apply_add parse_pointer_tokens evaluate_json_pointer
evaluate_json_pointer-apply_add index target v next path j n h =
    elim (Option-cases (parse_json_pointer path)) [
      | inl e ↦ absurd (ground arith)
      | inr (tokens, e) ↦
          let found =
            add_at-get_at index v target next tokens j (n tokens e)
              (ground (arith, e, cloned-eq v j)) in
          ground (arith, e, get_at-evaluate_from next v tokens found)
    ]

-- A JSON value that "replace" has written is what the path then evaluates to.
pub evaluate_json_pointer-apply_replace :
    (index : ℕ) (target v next : Value) (path : Text)
    → is_json_value 0 v ≡ true
    → apply_replace index target path v ≡ ok next
    → evaluate_json_pointer path next ≡ v
unfolding apply_replace parse_pointer_tokens evaluate_json_pointer
evaluate_json_pointer-apply_replace index target v next path j h =
    elim (Option-cases (parse_json_pointer path)) [
      | inl e ↦ absurd (ground arith)
      | inr (tokens, e) ↦
          let found =
            replace_at-get_at index v target next tokens j (ground (arith, e, cloned-eq v j)) in
          ground (arith, e, get_at-evaluate_from next v tokens found)
    ]

-- A "test" with the JSON value that stands at the path passes, and leaves the document as it is.
pub apply_test-get_at_path :
    (index : ℕ) (target v : Value) (path : Text)
    → get_at_path index invalid_path missing_path target path ≡ ok v
    → is_json_value 0 v ≡ true
    → DistinctKeys v
    → apply_test index target path v ≡ ok target
unfolding apply_test map_error
apply_test-get_at_path index target v path h j k = ground (arith, h, deep_equal_refl 0 v j k)
