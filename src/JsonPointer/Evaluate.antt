-- ===== src/JsonPointer/Evaluate.antt =====
-- RFC 6901 section 4 as a relation: which value a list of tokens references in a document.
use http_rfc_utils.Common.{
  ℕ, Bool, List, [], ◌∷◌, ◌++◌, some, ◌≡◌, ◌≢◌, refl, arith, ◌↔◌, inl, inr, get_elem?, Option-cases,
}
use http_rfc_utils.Text.{Text, parse_int}
use http_rfc_utils.Json.{Value, undefined, arr, obj, Items, Fields, get, elems}
use http_rfc_utils.JsonPointer.{
  child, evaluate_from, evaluate_json_pointer, parse_json_pointer, format_json_pointer,
}
use http_rfc_utils.JsonPointer.Grammar.{Pointer, parse_json_pointer_iff}
use http_rfc_utils.JsonPointer.RoundTrip.{parse_json_pointer-format_json_pointer}
use http_rfc_utils.JsonPointer.Index.{
  ElementIndex, IsPosition-ElementIndex, ElementIndex-IsPosition,
}

-- The value that tokens reference: an element by its index, a member by its key.
pub data Resolves : Value → List Text → Value → Type 0 where
  here : {v : Value} → Resolves v [] v
  element :
      {xs : Items} {token : Text} {tokens : List Text} {n : ℕ} {v w : Value}
      → ElementIndex token n
      → get_elem? (elems xs) n ≡ some v
      → Resolves v tokens w
      → Resolves (arr xs) (token ∷ tokens) w
  member :
      {plain : Bool} {fs : Fields} {token : Text} {tokens : List Text} {v w : Value}
      → get fs token ≡ some v
      → Resolves v tokens w
      → Resolves (obj plain fs) (token ∷ tokens) w

child-step :
    (v u w : Value) (token : Text) (tokens : List Text)
    → child v token ≡ some u
    → Resolves u tokens w
    → Resolves v (token ∷ tokens) w
unfolding child
child-step (arr xs) u w token tokens h r =
    element (IsPosition-ElementIndex token (parse_int token) (ground arith, ground arith, refl))
      (ground arith) r
child-step (obj plain fs) u w token tokens h r = member h r
child-step _ u w token tokens h r = cc

evaluate_from-undefined : (tokens : List Text) → evaluate_from undefined tokens ≡ undefined
unfolding evaluate_from
evaluate_from-undefined [] = refl
evaluate_from-undefined (t ∷ ts) = refl

evaluate_from-Resolves :
    (tokens : List Text) (v w : Value)
    → evaluate_from v tokens ≡ w
    → w ≢ undefined
    → Resolves v tokens w
unfolding evaluate_from
evaluate_from-Resolves [] v w h d = rw h here
evaluate_from-Resolves (t ∷ ts) v w h d = elim (Option-cases (child v t)) [
  | inl missing ↦ absurd (d (ground arith))
  | inr (u, found) ↦ child-step v u w t ts found (evaluate_from-Resolves ts u w (ground arith) d)
]

Resolves-evaluate_from :
    {v : Value} {tokens : List Text} {w : Value} → Resolves v tokens w → evaluate_from v tokens ≡ w
unfolding evaluate_from child
Resolves-evaluate_from here = refl
Resolves-evaluate_from (element {xs} {token} {n} i e r) =
    ground (arith, ElementIndex-IsPosition token n i, Resolves-evaluate_from r)
Resolves-evaluate_from (member e r) = ground (arith, e, Resolves-evaluate_from r)

-- A pointer evaluates to a value other than `undefined` exactly if it is well-formed and its
-- tokens reference that value, by the rules of RFC 6901 section 4.
pub evaluate_json_pointer_iff :
    (pointer : Text) (document v : Value)
    → v ≢ undefined
    → (evaluate_json_pointer pointer document ≡ v)
      ↔ ((tokens : List Text) × Pointer pointer tokens × Resolves document tokens v)
unfolding evaluate_json_pointer
evaluate_json_pointer_iff pointer document v d = (
  λ h. elim (Option-cases (parse_json_pointer pointer)) [
    | inl bad ↦ absurd (d (ground arith))
    | inr (ts, parsed) ↦ (
      ts,
      (parse_json_pointer_iff pointer ts).0 parsed,
      evaluate_from-Resolves ts document v (ground arith) d,
    )
  ],
  λ (ts, p, r).
      rw ((parse_json_pointer_iff pointer ts).1 p, evaluate_json_pointer)
        (Resolves-evaluate_from r),
)

evaluate_from-append :
    (ts us : List Text) (v : Value)
    → evaluate_from v (ts ++ us) ≡ evaluate_from (evaluate_from v ts) us
unfolding evaluate_from
evaluate_from-append [] us v = refl
evaluate_from-append (t ∷ ts) us v = elim (Option-cases (child v t)) [
  | inl missing ↦ ground (arith, evaluate_from-undefined us)
  | inr (u, found) ↦ ground (arith, evaluate_from-append ts us u)
]

-- Evaluating the pointer of two joined lists of tokens is evaluating the first, and the second in
-- what it references.
pub evaluate_json_pointer-append :
    (ts us : List Text) (document : Value)
    → evaluate_json_pointer (format_json_pointer (ts ++ us)) document
      ≡ evaluate_json_pointer
          (format_json_pointer us)
          (evaluate_json_pointer (format_json_pointer ts) document)
unfolding evaluate_json_pointer
evaluate_json_pointer-append ts us document = ground (
  arith,
  parse_json_pointer-format_json_pointer (ts ++ us),
  parse_json_pointer-format_json_pointer us,
  parse_json_pointer-format_json_pointer ts,
  evaluate_from-append ts us document,
)
