-- ===== src/JsonPatch/Places.antt =====
-- Where an operation changes the document, and that the value is found there again.
use http_rfc_utils.Common.{
  ℕ, zero, suc, ◌<◌, ◌≤◌, true, false, List, [], ◌∷◌, Option, none, some, ◌≡◌, ◌≢◌, refl, arith,
  Option-cases, inl, inr, get_elem?,
}
use http_rfc_utils.Common.Results.{Result, ok, Result-cases}
use http_rfc_utils.Text.{Text, codes}
use http_rfc_utils.Text.Laws.{text_eq_iff, text_eq_refl}
use http_rfc_utils.Json.{Value, undefined, arr, obj, Items, nil, cons, Fields, set_key, elems}
use http_rfc_utils.Json.Members.{get-set_key}
use http_rfc_utils.JsonPatch.Values.{item_count, is_undefined}
use http_rfc_utils.JsonPatch.Paths.{
  Problem, parse_array_index, defined, child_at, get_at, set_item, insert_item, put_child,
  index_below, add_child, replace_child, change_at,
}

abbrev pub last_token : Text → List Text → Text
last_token token [] = token
last_token token (next ∷ tokens) = last_token next tokens

get_elem?-set_item :
    (i : ℕ) (v : Value) (xs : Items)
    → i < item_count xs
    → get_elem? (elems (set_item i v xs)) i ≡ some v
unfolding set_item elems item_count
get_elem?-set_item i v nil h = absurd (omega arith)
get_elem?-set_item zero v (cons x xs) h = refl
get_elem?-set_item (suc i) v (cons x xs) h = get_elem?-set_item i v xs (omega arith)

get_elem?-insert_item :
    (i : ℕ) (v : Value) (xs : Items)
    → i ≤ item_count xs
    → get_elem? (elems (insert_item i v xs)) i ≡ some v
unfolding insert_item elems item_count
get_elem?-insert_item zero v xs h = refl
get_elem?-insert_item (suc i) v nil h = absurd (omega arith)
get_elem?-insert_item (suc i) v (cons x xs) h = get_elem?-insert_item i v xs (omega arith)

get_elem?-below :
    (i : ℕ) (v : Value) (xs : Items) → get_elem? (elems xs) i ≡ some v → i < item_count xs
unfolding elems item_count
get_elem?-below i v nil h = absurd (ground arith)
get_elem?-below zero v (cons x xs) h = omega arith
get_elem?-below (suc i) v (cons x xs) h = let p = get_elem?-below i v xs h in omega arith

pub index_below-some :
    (bound : ℕ) (token : Text) (i : ℕ)
    → index_below bound token ≡ some i
    → (parse_array_index token ≡ some i) × (i < bound)
unfolding index_below
index_below-some bound token i h = elim (Option-cases (parse_array_index token)) [
  | inl e ↦ absurd (ground arith)
  | inr (n, e) ↦ (ground (arith, e), ground (arith, e))
]

pub defined-some : (o : Option Value) (v : Value) → defined o ≡ some v → o ≡ some v
unfolding defined
defined-some none v h = h
defined-some (some w) v h = ground arith

child_at-item :
    (xs : Items) (token : Text) (i : ℕ) (v : Value)
    → parse_array_index token ≡ some i
    → get_elem? (elems xs) i ≡ some v
    → is_undefined v ≡ false
    → child_at (arr xs) token ≡ some v
unfolding child_at defined
child_at-item xs token i v p e d = ground (arith, p, e, d)

pub child_at-put_child :
    (current next v : Value) (token : Text)
    → child_at current token ≡ some next
    → is_undefined v ≡ false
    → child_at (put_child current token v) token ≡ some v
unfolding put_child child_at
child_at-put_child (arr xs) next v token h d = elim (Option-cases (parse_array_index token)) [
  | inl e ↦ absurd (ground arith)
  | inr (i, e) ↦
      let found : get_elem? (elems xs) i ≡ some next = defined-some _ next (ground (arith, e)) in
      ground (
        arith,
        e,
        child_at-item (set_item i v xs) token i v e
            (get_elem?-set_item i v xs (get_elem?-below i next xs found)) d,
      )
]
child_at-put_child (obj true fs) next v token h d =
    unfold defined in ground (arith, get-set_key fs token token v, text_eq_refl token, d)
child_at-put_child _ next v token h d = absurd (ground arith)

pub child_at-defined :
    (w v : Value) (token : Text) → child_at w token ≡ some v → is_undefined w ≡ false
unfolding child_at is_undefined
child_at-defined undefined v token h = absurd (ground arith)
child_at-defined _ v token h = refl

-- A change at the parent that puts the value at the token.
abbrev pub Puts : (Value → Text → Result Problem Value) → Value → Text → Type 0
Puts edit v token =
    (parent changed : Value) → edit parent token ≡ ok changed → child_at changed token ≡ some v

get_at-one :
    (w v : Value) (token : Text) → child_at w token ≡ some v → get_at w (token ∷ []) ≡ some v
unfolding get_at
get_at-one w v token h = ground (arith, h)

pub get_at-some :
    (w x : Value) (t : Text) (ts : List Text) → get_at w (t ∷ ts) ≡ some x → is_undefined w ≡ false
unfolding get_at
get_at-some w x t ts g = elim (Option-cases (child_at w t)) [
  | inl n ↦ absurd (ground arith)
  | inr (y, n) ↦ child_at-defined w y t n
]

get_at-step :
    (w x y : Value) (t : Text) (ts : List Text)
    → child_at w t ≡ some x
    → get_at x ts ≡ some y
    → get_at w (t ∷ ts) ≡ some y
unfolding get_at
get_at-step w x y t ts a b = ground (arith, a, b)

pub get_at-change_at :
    (edit : Value → Text → Result Problem Value) (v : Value) (target next : Value) (token : Text)
    (tokens : List Text)
    → Puts edit v (last_token token tokens)
    → change_at edit target token tokens ≡ ok next
    → get_at next (token ∷ tokens) ≡ some v
unfolding change_at
get_at-change_at edit v target next token [] puts h = get_at-one next v token (puts target next h)
get_at-change_at edit v target next token (u ∷ us) puts h =
    elim (Option-cases (child_at target token)) [
      | inl e ↦ absurd (ground arith)
      | inr (inner, e) ↦ elim (Result-cases (change_at edit inner u us)) [
        | inr (bad, c) ↦ absurd (ground arith)
        | inl (changed, c) ↦
            let found = get_at-change_at edit v inner changed u us puts c in
            let step =
              child_at-put_child target inner changed token e (get_at-some changed v u us found) in
            get_at-step next changed v token (u ∷ us) (ground (arith, step)) found
      ]
    ]

child_at-member :
    (fs : Fields) (token : Text) (v : Value)
    → is_undefined v ≡ false
    → child_at (obj true (set_key fs token v)) token ≡ some v
unfolding child_at defined
child_at-member fs token v d = ground (arith, get-set_key fs token token v, text_eq_refl token, d)

-- A value that is added is found at its token, but for the token that stands for the end.
pub add_child-Puts :
    (v : Value) (token : Text)
    → is_undefined v ≡ false
    → token ≢ codes "-"
    → Puts (add_child v) v token
unfolding add_child
add_child-Puts v token d n (arr xs) changed h =
    elim (Option-cases (index_below (suc (item_count xs)) token)) [
      | inl e ↦ absurd (ground (arith, text_eq_iff token (codes "-")))
      | inr (i, e) ↦
          let (p, b) = index_below-some (suc (item_count xs)) token i e in
          let same : changed ≡ arr (insert_item i v xs) =
            ground (arith, text_eq_iff token (codes "-"), e) in
          rw same (
            child_at-item (insert_item i v xs) token i v p
              (get_elem?-insert_item i v xs (omega arith)) d)
    ]
add_child-Puts v token d n (obj true fs) changed h =
    let same : changed ≡ obj true (set_key fs token v) = ground arith in
    rw same (child_at-member fs token v d)
add_child-Puts v token d n _ changed h = absurd (ground arith)

pub replace_child-Puts :
    (v : Value) (token : Text) → is_undefined v ≡ false → Puts (replace_child v) v token
unfolding replace_child
replace_child-Puts v token d (arr xs) changed h =
    elim (Option-cases (index_below (item_count xs) token)) [
      | inl e ↦ absurd (ground arith)
      | inr (i, e) ↦
          let (p, b) = index_below-some (item_count xs) token i e in
          let same : changed ≡ arr (set_item i v xs) = ground (arith, e) in
          rw same (child_at-item (set_item i v xs) token i v p (get_elem?-set_item i v xs b) d)
    ]
replace_child-Puts v token d (obj true fs) changed h =
    let same : changed ≡ obj true (set_key fs token v) = ground arith in
    rw same (child_at-member fs token v d)
replace_child-Puts v token d _ changed h = absurd (ground arith)
