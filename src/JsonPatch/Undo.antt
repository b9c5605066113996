-- ===== src/JsonPatch/Undo.antt =====
-- A removal undoes an addition.
use http_rfc_utils.Common.{
  ℕ, zero, suc, ◌≤◌, true, false, List, [], ◌∷◌, some, ◌≡◌, ◌≢◌, refl, arith, ap, Option-cases,
  Bool-cases, inl, inr, get_elem?,
}
use http_rfc_utils.Common.Results.{ok, Result-cases}
use http_rfc_utils.Text.{Text, codes, text_eq}
use http_rfc_utils.Text.Laws.{text_eq_iff, text_eq_refl}
use http_rfc_utils.Json.{
  Value, arr, obj, Items, nil, cons, Fields, end, field, get, set_key, elems, has_own_key,
}
use http_rfc_utils.Json.Members.{get-set_key, Absent, delete_key-set_key}
use http_rfc_utils.JsonPatch.Values.{is_json_value, item_count, is_undefined}
use http_rfc_utils.JsonPatch.Paths.{
  parse_array_index, child_at, set_item, insert_item, remove_item, put_child, index_below,
  add_child, remove_child, change_at,
}
use http_rfc_utils.JsonPointer.{parse_json_pointer}
use http_rfc_utils.JsonPatch.Document.{map_error}
use http_rfc_utils.JsonPatch.{apply_add, apply_remove, add_at, remove_at, parse_pointer_tokens}
use http_rfc_utils.JsonPatch.Copies.{cloned-eq}
use http_rfc_utils.JsonPatch.Places.{last_token, index_below-some, defined-some, child_at-put_child}

item_count-insert_item :
    (i : ℕ) (v : Value) (xs : Items) → item_count (insert_item i v xs) ≡ suc (item_count xs)
unfolding insert_item item_count
item_count-insert_item zero v xs = refl
item_count-insert_item (suc i) v nil = refl
item_count-insert_item (suc i) v (cons x xs) = ap suc (item_count-insert_item i v xs)

remove_item-insert_item :
    (i : ℕ) (v : Value) (xs : Items) → i ≤ item_count xs → remove_item i (insert_item i v xs) ≡ xs
unfolding insert_item remove_item item_count
remove_item-insert_item zero v xs h = refl
remove_item-insert_item (suc i) v nil h = absurd (omega arith)
remove_item-insert_item (suc i) v (cons x xs) h =
    ap (cons x) (remove_item-insert_item i v xs (omega arith))

set_item-set_item :
    (i : ℕ) (v w : Value) (xs : Items) → set_item i v (set_item i w xs) ≡ set_item i v xs
unfolding set_item
set_item-set_item i v w nil = refl
set_item-set_item zero v w (cons x xs) = refl
set_item-set_item (suc i) v w (cons x xs) = ap (cons x) (set_item-set_item i v w xs)

set_item-get_elem? :
    (i : ℕ) (v : Value) (xs : Items) → get_elem? (elems xs) i ≡ some v → set_item i v xs ≡ xs
unfolding set_item elems
set_item-get_elem? i v nil h = refl
set_item-get_elem? zero v (cons x xs) h = ground arith
set_item-get_elem? (suc i) v (cons x xs) h = ap (cons x) (set_item-get_elem? i v xs h)

set_key-set_key :
    (fs : Fields) (k : Text) (v w : Value) → set_key (set_key fs k w) k v ≡ set_key fs k v
unfolding set_key
set_key-set_key end k v w = ground (arith, text_eq_refl k)
set_key-set_key (field i x fs) k v w =
    ground (arith, set_key-set_key fs k v w, text_eq_refl k, text_eq_iff i k)

set_key-get : (fs : Fields) (k : Text) (v : Value) → get fs k ≡ some v → set_key fs k v ≡ fs
unfolding set_key get
set_key-get end k v h = absurd (ground arith)
set_key-get (field i x fs) k v h = ground (arith, set_key-get fs k v, text_eq_iff i k)

-- A child that is replaced and put back leaves the container as it was.
put_child-put_child :
    (current inner w : Value) (token : Text)
    → child_at current token ≡ some inner
    → put_child (put_child current token w) token inner ≡ current
unfolding put_child child_at
put_child-put_child (arr xs) inner w token h = elim (Option-cases (parse_array_index token)) [
  | inl e ↦ absurd (ground arith)
  | inr (i, e) ↦
      let found : get_elem? (elems xs) i ≡ some inner = defined-some _ inner (ground (arith, e)) in
      ground (arith, e, set_item-set_item i inner w xs, set_item-get_elem? i inner xs found)
]
put_child-put_child (obj true fs) inner w token h = ground (
  arith,
  set_key-set_key fs token inner w,
  set_key-get fs token inner (defined-some (get fs token) inner h),
)
put_child-put_child _ inner w token h = absurd (ground arith)

-- An array, or an object without the member.
abbrev pub HasRoom : Value → Text → Type 0
HasRoom (obj true fs) token = Absent token fs
HasRoom current token = Unit

remove_child-add_child :
    (v parent changed : Value) (token : Text)
    → token ≢ codes "-"
    → HasRoom parent token
    → add_child v parent token ≡ ok changed
    → remove_child changed token ≡ ok parent
unfolding add_child remove_child has_own_key
remove_child-add_child v (arr xs) changed token n room h =
    elim (Option-cases (index_below (suc (item_count xs)) token)) [
      | inl e ↦ absurd (ground (arith, text_eq_iff token (codes "-")))
      | inr (i, e) ↦
          let (p, b) = index_below-some (suc (item_count xs)) token i e in
          let same : changed ≡ arr (insert_item i v xs) =
            ground (arith, text_eq_iff token (codes "-"), e) in
          ground (
            arith,
            same,
            e,
            item_count-insert_item i v xs,
            remove_item-insert_item i v xs (omega arith),
          )
    ]
remove_child-add_child v (obj true fs) changed token n room h =
    ground
      (arith, get-set_key fs token token v, text_eq_refl token, delete_key-set_key fs token v room)
remove_child-add_child v _ changed token n room h = absurd (ground arith)

-- The container that the tokens but the last lead to has room for the last.
unfoldable pub PathHasRoom : Value → Text → List Text → Type 0
PathHasRoom current token [] = HasRoom current token
PathHasRoom current token (u ∷ us) =
    (inner : Value) → child_at current token ≡ some inner → PathHasRoom inner u us

put_child-defined :
    (current inner w : Value) (token : Text)
    → child_at current token ≡ some inner
    → is_undefined (put_child current token w) ≡ false
unfolding put_child child_at is_undefined
put_child-defined (arr xs) inner w token h = elim (Option-cases (parse_array_index token)) [
  | inl e ↦ absurd (ground arith)
  | inr (i, e) ↦ ground (arith, e)
]
put_child-defined (obj true fs) inner w token h = refl
put_child-defined _ inner w token h = absurd (ground arith)

add_child-defined :
    (v parent changed : Value) (token : Text)
    → add_child v parent token ≡ ok changed
    → is_undefined changed ≡ false
unfolding add_child is_undefined
add_child-defined v (arr xs) changed token h =
    elim (Option-cases (index_below (suc (item_count xs)) token)) [
      | inl e ↦ elim (Bool-cases (text_eq token (codes "-"))) [
        | inl d ↦ ground (arith, d)
        | inr d ↦ absurd (ground (arith, d, e))
      ]
      | inr (i, e) ↦ ground (arith, e)
    ]
add_child-defined v (obj true fs) changed token h = ground arith
add_child-defined v _ changed token h = absurd (ground arith)

change_at-defined :
    (v current changed : Value) (token : Text) (tokens : List Text)
    → change_at (add_child v) current token tokens ≡ ok changed
    → is_undefined changed ≡ false
unfolding change_at
change_at-defined v current changed token [] h = add_child-defined v current changed token h
change_at-defined v current changed token (u ∷ us) h =
    elim (Option-cases (child_at current token)) [
      | inl e ↦ absurd (ground arith)
      | inr (inner, e) ↦ elim (Result-cases (change_at (add_child v) inner u us)) [
        | inr (bad, c) ↦ absurd (ground arith)
        | inl (w, c) ↦ ground (arith, e, c, put_child-defined current inner w token e)
      ]
    ]

change_at-undo :
    (v target next : Value) (token : Text) (tokens : List Text)
    → last_token token tokens ≢ codes "-"
    → PathHasRoom target token tokens
    → change_at (add_child v) target token tokens ≡ ok next
    → change_at remove_child next token tokens ≡ ok target
unfolding change_at PathHasRoom
change_at-undo v target next token [] n room h = remove_child-add_child v target next token n room h
change_at-undo v target next token (u ∷ us) n room h = elim (Option-cases (child_at target token)) [
  | inl e ↦ absurd (ground arith)
  | inr (inner, e) ↦ elim (Result-cases (change_at (add_child v) inner u us)) [
    | inr (bad, c) ↦ absurd (ground arith)
    | inl (changed, c) ↦ ground (
      arith,
      e,
      c,
      child_at-put_child target inner changed token e (change_at-defined v inner changed u us c),
      change_at-undo v inner changed u us n (room inner e) c,
      put_child-put_child target inner changed token e,
    )
  ]
]

-- A "remove" behind an "add" of a JSON value at the same path, which is not the root, does not end
-- in the token for the end of an array and replaced no member, gives the document back.
pub apply_remove-apply_add :
    (index later : ℕ) (target v next : Value) (path token : Text) (tokens : List Text)
    → is_json_value 0 v ≡ true
    → parse_json_pointer path ≡ some (token ∷ tokens)
    → last_token token tokens ≢ codes "-"
    → PathHasRoom target token tokens
    → apply_add index target path v ≡ ok next
    → apply_remove later next path ≡ ok target
unfolding apply_add apply_remove add_at remove_at parse_pointer_tokens map_error
apply_remove-apply_add index later target v next path token tokens j p n room h =
    elim (Result-cases (change_at (add_child v) target token tokens)) [
      | inr (bad, c) ↦ absurd (ground (arith, p, cloned-eq v j, c))
      | inl (changed, c) ↦
          let same : changed ≡ next = ground (arith, p, cloned-eq v j, c) in
          ground (arith, p, change_at-undo v target changed token tokens n room c, same)
    ]
