-- ===== src/JsonPatch/Paths.antt =====
-- json-patch.ts: reading and changing the tree at a path of tokens. A change in place of the parent
-- that `resolveParent` finds is the tree with that parent replaced.
use http_rfc_utils.Common.{
  ℕ, suc, zero, true, not, ◌||◌, List, [], ◌∷◌, Option, none, some, ltb, if◌then◌else◌, get_elem?,
}
use http_rfc_utils.Common.Results.{Result, ok, err, ◌>>=◌, or_throw}
use http_rfc_utils.Text.{Text, codes, text_eq, parse_int}
use http_rfc_utils.Json.{
  Value, arr, obj, Items, nil, cons, get, set_key, delete_key, has_own_key, elems,
}
use http_rfc_utils.JsonPointer.{numeral}
use http_rfc_utils.JsonPatch.Values.{item_count, is_undefined}

-- What the messages of the errors tell apart, but for the wording of one failure in two places.
pub data Problem : Type 0 where
  not_an_object invalid_op invalid_path invalid_from invalid_value proper_prefix : Problem
  removes_root missing_from missing_path no_parent parent_is_primitive : Problem
  bad_index missing_member missing_value failed_test : Problem

-- `/^(0|[1-9][0-9]*)$/`
unfoldable pub parse_array_index : Text → Option ℕ
parse_array_index token =
    if text_eq token (codes "0") || numeral token then some (parse_int token) else none

-- A value that is not `undefined`.
unfoldable pub defined : Option Value → Option Value
unfolding is_undefined
defined none = none
defined (some v) = if is_undefined v then none else some v

-- One round of the loops of `getAtPath` and `resolveParent`; `none` where they throw.
unfoldable pub child_at : Value → Text → Option Value
child_at (arr xs) token = elim (parse_array_index token) [
  | none ↦ none
  | some position ↦ defined (get_elem? (elems xs) position)
]
child_at (obj true fs) token = defined (get fs token)
child_at v token = none

-- The loop of `getAtPath`.
unfoldable pub get_at : Value → List Text → Option Value
get_at current [] = some current
get_at current (token ∷ tokens) = elim (child_at current token) [
  | none ↦ none
  | some next ↦ get_at next tokens
]

-- `parent[position] = value` for a position below the length.
unfoldable pub set_item : ℕ → Value → Items → Items
set_item n v nil = nil
set_item zero v (cons x xs) = cons v xs
set_item (suc n) v (cons x xs) = cons x (set_item n v xs)

-- `parent.splice(position, 0, value)` for a position up to the length.
unfoldable pub insert_item : ℕ → Value → Items → Items
insert_item zero v xs = cons v xs
insert_item (suc n) v nil = cons v nil
insert_item (suc n) v (cons x xs) = cons x (insert_item n v xs)

-- `parent.splice(position, 1)`
unfoldable pub remove_item : ℕ → Items → Items
remove_item n nil = nil
remove_item zero (cons x xs) = xs
remove_item (suc n) (cons x xs) = cons x (remove_item n xs)

-- The container with the child at the token replaced, where there is one.
unfoldable pub put_child : Value → Text → Value → Value
put_child (arr xs) token v = elim (parse_array_index token) [
  | none ↦ arr xs
  | some position ↦ arr (set_item position v xs)
]
put_child (obj true fs) token v = obj true (set_key fs token v)
put_child current token v = current

-- A position that is an array index and below the bound.
unfoldable pub index_below : ℕ → Text → Option ℕ
index_below bound token = elim (parse_array_index token) [
  | none ↦ none
  | some position ↦ if ltb position bound then some position else none
]

-- The change of `applyAdd` and `addAtPath` at the parent.
unfoldable pub add_child : Value → Value → Text → Result Problem Value
add_child v (arr xs) token =
    if text_eq token (codes "-")
    then ok (arr (insert_item (item_count xs) v xs))
    else or_throw (index_below (suc (item_count xs)) token) bad_index >>= λ position.
        ok (arr (insert_item position v xs))
add_child v (obj true fs) token = ok (obj true (set_key fs token v))
add_child v parent token = err parent_is_primitive

-- The change of `applyRemove` and `removeAtPath`.
unfoldable pub remove_child : Value → Text → Result Problem Value
remove_child (arr xs) token = do
  position ← or_throw (index_below (item_count xs) token) bad_index
  ok (arr (remove_item position xs))
remove_child (obj true fs) token =
    if not (has_own_key fs token) then err missing_member else ok (obj true (delete_key fs token))
remove_child parent token = err parent_is_primitive

-- The change of `applyReplace`.
unfoldable pub replace_child : Value → Value → Text → Result Problem Value
replace_child v (arr xs) token = do
  position ← or_throw (index_below (item_count xs) token) bad_index
  ok (arr (set_item position v xs))
replace_child v (obj true fs) token =
    if not (has_own_key fs token) then err missing_member else ok (obj true (set_key fs token v))
replace_child v parent token = err parent_is_primitive

-- `resolveParent`, with the change at the parent and the last token. `getLastPathToken` throws for
-- no token at all.
unfoldable pub change_at :
    (Value → Text → Result Problem Value) → Value → Text → List Text → Result Problem Value
change_at edit current token [] = edit current token
change_at edit current token (next_token ∷ tokens) = elim (child_at current token) [
  | none ↦ err no_parent
  | some next ↦ do
    changed ← change_at edit next next_token tokens
    ok (put_child current token changed)
]
