-- ===== src/JsonPatch.antt =====
-- json-patch.ts: applying a JSON Patch. A document is a tree: a patch is applied to a copy, and what
-- it inserts is a copy or was taken out before, so no part is shared.
pub mod Values
pub mod Paths
pub mod Document
pub mod Sequence
pub mod Places
pub mod Copies
pub mod Readback
pub mod Accepts
pub mod Undo
mod Tests
use http_rfc_utils.Common.{
  ℕ, suc, Bool, true, false, not, List, [], ◌∷◌, Option, none, some, if◌then◌else◌,
}
use http_rfc_utils.Common.Results.{Result, ok, err, ◌>>=◌, ◌>>◌, guard, or_throw}
use http_rfc_utils.Text.{Text, text_eq}
use http_rfc_utils.Json.{Value}
use http_rfc_utils.JsonPointer.{parse_json_pointer}
use http_rfc_utils.JsonPatch.Values.{is_json_value, deep_equal}
use http_rfc_utils.JsonPatch.Paths.{
  Problem, invalid_path, invalid_from, removes_root, missing_from, missing_path, missing_value,
  failed_test, get_at, add_child, remove_child, replace_child, change_at,
}
use http_rfc_utils.JsonPatch.Document.{
  Operation, add, remove, replace, move, copy, test, PatchError, invalid_target, at, too_deep,
  map_error, cloned, validate_json_patch,
}

pub parse_pointer_tokens : ℕ → Problem → Text → Result PatchError (List Text)
parse_pointer_tokens index problem pointer =
    or_throw (parse_json_pointer pointer) (at index problem)

-- `addAtPath` behind the pointer; the root is replaced by the value.
pub add_at : ℕ → Value → Value → List Text → Result PatchError Value
unfolding map_error
add_at index v target [] = ok v
add_at index v target (token ∷ tokens) =
    map_error (at index) (change_at (add_child v) target token tokens)

pub add_at_path : ℕ → Value → Text → Value → Result PatchError Value
add_at_path index target path v = do
  tokens ← parse_pointer_tokens index invalid_path path
  add_at index v target tokens

pub apply_add : ℕ → Value → Text → Value → Result PatchError Value
apply_add index target path v = do
  tokens ← parse_pointer_tokens index invalid_path path
  copied ← cloned v
  add_at index copied target tokens

-- `applyRemove` and `removeAtPath` behind the pointer.
pub remove_at : ℕ → Value → List Text → Result PatchError Value
unfolding map_error
remove_at index target [] = err (at index removes_root)
remove_at index target (token ∷ tokens) =
    map_error (at index) (change_at remove_child target token tokens)

pub apply_remove : ℕ → Value → Text → Result PatchError Value
apply_remove index target path = do
  tokens ← parse_pointer_tokens index invalid_path path
  remove_at index target tokens

pub replace_at : ℕ → Value → Value → List Text → Result PatchError Value
unfolding map_error
replace_at index v target [] = ok v
replace_at index v target (token ∷ tokens) =
    map_error (at index) (change_at (replace_child v) target token tokens)

pub apply_replace : ℕ → Value → Text → Value → Result PatchError Value
apply_replace index target path v = do
  tokens ← parse_pointer_tokens index invalid_path path
  copied ← cloned v
  replace_at index copied target tokens

pub get_at_path : ℕ → Problem → Problem → Value → Text → Result PatchError Value
get_at_path index bad_pointer missing target pointer = do
  tokens ← parse_pointer_tokens index bad_pointer pointer
  or_throw (get_at target tokens) (at index missing)

-- The value that `removeAtPath` takes out is the one that stood there; where the removal succeeds,
-- there is one unless it is `undefined`.
pub remove_at_path : ℕ → Value → Text → Result PatchError (Value × Value)
remove_at_path index target from = do
  tokens ← parse_pointer_tokens index invalid_from from
  next_target ← remove_at index target tokens
  removed ← or_throw (get_at target tokens) (at index missing_value)
  ok (removed, next_target)

pub apply_move : ℕ → Value → Text → Text → Result PatchError Value
apply_move index target path from =
    if text_eq from path
    then (get_at_path index invalid_from missing_from target from >>= λ found. ok target)
    else remove_at_path index target from >>= λ (removed, next_target).
        add_at_path index next_target path removed

pub apply_copy : ℕ → Value → Text → Text → Result PatchError Value
apply_copy index target path from = do
  source_value ← get_at_path index invalid_from missing_from target from
  copied ← cloned source_value
  add_at_path index target path copied

pub apply_test : ℕ → Value → Text → Value → Result PatchError Value
apply_test index target path v = do
  actual ← get_at_path index invalid_path missing_path target path
  same ← map_error too_deep (deep_equal 0 actual v)
  guard same (at index failed_test)
  ok target

pub apply_operation : ℕ → Value → Operation → Result PatchError Value
apply_operation index target (add path v) = apply_add index target path v
apply_operation index target (remove path) = apply_remove index target path
apply_operation index target (replace path v) = apply_replace index target path v
apply_operation index target (move path from) = apply_move index target path from
apply_operation index target (copy path from) = apply_copy index target path from
apply_operation index target (test path v) = apply_test index target path v

-- The loop of `applyJsonPatch`, from an index on.
pub apply_operations : ℕ → Value → List Operation → Result PatchError Value
apply_operations index working [] = ok working
apply_operations index working (operation ∷ operations) = do
  next ← apply_operation index working operation
  apply_operations (suc index) next operations

pub apply_json_patch : Value → Value → Result PatchError Value
apply_json_patch target document = do
  guard (is_json_value 0 target) invalid_target
  operations ← validate_json_patch document
  working ← cloned target
  apply_operations 0 working operations
