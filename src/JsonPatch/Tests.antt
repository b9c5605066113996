-- ===== src/JsonPatch/Tests.antt =====
-- Runs of json-patch.ts, and its theorems at concrete inputs.
use http_rfc_utils.Common.{true, List, [], ◌∷◌, some, ◌≡◌, refl, arith}
use http_rfc_utils.Common.Results.{ok, err}
use http_rfc_utils.Text.{Text, codes}
use http_rfc_utils.Json.{Value, str, arr, obj, nil, cons, end, field}
use http_rfc_utils.JsonPointer.{evaluate_json_pointer}
use http_rfc_utils.JsonPatch.Paths.{invalid_path, missing_path, bad_index}
use http_rfc_utils.JsonPatch.Document.{
  Operation, add, test, at, validate_json_patch, parse_json_patch,
}
use http_rfc_utils.JsonPatch.{
  apply_add, apply_replace, apply_test, get_at_path, apply_operations, apply_json_patch,
}
use http_rfc_utils.JsonPatch.Readback.{
  evaluate_json_pointer-get_at_path, evaluate_json_pointer-apply_add,
  evaluate_json_pointer-apply_replace, apply_test-get_at_path, NotAtEnd,
}
use http_rfc_utils.JsonPatch.Accepts.{parse_json_patch-validate_json_patch}
use http_rfc_utils.JsonPatch.{parse_pointer_tokens}
use http_rfc_utils.JsonPointer.{
  parse_json_pointer, has_valid_escapes, replace_pair, decode_token, decode_tokens,
}
use http_rfc_utils.Text.{parse_int, text_eq, split}
use http_rfc_utils.JsonPatch.Paths.{get_at, child_at, defined, parse_array_index}
use http_rfc_utils.Json.{get, elems}
use http_rfc_utils.JsonPatch.Document.{
  allowed_op, cloned, is_prefix, is_proper_prefix_pointer, kind_of, map_error, pointer_member,
  string_member, validate_members, validate_operation, validate_operations, validate_with_value,
  value_member,
}
use http_rfc_utils.JsonPatch.Values.{
  check_depth, clone_json_value, deep_equal, is_json_value, is_undefined, item_count, member_count,
  not_too_deep, same_number, same_primitive,
}
use http_rfc_utils.JsonPatch.{
  add_at, add_at_path, apply_copy, apply_move, apply_operation, apply_remove, remove_at,
  remove_at_path, replace_at,
}
use http_rfc_utils.JsonPatch.Paths.{
  add_child, change_at, index_below, insert_item, put_child, remove_child, remove_item,
  replace_child, set_item,
}
use http_rfc_utils.Json.{delete_key, has_own_key, set_key}
use http_rfc_utils.JsonPointer.{is_valid_json_pointer, numeral}
use http_rfc_utils.Text.{digits_value, is_digit}
use http_rfc_utils.JsonMergePatch.Distinct.{DistinctKeys}
use http_rfc_utils.JsonPointer.{parse_json_pointer}
use http_rfc_utils.JsonPatch.Undo.{PathHasRoom, apply_remove-apply_add}
use http_rfc_utils.JsonPatch.{apply_remove}
use http_rfc_utils.JsonPatch.Paths.{child_at, defined}

abbrev x : Value
x = str (codes "x")

abbrev y : Value
y = str (codes "y")

-- `{"a": ["x"]}`, `{"a": ["y", "x"]}` and `{"a": ["y"]}`.
abbrev target : Value
target = obj true (field (codes "a") (arr (cons x nil)) end)

abbrev added : Value
added = obj true (field (codes "a") (arr (cons y (cons x nil))) end)

abbrev replaced : Value
replaced = obj true (field (codes "a") (arr (cons y nil)) end)

abbrev path : Text
path = codes "/a/0"

-- `[{"op": "add", "path": "/a/0", "value": "y"}, {"op": "test", "path": "/a/0", "value": "y"}]`
abbrev patch : Value
patch = arr (
    cons
      (obj true (
        field (codes "op") (str (codes "add"))
          (field (codes "path") (str path) (field (codes "value") y end))))
      (cons
        (obj true (
          field (codes "op") (str (codes "test"))
            (field (codes "path") (str path) (field (codes "value") y end))))
        nil))

abbrev operations : List Operation
operations = add path y ∷ test path y ∷ []

is_added : apply_add 0 target path y ≡ ok added
unfolding apply_add parse_pointer_tokens parse_json_pointer decode_tokens split has_valid_escapes
    cloned clone_json_value add_at change_at child_at defined get text_eq decode_token replace_pair
    add_child elems set_key map_error index_below insert_item parse_array_index put_child set_item
    check_depth is_undefined item_count numeral digits_value is_digit parse_int
is_added = refl

is_replaced : apply_replace 0 target path y ≡ ok replaced
unfolding apply_replace parse_pointer_tokens parse_json_pointer decode_tokens split
    has_valid_escapes cloned clone_json_value replace_at change_at child_at defined get text_eq
    decode_token replace_pair replace_child elems has_own_key set_key map_error index_below
    parse_array_index put_child set_item check_depth is_undefined item_count numeral digits_value
    is_digit parse_int
is_replaced = refl

is_found : get_at_path 0 invalid_path missing_path target path ≡ ok x
unfolding get_at_path parse_pointer_tokens parse_json_pointer decode_tokens split has_valid_escapes
    get_at child_at defined get text_eq decode_token replace_pair parse_array_index elems parse_int
is_found = refl

is_validated : validate_json_patch patch ≡ ok operations
unfolding validate_json_patch validate_operations validate_operation allowed_op string_member get
    text_eq kind_of pointer_member is_valid_json_pointer parse_json_pointer decode_tokens split
    has_valid_escapes validate_members value_member is_json_value is_prefix is_proper_prefix_pointer
    validate_with_value not_too_deep decode_token replace_pair
is_validated = refl

is_applied : apply_json_patch target patch ≡ ok added
unfolding apply_json_patch is_json_value validate_json_patch validate_operations validate_operation
    allowed_op string_member get text_eq kind_of pointer_member is_valid_json_pointer
    parse_json_pointer decode_tokens split has_valid_escapes validate_members delete_key elems
    has_own_key set_key cloned is_prefix is_proper_prefix_pointer map_error validate_with_value
    value_member add_child change_at child_at defined get_at index_below insert_item
    parse_array_index put_child remove_child remove_item replace_child set_item check_depth
    clone_json_value deep_equal is_undefined item_count member_count not_too_deep same_number
    same_primitive add_at add_at_path apply_add apply_copy apply_move apply_operation
    apply_operations apply_remove apply_replace apply_test get_at_path parse_pointer_tokens
    remove_at remove_at_path replace_at decode_token numeral replace_pair digits_value is_digit
    parse_int
is_applied = refl

is_out_of_range : apply_add 3 target (codes "/a/2") y ≡ err (at 3 bad_index)
unfolding apply_add parse_pointer_tokens parse_json_pointer decode_tokens split has_valid_escapes
    cloned clone_json_value add_at change_at child_at defined get text_eq decode_token replace_pair
    add_child elems set_key map_error index_below insert_item parse_array_index put_child set_item
    check_depth is_undefined item_count numeral digits_value is_digit parse_int
is_out_of_range = refl

y_is_json : is_json_value 0 y ≡ true
unfolding is_json_value not_too_deep
y_is_json = refl

x_is_json : is_json_value 0 x ≡ true
unfolding is_json_value not_too_deep
x_is_json = refl

x-DistinctKeys : DistinctKeys x
unfolding DistinctKeys
x-DistinctKeys = tt

is_parsed : parse_json_pointer path ≡ some (codes "a" ∷ codes "0" ∷ [])
unfolding parse_json_pointer decode_tokens has_valid_escapes decode_token replace_pair split
is_parsed = refl

zero_is_not_end : NotAtEnd (codes "a" ∷ codes "0" ∷ [])
zero_is_not_end h = ground (arith, h)

not_at_end : (tokens : List Text) → parse_json_pointer path ≡ some tokens → NotAtEnd tokens
not_at_end tokens h =
    let same : tokens ≡ codes "a" ∷ codes "0" ∷ [] = ground (arith, is_parsed, h) in
    rw same zero_is_not_end

evaluate_json_pointer-get_at_path_example : evaluate_json_pointer path target ≡ x
evaluate_json_pointer-get_at_path_example =
    evaluate_json_pointer-get_at_path 0 invalid_path missing_path target x path is_found

evaluate_json_pointer-apply_add_example : evaluate_json_pointer path added ≡ y
evaluate_json_pointer-apply_add_example =
    evaluate_json_pointer-apply_add 0 target y added path y_is_json not_at_end is_added

evaluate_json_pointer-apply_replace_example : evaluate_json_pointer path replaced ≡ y
evaluate_json_pointer-apply_replace_example =
    evaluate_json_pointer-apply_replace 0 target y replaced path y_is_json is_replaced

apply_test-get_at_path_example : apply_test 0 target path x ≡ ok target
apply_test-get_at_path_example =
    apply_test-get_at_path 0 target x path is_found x_is_json x-DistinctKeys

parse_json_patch-validate_json_patch_example : parse_json_patch patch ≡ ok (some operations)
parse_json_patch-validate_json_patch_example =
    parse_json_patch-validate_json_patch patch operations is_validated

a_is_found : child_at target (codes "a") ≡ some (arr (cons x nil))
unfolding child_at get defined text_eq is_undefined
a_is_found = refl

target-PathHasRoom : PathHasRoom target (codes "a") (codes "0" ∷ [])
unfolding PathHasRoom
target-PathHasRoom inner h =
    let same : arr (cons x nil) ≡ inner = ground (arith, a_is_found, h) in rw (← same) tt

apply_remove-apply_add_example : apply_remove 1 added path ≡ ok target
apply_remove-apply_add_example =
    apply_remove-apply_add 0 1 target y added path (codes "a") (codes "0" ∷ []) y_is_json is_parsed
      zero_is_not_end target-PathHasRoom is_added
