-- ===== src/JsonPatch/Document.antt =====
-- json-patch.ts: the operations, and how `parseJsonPatch` and `validateJsonPatch` read them from a
-- value. Members that an operation inherits from a prototype are not seen.
use http_rfc_utils.Common.{
  ℕ, suc, Bool, true, false, not, ◌&&◌, List, [], ◌∷◌, Option, none, some, leb, length,
  if◌then◌else◌,
}
use http_rfc_utils.Common.Results.{Result, ok, err, ◌>>=◌, ◌>>◌, guard, or_throw}
use http_rfc_utils.Text.{Text, codes, text_eq}
use http_rfc_utils.Json.{Value, str, arr, obj, Items, nil, cons, Fields, get}
use http_rfc_utils.JsonPointer.{parse_json_pointer, is_valid_json_pointer}
use http_rfc_utils.JsonPatch.Values.{DepthError, is_json_value, clone_json_value}
use http_rfc_utils.JsonPatch.Paths.{
  Problem, not_an_object, invalid_op, invalid_path, invalid_from, invalid_value, proper_prefix,
}

pub data Operation : Type 0 where
  add : Text → Value → Operation
  remove : Text → Operation
  replace : Text → Value → Operation
  move : Text → Text → Operation
  copy : Text → Text → Operation
  test : Text → Value → Operation

-- What is thrown: for a document, at an operation, or by the bound on the depth.
pub data PatchError : Type 0 where
  invalid_target : PatchError
  not_an_array : PatchError
  at : ℕ → Problem → PatchError
  too_deep : DepthError → PatchError

-- A result of a part, with the error that the whole throws for it.
unfoldable pub map_error {ℓ κ μ} :
    {E : Type ℓ} {F : Type κ} {A : Type μ} → (E → F) → Result E A → Result F A
map_error f (ok a) = ok a
map_error f (err e) = err (f e)

unfoldable pub cloned : Value → Result PatchError Value
unfolding map_error
cloned v = map_error too_deep (clone_json_value 0 v)

-- `typeof record[key] === 'string'`, and the string.
unfoldable pub string_member : Fields → Text → Option Text
string_member fs key = elim (get fs key) [ some (str s) ↦ some s | _ ↦ none ]

-- The six names of `ALLOWED_OPS`.
pub data Kind : Type 0 where
  adds removes replaces moves copies tests : Kind

unfoldable pub kind_of : Text → Option Kind
kind_of op =
    if text_eq op (codes "add")
    then some adds
    else if text_eq op (codes "remove")
    then some removes
    else if text_eq op (codes "replace")
    then some replaces
    else if text_eq op (codes "move")
    then some moves
    else if text_eq op (codes "copy")
    then some copies
    else if text_eq op (codes "test")
    then some tests
    else none

-- The member "op", where it is an allowed string.
unfoldable pub allowed_op : Fields → Option Kind
allowed_op fs = elim (string_member fs (codes "op")) [ none ↦ none | some op ↦ kind_of op ]

-- A member that is a string and a JSON Pointer.
unfoldable pub pointer_member : Fields → Text → Option Text
pointer_member fs key = elim (string_member fs key) [
  | none ↦ none
  | some pointer ↦ if is_valid_json_pointer pointer then some pointer else none
]

-- The member "value", where it is own and JSON.
unfoldable pub value_member : Fields → Option Value
value_member fs = elim (get fs (codes "value")) [
  | none ↦ none
  | some v ↦ if is_json_value 0 v then some v else none
]

-- The cases of the switch of `parseOperation`.
unfoldable pub parse_with_value :
    (Value → Operation) → Fields → Result PatchError (Option Operation)
parse_with_value make fs = elim (value_member fs) [
  | none ↦ ok none
  | some v ↦ do w ← cloned v; ok (some (make w))
]

unfoldable pub parse_with_from : (Text → Operation) → Fields → Result PatchError (Option Operation)
parse_with_from make fs = elim (pointer_member fs (codes "from")) [
  | none ↦ ok none
  | some from ↦ ok (some (make from))
]

unfoldable pub parse_members : Kind → Text → Fields → Result PatchError (Option Operation)
unfolding parse_with_value parse_with_from
parse_members adds path fs = parse_with_value (add path) fs
parse_members replaces path fs = parse_with_value (replace path) fs
parse_members tests path fs = parse_with_value (test path) fs
parse_members removes path fs = ok (some (remove path))
parse_members moves path fs = parse_with_from (move path) fs
parse_members copies path fs = parse_with_from (copy path) fs

unfoldable pub parse_operation : Value → Result PatchError (Option Operation)
parse_operation (obj plain fs) = elim (allowed_op fs) [
  | none ↦ ok none
  | some kind ↦ elim (pointer_member fs (codes "path")) [
    | none ↦ ok none
    | some path ↦ parse_members kind path fs
  ]
]
parse_operation v = ok none

-- The loop of `parseJsonPatch`.
unfoldable pub parse_operations : Items → Result PatchError (Option (List Operation))
parse_operations nil = ok (some [])
parse_operations (cons x xs) =
    let rest = parse_operations xs in
    parse_operation x >>= λ parsed. elim parsed [
      | none ↦ ok none
      | some operation ↦ rest >>= λ more. elim more [
        | none ↦ ok none
        | some operations ↦ ok (some (operation ∷ operations))
      ]
    ]

unfoldable pub parse_json_patch : Value → Result PatchError (Option (List Operation))
parse_json_patch (arr xs) = parse_operations xs
parse_json_patch v = ok none

unfoldable pub is_prefix : List Text → List Text → Bool
is_prefix [] ts = true
is_prefix (f ∷ fs) [] = false
is_prefix (f ∷ fs) (t ∷ ts) = text_eq f t && is_prefix fs ts

unfoldable pub is_proper_prefix_pointer : Text → Text → Bool
is_proper_prefix_pointer from path = elim (parse_json_pointer from) [
  | none ↦ false
  | some from_tokens ↦ elim (parse_json_pointer path) [
    | none ↦ false
    | some path_tokens ↦
        if leb (length path_tokens) (length from_tokens)
        then false
        else is_prefix from_tokens path_tokens
  ]
]

-- `validateOperation`, with the operation as the switch of `applyOperation` then sees it.
unfoldable pub validate_with_value : ℕ → (Value → Operation) → Fields → Result PatchError Operation
validate_with_value index make fs = do
  v ← or_throw (value_member fs) (at index invalid_value)
  ok (make v)

unfoldable pub validate_members : ℕ → Kind → Text → Fields → Result PatchError Operation
unfolding validate_with_value
validate_members index adds path fs = validate_with_value index (add path) fs
validate_members index replaces path fs = validate_with_value index (replace path) fs
validate_members index tests path fs = validate_with_value index (test path) fs
validate_members index removes path fs = ok (remove path)
validate_members index moves path fs = do
  from ← or_throw (pointer_member fs (codes "from")) (at index invalid_from)
  guard (not (is_proper_prefix_pointer from path)) (at index proper_prefix)
  ok (move path from)
validate_members index copies path fs = do
  from ← or_throw (pointer_member fs (codes "from")) (at index invalid_from)
  ok (copy path from)

unfoldable pub validate_operation : ℕ → Value → Result PatchError Operation
validate_operation index (obj plain fs) = do
  kind ← or_throw (allowed_op fs) (at index invalid_op)
  path ← or_throw (pointer_member fs (codes "path")) (at index invalid_path)
  validate_members index kind path fs
validate_operation index v = err (at index not_an_object)

-- The loop of `validateJsonPatch`, from an index on.
unfoldable pub validate_operations : ℕ → Items → Result PatchError (List Operation)
validate_operations index nil = ok []
validate_operations index (cons x xs) = do
  operation ← validate_operation index x
  operations ← validate_operations (suc index) xs
  ok (operation ∷ operations)

unfoldable pub validate_json_patch : Value → Result PatchError (List Operation)
validate_json_patch (arr xs) = validate_operations 0 xs
validate_json_patch document = err not_an_array

-- `tryParseJsonPatch`, with `JSON.parse` as a parameter that may throw.
unfoldable pub try_parse_json_patch : (Text → Option Value) → Text → Option (List Operation)
try_parse_json_patch json_parse json = elim (json_parse json) [
  | none ↦ none
  | some v ↦ elim (parse_json_patch v) [ ok parsed ↦ parsed | err e ↦ none ]
]

-- `formatJsonPatch`, with `JSON.stringify` as a parameter.
unfoldable pub format_json_patch : (Value → Text) → Value → Result PatchError Text
format_json_patch stringify document = do
  operations ← validate_json_patch document
  ok (stringify document)
