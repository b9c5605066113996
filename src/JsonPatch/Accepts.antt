-- ===== src/JsonPatch/Accepts.antt =====
-- The two readers of a patch, `parseJsonPatch` and `validateJsonPatch`, agree.
use http_rfc_utils.Common.{ℕ, suc, true, List, some, ◌≡◌, arith, Option-cases, Bool-cases, inl, inr}
use http_rfc_utils.Common.Results.{ok, Result-cases}
use http_rfc_utils.Text.{Text, codes}
use http_rfc_utils.Json.{Value, arr, obj, Items, nil, cons, Fields, get}
use http_rfc_utils.JsonPatch.Values.{is_json_value}
use http_rfc_utils.JsonPatch.Document.{
  Operation, add, replace, test, Kind, adds, removes, replaces, moves, copies, tests, allowed_op,
  pointer_member, value_member, parse_with_value, parse_with_from, parse_members, parse_operation,
  parse_operations, parse_json_patch, validate_with_value, validate_members, validate_operation,
  validate_operations, validate_json_patch, is_proper_prefix_pointer,
}
use http_rfc_utils.JsonPatch.Copies.{cloned-eq}

value_member-json : (fs : Fields) (v : Value) → value_member fs ≡ some v → is_json_value 0 v ≡ true
unfolding value_member
value_member-json fs v h = elim (Option-cases (get fs (codes "value"))) [
  | inl e ↦ absurd (ground arith)
  | inr (w, e) ↦ ground (arith, e)
]

with_value_agree :
    (index : ℕ) (make : Value → Operation) (fs : Fields) (op : Operation)
    → validate_with_value index make fs ≡ ok op
    → parse_with_value make fs ≡ ok (some op)
unfolding validate_with_value parse_with_value
with_value_agree index make fs op h = elim (Option-cases (value_member fs)) [
  | inl e ↦ absurd (ground arith)
  | inr (v, e) ↦ ground (arith, e, cloned-eq v (value_member-json fs v e))
]

members_agree :
    (index : ℕ) (kind : Kind) (path : Text) (fs : Fields) (op : Operation)
    → validate_members index kind path fs ≡ ok op
    → parse_members kind path fs ≡ ok (some op)
unfolding validate_members parse_members parse_with_from
members_agree index adds path fs op h = with_value_agree index (add path) fs op h
members_agree index replaces path fs op h = with_value_agree index (replace path) fs op h
members_agree index tests path fs op h = with_value_agree index (test path) fs op h
members_agree index removes path fs op h = ground arith
members_agree index moves path fs op h = elim (Option-cases (pointer_member fs (codes "from"))) [
  | inl e ↦ absurd (ground arith)
  | inr (from, e) ↦ elim (Bool-cases (is_proper_prefix_pointer from path)) [
    | inl p ↦ absurd (ground arith)
    | inr p ↦ ground (arith, e, p)
  ]
]
members_agree index copies path fs op h = elim (Option-cases (pointer_member fs (codes "from"))) [
  | inl e ↦ absurd (ground arith)
  | inr (from, e) ↦ ground (arith, e)
]

operation_agrees :
    (index : ℕ) (v : Value) (op : Operation)
    → validate_operation index v ≡ ok op
    → parse_operation v ≡ ok (some op)
unfolding validate_operation parse_operation
operation_agrees index (obj plain fs) op h = elim (Option-cases (allowed_op fs)) [
  | inl e ↦ absurd (ground arith)
  | inr (kind, e) ↦ elim (Option-cases (pointer_member fs (codes "path"))) [
    | inl n ↦ absurd (ground arith)
    | inr (path, n) ↦ ground (arith, e, n, members_agree index kind path fs op)
  ]
]
operation_agrees index _ op h = absurd (ground arith)

operations_agree :
    (index : ℕ) (xs : Items) (ops : List Operation)
    → validate_operations index xs ≡ ok ops
    → parse_operations xs ≡ ok (some ops)
unfolding validate_operations parse_operations
operations_agree index nil ops h = ground arith
operations_agree index (cons x xs) ops h = elim (Result-cases (validate_operation index x)) [
  | inr (e, n) ↦ absurd (ground arith)
  | inl (op, n) ↦ elim (Result-cases (validate_operations (suc index) xs)) [
    | inr (e, m) ↦ absurd (ground arith)
    | inl (more, m) ↦
        ground (arith, n, m, operation_agrees index x op n, operations_agree (suc index) xs more m)
  ]
]

-- A document that `validateJsonPatch` accepts is accepted by `parseJsonPatch`, with the same
-- operations in the same order; no copy of a value meets the bound on the depth.
pub parse_json_patch-validate_json_patch :
    (document : Value) (operations : List Operation)
    → validate_json_patch document ≡ ok operations
    → parse_json_patch document ≡ ok (some operations)
unfolding validate_json_patch parse_json_patch
parse_json_patch-validate_json_patch (arr xs) operations h = operations_agree 0 xs operations h
parse_json_patch-validate_json_patch _ operations h = absurd (ground arith)
