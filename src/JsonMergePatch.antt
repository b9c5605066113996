-- ===== src/JsonMergePatch.antt =====
-- json-merge-patch.ts: validating, cloning and applying a JSON Merge Patch. A value is a tree, so
-- no validation meets a cyclic reference; `JSON.stringify` is a parameter.
pub mod Copy
pub mod Total
pub mod Distinct
pub mod Members
mod Tests
use http_rfc_utils.Common.{ℕ, suc, Bool, true, false, Option, none, some, if◌then◌else◌, ltb}
use http_rfc_utils.Common.Results.{Result, ok, err, ◌>>=◌, ◌>>◌}
use http_rfc_utils.Text.{Text}
use http_rfc_utils.Json.{
  Number, finite, nan, infinite, Value, undefined, null, bool, num, str, other, arr, obj, Items,
  nil, cons, Fields, end, field, get, has_own_key, set_key, delete_key,
}

abbrev pub json_merge_patch_max_depth : ℕ
json_merge_patch_max_depth = 128

pub data ValidationError : Type 0 where
  invalid_json_value max_depth_exceeded : ValidationError

-- Which document is invalid, or which copy met the bound on the depth.
pub data MergeError : Type 0 where
  invalid_target : ValidationError → MergeError
  invalid_patch : ValidationError → MergeError
  application_depth : MergeError
  value_depth : MergeError

-- The first test of `validateJsonMergePatchValueInternal`.
pub within : ℕ → Option ValidationError → Option ValidationError
within depth rest = if ltb json_merge_patch_max_depth depth then some max_depth_exceeded else rest

pub first_error : Option ValidationError → Option ValidationError → Option ValidationError
first_error (some e) rest = some e
first_error none rest = rest

-- `validateJsonMergePatchValueInternal` and its two loops.
unfoldable mutual
  unfolding within first_error

  pub validate_value : ℕ → Value → Option ValidationError
  validate_value depth undefined = within depth (some invalid_json_value)
  validate_value depth null = within depth none
  validate_value depth (bool b) = within depth none
  validate_value depth (num (finite n)) = within depth none
  validate_value depth (num nan) = within depth (some invalid_json_value)
  validate_value depth (num (infinite negative)) = within depth (some invalid_json_value)
  validate_value depth (str s) = within depth none
  validate_value depth (other n) = within depth (some invalid_json_value)
  validate_value depth (arr xs) = within depth (validate_items (suc depth) xs)
  validate_value depth (obj true fs) = within depth (validate_fields (suc depth) fs)
  validate_value depth (obj false fs) = within depth (some invalid_json_value)

  pub validate_items : ℕ → Items → Option ValidationError
  validate_items depth nil = none
  validate_items depth (cons x xs) = first_error (validate_value depth x) (validate_items depth xs)

  pub validate_fields : ℕ → Fields → Option ValidationError
  validate_fields depth end = none
  validate_fields depth (field k v fs) =
      first_error (validate_value depth v) (validate_fields depth fs)

-- `errorContext`: the copy is part of an application, or of `parseJsonMergePatch`.
pub data ErrorContext : Type 0 where
  application value : ErrorContext

pub depth_error : ErrorContext → MergeError
depth_error application = application_depth
depth_error value = value_depth

pub ensure_clone_depth : ℕ → ErrorContext → Result MergeError (Unit {0})
unfolding depth_error
ensure_clone_depth depth context =
    if ltb json_merge_patch_max_depth depth then err (depth_error context) else ok tt

-- A copied object is made as `{}` or with prototype null; its keys are distinct, so each
-- `defineProperty` adds a member.
unfoldable mutual
  unfolding ensure_clone_depth

  pub clone_value : ℕ → ErrorContext → Value → Result MergeError Value
  clone_value depth context undefined = do ensure_clone_depth depth context; ok undefined
  clone_value depth context null = do ensure_clone_depth depth context; ok null
  clone_value depth context (bool b) = do ensure_clone_depth depth context; ok (bool b)
  clone_value depth context (num n) = do ensure_clone_depth depth context; ok (num n)
  clone_value depth context (str s) = do ensure_clone_depth depth context; ok (str s)
  clone_value depth context (other n) = do ensure_clone_depth depth context; ok (other n)
  clone_value depth context (arr xs) = do
    ensure_clone_depth depth context
    ys ← clone_items (suc depth) context xs
    ok (arr ys)
  clone_value depth context (obj plain fs) = do
    ensure_clone_depth depth context
    gs ← clone_object depth context fs
    ok (obj true gs)

  pub clone_items : ℕ → ErrorContext → Items → Result MergeError Items
  clone_items depth context nil = ok nil
  clone_items depth context (cons x xs) = do
    y ← clone_value depth context x
    ys ← clone_items depth context xs
    ok (cons y ys)

  -- The members of `cloneJsonObject`.
  pub clone_object : ℕ → ErrorContext → Fields → Result MergeError Fields
  clone_object depth context end = do ensure_clone_depth depth context; ok end
  clone_object depth context (field k v fs) = do
    ensure_clone_depth depth context
    w ← clone_value (suc depth) context v
    gs ← clone_object depth context fs
    ok (field k w gs)

pub is_null : Value → Bool
is_null null = true
is_null v = false

-- What `mergePatch` starts from where the patch is an object.
pub next_target : ℕ → Option Value → Result MergeError Fields
next_target depth (some (obj true fs)) = clone_object depth application fs
next_target depth target = ok end

unfoldable mutual
  unfolding is_null

  pub merge_patch : ℕ → Option Value → Value → Result MergeError Value
  merge_patch depth target (obj true patch) = do
    ensure_clone_depth depth application
    next ← next_target depth target
    merged ← merge_members depth patch next
    ok (obj true merged)
  merge_patch depth target patch = do
    ensure_clone_depth depth application
    clone_value depth application patch

  -- The loop over the members of the patch.
  pub merge_members : ℕ → Fields → Fields → Result MergeError Fields
  merge_members depth end next = ok next
  merge_members depth (field k v fs) next = elim (is_null v) [
    | true ↦ merge_members depth fs (if has_own_key next k then delete_key next k else next)
    | false ↦ do
      merged ← merge_patch (suc depth) (get next k) v
      merge_members depth fs (set_key next k merged)
  ]

pub parse_json_merge_patch : Value → Result MergeError (Option Value)
parse_json_merge_patch v = elim (validate_value 0 v) [
  | some e ↦ ok none
  | none ↦ do copy ← clone_value 0 value v; ok (some copy)
]

pub validate_target : Value → Result MergeError (Unit {0})
validate_target target = elim (validate_value 0 target) [
  | some e ↦ err (invalid_target e)
  | none ↦ ok tt
]

pub validate_json_merge_patch : Value → Result MergeError (Unit {0})
validate_json_merge_patch patch = elim (validate_value 0 patch) [
  | some e ↦ err (invalid_patch e)
  | none ↦ ok tt
]

pub apply_json_merge_patch : Value → Value → Result MergeError Value
apply_json_merge_patch target patch = do
  validate_target target
  validate_json_merge_patch patch
  merge_patch 0 (some target) patch

-- `stringify` is `JSON.stringify` with an indent of two.
unfoldable pub format_json_merge_patch : (Value → Text) → Value → Result MergeError Text
format_json_merge_patch stringify patch = do validate_json_merge_patch patch; ok (stringify patch)
