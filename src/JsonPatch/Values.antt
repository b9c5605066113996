-- ===== src/JsonPatch/Values.antt =====
-- json-patch.ts: which values are JSON, their copies and their comparison, each with the bound on
-- the depth. A value is a tree, so the sets of active objects, which find cycles, have no part.
use http_rfc_utils.Common.{
  ℕ, suc, Bool, true, false, not, ◌&&◌, ◌||◌, ◌==◌, none, some, ltb, if◌then◌else◌,
}
use http_rfc_utils.Common.Results.{Result, ok, err, ◌>>=◌, ◌>>◌}
use http_rfc_utils.Text.{text_eq}
use http_rfc_utils.Json.{
  Number, finite, nan, infinite, Value, undefined, null, bool, num, str, other, arr, obj, Items,
  nil, cons, Fields, end, field, get,
}

abbrev pub max_json_patch_value_depth : ℕ
max_json_patch_value_depth = 512

pub data DepthError : Type 0 where
  value_too_deep comparison_too_deep : DepthError

unfoldable pub not_too_deep : ℕ → Bool
not_too_deep depth = not (ltb max_json_patch_value_depth depth)

unfoldable mutual
  unfolding not_too_deep

  pub is_json_value : ℕ → Value → Bool
  is_json_value depth undefined = false
  is_json_value depth null = not_too_deep depth
  is_json_value depth (bool b) = not_too_deep depth
  is_json_value depth (num (finite n)) = not_too_deep depth
  is_json_value depth (num nan) = false
  is_json_value depth (num (infinite negative)) = false
  is_json_value depth (str s) = not_too_deep depth
  is_json_value depth (other n) = false
  is_json_value depth (arr xs) = not_too_deep depth && are_json_items (suc depth) xs
  is_json_value depth (obj plain fs) =
      not_too_deep depth && (plain && are_json_members (suc depth) fs)

  pub are_json_items : ℕ → Items → Bool
  are_json_items depth nil = true
  are_json_items depth (cons x xs) = is_json_value depth x && are_json_items depth xs

  pub are_json_members : ℕ → Fields → Bool
  are_json_members depth end = true
  are_json_members depth (field k v fs) = is_json_value depth v && are_json_members depth fs

-- The test of the depth at the front of a copy and of a comparison.
unfoldable pub check_depth : DepthError → ℕ → Result DepthError (Unit {0})
check_depth e depth = if ltb max_json_patch_value_depth depth then err e else ok tt

-- A copied object is made as `{}`; its keys are distinct, so each `defineProperty` adds a member.
unfoldable mutual
  unfolding check_depth

  pub clone_json_value : ℕ → Value → Result DepthError Value
  clone_json_value depth (arr xs) = do
    check_depth value_too_deep depth
    ys ← clone_json_items (suc depth) xs
    ok (arr ys)
  clone_json_value depth (obj plain fs) = do
    check_depth value_too_deep depth
    gs ← clone_json_members (suc depth) fs
    ok (obj true gs)
  clone_json_value depth v = do check_depth value_too_deep depth; ok v

  pub clone_json_items : ℕ → Items → Result DepthError Items
  clone_json_items depth nil = ok nil
  clone_json_items depth (cons x xs) = do
    y ← clone_json_value depth x
    ys ← clone_json_items depth xs
    ok (cons y ys)

  pub clone_json_members : ℕ → Fields → Result DepthError Fields
  clone_json_members depth end = ok end
  clone_json_members depth (field k v fs) = do
    w ← clone_json_value depth v
    gs ← clone_json_members depth fs
    ok (field k w gs)

unfoldable pub item_count : Items → ℕ
item_count nil = 0
item_count (cons x xs) = suc (item_count xs)

unfoldable pub member_count : Fields → ℕ
member_count end = 0
member_count (field k v fs) = suc (member_count fs)

unfoldable pub is_undefined : Value → Bool
is_undefined undefined = true
is_undefined v = false

-- `a === b` for two numbers: NaN equals nothing.
unfoldable pub same_number : Number → Number → Bool
same_number (finite m) (finite n) = m == n
same_number (infinite a) (infinite b) = if a then b else not b
same_number m n = false

-- The answer where no call is made: `a === b` of two values that are no arrays and no objects.
unfoldable pub same_primitive : Value → Value → Bool
unfolding same_number
same_primitive undefined undefined = true
same_primitive null null = true
same_primitive (bool a) (bool b) = if a then b else not b
same_primitive (num m) (num n) = same_number m n
same_primitive (str s) (str t) = text_eq s t
same_primitive (other m) (other n) = m == n
same_primitive a b = false

-- An element or member that is `undefined` on a side ends the comparison of the two sides at once.
unfoldable mutual
  unfolding check_depth is_undefined same_primitive item_count member_count

  pub deep_equal : ℕ → Value → Value → Result DepthError Bool
  deep_equal depth (arr xs) (arr ys) = do
    check_depth comparison_too_deep depth
    if item_count xs == item_count ys then equal_items (suc depth) xs ys else ok false
  deep_equal depth (obj plain fs) (obj flat gs) = do
    check_depth comparison_too_deep depth
    if member_count fs == member_count gs then equal_members (suc depth) fs gs else ok false
  deep_equal depth a b = do check_depth comparison_too_deep depth; ok (same_primitive a b)

  -- The lengths are equal.
  pub equal_items : ℕ → Items → Items → Result DepthError Bool
  equal_items depth nil ys = ok true
  equal_items depth (cons x xs) nil = ok false
  equal_items depth (cons x xs) (cons y ys) =
      let rest = equal_items depth xs ys in
      if is_undefined x || is_undefined y
      then if is_undefined x && is_undefined y then rest else ok false
      else deep_equal depth x y >>= λ same. if same then rest else ok false

  pub equal_members : ℕ → Fields → Fields → Result DepthError Bool
  equal_members depth end gs = ok true
  equal_members depth (field k v fs) gs =
      let rest = equal_members depth fs gs in
      elim (get gs k) [
        | none ↦ ok false
        | some w ↦
            if is_undefined v || is_undefined w
            then if is_undefined v && is_undefined w then rest else ok false
            else deep_equal depth v w >>= λ same. if same then rest else ok false
      ]
