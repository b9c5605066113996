-- ===== src/JsonPatch/Copies.antt =====
-- A value that `isJsonValue` accepts is its own copy, and equals itself by `deepEqual`.
use http_rfc_utils.Common.{ℕ, suc, true, false, ◌&&◌, ==_refl, some, ◌≡◌, refl, arith, and_split}
use http_rfc_utils.Common.Results.{ok}
use http_rfc_utils.Text.{Text}
use http_rfc_utils.Text.Laws.{text_eq_refl, text_eq_iff}
use http_rfc_utils.Json.{
  finite, nan, infinite, Value, undefined, null, bool, num, str, other, arr, obj, Items, nil, cons,
  Fields, end, field, get,
}
use http_rfc_utils.Json.Members.{IsRecord, Absent}
use http_rfc_utils.JsonMergePatch.Distinct.{DistinctKeys, DistinctItems, DistinctMembers}
use http_rfc_utils.JsonPatch.Document.{cloned, map_error}
use http_rfc_utils.JsonPatch.Values.{
  DepthError, value_too_deep, comparison_too_deep, not_too_deep, is_json_value, are_json_items,
  are_json_members, check_depth, clone_json_value, clone_json_items, clone_json_members,
  is_undefined, same_primitive, same_number, item_count, member_count, deep_equal, equal_items,
  equal_members,
}

check_depth-ok :
    (e : DepthError) (depth : ℕ) → not_too_deep depth ≡ true → check_depth e depth ≡ ok tt
unfolding check_depth not_too_deep
check_depth-ok e depth h = ground arith

mutual
  unfolding clone_json_value is_json_value

  pub clone_json_value-eq :
      (depth : ℕ) (v : Value) → is_json_value depth v ≡ true → clone_json_value depth v ≡ ok v
  clone_json_value-eq depth undefined h = absurd (ground arith)
  clone_json_value-eq depth null h = ground (arith, check_depth-ok value_too_deep depth h)
  clone_json_value-eq depth (bool b) h = ground (arith, check_depth-ok value_too_deep depth h)
  clone_json_value-eq depth (num (finite n)) h =
      ground (arith, check_depth-ok value_too_deep depth h)
  clone_json_value-eq depth (num nan) h = absurd (ground arith)
  clone_json_value-eq depth (num (infinite b)) h = absurd (ground arith)
  clone_json_value-eq depth (str s) h = ground (arith, check_depth-ok value_too_deep depth h)
  clone_json_value-eq depth (other n) h = absurd (ground arith)
  clone_json_value-eq depth (arr xs) h =
      let (d, i) = and_split (not_too_deep depth) (are_json_items (suc depth) xs) h in
      ground (arith, check_depth-ok value_too_deep depth d, clone_json_items-eq (suc depth) xs i)
  clone_json_value-eq depth (obj plain fs) h =
      let (d, m) = and_split (not_too_deep depth) (plain && are_json_members (suc depth) fs) h in
      let (p, i) = and_split plain (are_json_members (suc depth) fs) m in
      ground
        (arith, p, check_depth-ok value_too_deep depth d, clone_json_members-eq (suc depth) fs i)

  clone_json_items-eq :
      (depth : ℕ) (xs : Items) → are_json_items depth xs ≡ true → clone_json_items depth xs ≡ ok xs
  clone_json_items-eq depth nil h = refl
  clone_json_items-eq depth (cons x xs) h =
      let (p, q) = and_split (is_json_value depth x) (are_json_items depth xs) h in
      ground (arith, clone_json_value-eq depth x p, clone_json_items-eq depth xs q)

  clone_json_members-eq :
      (depth : ℕ) (fs : Fields)
      → are_json_members depth fs ≡ true
      → clone_json_members depth fs ≡ ok fs
  clone_json_members-eq depth end h = refl
  clone_json_members-eq depth (field k v fs) h =
      let (p, q) = and_split (is_json_value depth v) (are_json_members depth fs) h in
      ground (arith, clone_json_value-eq depth v p, clone_json_members-eq depth fs q)

pub is_json_value-defined :
    (depth : ℕ) (v : Value) → is_json_value depth v ≡ true → is_undefined v ≡ false
unfolding is_json_value is_undefined
is_json_value-defined depth undefined h = absurd (ground arith)
is_json_value-defined depth _ h = refl

-- Each member of the first is found in the second.
abbrev Within : Fields → Fields → Type 0
Within fs gs = (k : Text) (v : Value) → get fs k ≡ some v → get gs k ≡ some v

Within-tail :
    (k : Text) (v : Value) (fs gs : Fields)
    → Absent k fs
    → Within (field k v fs) gs
    → (get gs k ≡ some v) × Within fs gs
unfolding get
Within-tail k v fs gs fresh w = (
  w k v (ground (arith, text_eq_refl k)),
  λ j u e. w j u (ground (arith, e, fresh, text_eq_iff k j)),
)

mutual
  unfolding deep_equal is_json_value DistinctKeys IsRecord same_primitive same_number

  pub deep_equal_refl :
      (depth : ℕ) (v : Value)
      → is_json_value depth v ≡ true
      → DistinctKeys v
      → deep_equal depth v v ≡ ok true
  deep_equal_refl depth undefined h k = absurd (ground arith)
  deep_equal_refl depth null h k = ground (arith, check_depth-ok comparison_too_deep depth h)
  deep_equal_refl depth (bool b) h k = ground (arith, check_depth-ok comparison_too_deep depth h)
  deep_equal_refl depth (num (finite n)) h k =
      ground (arith, check_depth-ok comparison_too_deep depth h, ==_refl n)
  deep_equal_refl depth (num nan) h k = absurd (ground arith)
  deep_equal_refl depth (num (infinite b)) h k = absurd (ground arith)
  deep_equal_refl depth (str s) h k =
      ground (arith, check_depth-ok comparison_too_deep depth h, text_eq_refl s)
  deep_equal_refl depth (other n) h k = absurd (ground arith)
  deep_equal_refl depth (arr xs) h k =
      let (d, i) = and_split (not_too_deep depth) (are_json_items (suc depth) xs) h in
      ground (
        arith,
        check_depth-ok comparison_too_deep depth d,
        ==_refl (item_count xs),
        equal_items_refl (suc depth) xs i k,
      )
  deep_equal_refl depth (obj plain fs) h (r, k) =
      let (d, m) = and_split (not_too_deep depth) (plain && are_json_members (suc depth) fs) h in
      let (p, i) = and_split plain (are_json_members (suc depth) fs) m in
      ground (
        arith,
        p,
        check_depth-ok comparison_too_deep depth d,
        ==_refl (member_count fs),
        equal_members-Within (suc depth) fs fs i r k (λ j u e. e),
      )

  equal_items_refl :
      (depth : ℕ) (xs : Items)
      → are_json_items depth xs ≡ true
      → DistinctItems xs
      → equal_items depth xs xs ≡ ok true
  equal_items_refl depth nil h k = refl
  equal_items_refl depth (cons x xs) h (kx, kxs) =
      let (p, q) = and_split (is_json_value depth x) (are_json_items depth xs) h in
      ground (
        arith,
        is_json_value-defined depth x p,
        deep_equal_refl depth x p kx,
        equal_items_refl depth xs q kxs,
      )

  equal_members-Within :
      (depth : ℕ) (fs gs : Fields)
      → are_json_members depth fs ≡ true
      → IsRecord fs
      → DistinctMembers fs
      → Within fs gs
      → equal_members depth fs gs ≡ ok true
  equal_members-Within depth end gs h r k w = refl
  equal_members-Within depth (field i v fs) gs h (fresh, r) (kv, k) w =
      let (p, q) = and_split (is_json_value depth v) (are_json_members depth fs) h in
      let (found, more) = Within-tail i v fs gs fresh w in
      ground (
        arith,
        found,
        is_json_value-defined depth v p,
        deep_equal_refl depth v p kv,
        equal_members-Within depth fs gs q r k more,
      )

pub cloned-eq : (v : Value) → is_json_value 0 v ≡ true → cloned v ≡ ok v
unfolding cloned map_error
cloned-eq v h = ground (arith, clone_json_value-eq 0 v h)
