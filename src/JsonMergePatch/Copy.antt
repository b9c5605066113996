-- ===== src/JsonMergePatch/Copy.antt =====
-- The copies of json-merge-patch.ts, made of a value that passes the validation.
use http_rfc_utils.Common.{ℕ, suc, true, false, Option, none, some, ltb, ◌≡◌, refl, arith}
use http_rfc_utils.Common.Results.{ok}
use http_rfc_utils.Json.{
  finite, nan, infinite, Value, undefined, null, bool, num, str, other, arr, obj, Items, nil, cons,
  Fields, end, field,
}
use http_rfc_utils.JsonMergePatch.{
  ValidationError, ErrorContext, within, first_error, validate_value, validate_items,
  validate_fields, ensure_clone_depth, clone_value, clone_items, clone_object,
  json_merge_patch_max_depth,
}

pub within-none :
    (depth : ℕ) (rest : Option ValidationError)
    → within depth rest ≡ none
    → (ltb json_merge_patch_max_depth depth ≡ false) × (rest ≡ none)
unfolding within
within-none depth rest h = ground arith

pub first_error-none :
    (a b : Option ValidationError) → first_error a b ≡ none → (a ≡ none) × (b ≡ none)
unfolding first_error
first_error-none none b h = (refl, h)
first_error-none (some e) b h = absurd (ground arith)

pub ensure_clone_depth-within :
    (depth : ℕ) (context : ErrorContext) (rest : Option ValidationError)
    → within depth rest ≡ none
    → ensure_clone_depth depth context ≡ ok tt
unfolding ensure_clone_depth
ensure_clone_depth-within depth context rest h = ground (arith, within-none depth rest h)

-- The copy of a value that passes the validation is the value itself.
mutual
  unfolding clone_value validate_value

  pub clone_value-eq :
      (depth : ℕ) (context : ErrorContext) (v : Value)
      → validate_value depth v ≡ none
      → clone_value depth context v ≡ ok v
  clone_value-eq depth context undefined h =
      ground (arith, ensure_clone_depth-within depth context _ h)
  clone_value-eq depth context null h = ground (arith, ensure_clone_depth-within depth context _ h)
  clone_value-eq depth context (bool b) h =
      ground (arith, ensure_clone_depth-within depth context _ h)
  clone_value-eq depth context (num (finite n)) h =
      ground (arith, ensure_clone_depth-within depth context _ h)
  clone_value-eq depth context (num nan) h =
      ground (arith, ensure_clone_depth-within depth context _ h)
  clone_value-eq depth context (num (infinite b)) h =
      ground (arith, ensure_clone_depth-within depth context _ h)
  clone_value-eq depth context (str s) h =
      ground (arith, ensure_clone_depth-within depth context _ h)
  clone_value-eq depth context (other n) h =
      ground (arith, ensure_clone_depth-within depth context _ h)
  clone_value-eq depth context (arr xs) h = ground (
    arith,
    ensure_clone_depth-within depth context _ h,
    clone_items-eq (suc depth) context xs (within-none depth _ h).1,
  )
  clone_value-eq depth context (obj true fs) h = ground (
    arith,
    ensure_clone_depth-within depth context _ h,
    clone_object-eq depth context fs (ensure_clone_depth-within depth context _ h)
        (within-none depth _ h).1,
  )
  clone_value-eq depth context (obj false fs) h = absurd (ground (arith, within-none depth _ h))

  pub clone_items-eq :
      (depth : ℕ) (context : ErrorContext) (xs : Items)
      → validate_items depth xs ≡ none
      → clone_items depth context xs ≡ ok xs
  clone_items-eq depth context nil h = refl
  clone_items-eq depth context (cons x xs) h =
      let (p, q) = first_error-none (validate_value depth x) (validate_items depth xs) h in
      ground (arith, clone_value-eq depth context x p, clone_items-eq depth context xs q)

  pub clone_object-eq :
      (depth : ℕ) (context : ErrorContext) (fs : Fields)
      → ensure_clone_depth depth context ≡ ok tt
      → validate_fields (suc depth) fs ≡ none
      → clone_object depth context fs ≡ ok fs
  clone_object-eq depth context end e h = ground (arith, e)
  clone_object-eq depth context (field k v fs) e h =
      let (p, q) =
        first_error-none (validate_value (suc depth) v) (validate_fields (suc depth) fs) h in
      ground
        (arith, e, clone_value-eq (suc depth) context v p, clone_object-eq depth context fs e q)
