-- ===== src/JsonMergePatch/Total.antt =====
-- A patch is applied without an error exactly where both documents pass the validation, and the
-- result passes it again.
use http_rfc_utils.Common.{
  ℕ, suc, true, false, Option, none, some, ◌≡◌, refl, arith, if◌then◌else◌, Bool-cases, inl, inr,
  ◌↔◌,
}
use http_rfc_utils.Common.Results.{ok}
use http_rfc_utils.Text.{Text, text_eq}
use http_rfc_utils.Json.{
  finite, nan, infinite, Value, undefined, null, bool, num, str, other, arr, obj, Fields, end,
  field, get, has_own_key, set_key, delete_key,
}
use http_rfc_utils.JsonMergePatch.{
  ValidationError, application, first_error, validate_value, validate_fields, ensure_clone_depth,
  is_null, next_target, validate_target, validate_json_merge_patch, merge_patch, merge_members,
  apply_json_merge_patch, parse_json_merge_patch, value,
}
use http_rfc_utils.JsonMergePatch.Copy.{
  within-none, first_error-none, ensure_clone_depth-within, clone_value-eq, clone_object-eq,
}

-- A value that is missing, or passes the validation.
abbrev pub ValidAt : ℕ → Option Value → Type 0
ValidAt depth none = Unit
ValidAt depth (some v) = validate_value depth v ≡ none

pub get-ValidAt :
    (depth : ℕ) (fs : Fields) (k : Text)
    → validate_fields depth fs ≡ none
    → ValidAt depth (get fs k)
unfolding get validate_value
get-ValidAt depth end k h = tt
get-ValidAt depth (field i v fs) k h =
    let (p, q) = first_error-none (validate_value depth v) (validate_fields depth fs) h in
    elim (Bool-cases (text_eq i k)) [
      | inl e ↦ rw (ValidAt, e) p
      | inr e ↦ rw (ValidAt, e) (get-ValidAt depth fs k q)
    ]

first_error-both : (a b : Option ValidationError) → a ≡ none → b ≡ none → first_error a b ≡ none
unfolding first_error
first_error-both a b p q = ground (arith, p, q)

pub set_key-valid :
    (depth : ℕ) (fs : Fields) (k : Text) (v : Value)
    → validate_fields depth fs ≡ none
    → validate_value depth v ≡ none
    → validate_fields depth (set_key fs k v) ≡ none
unfolding set_key validate_value
set_key-valid depth end k v h g = first_error-both _ _ g refl
set_key-valid depth (field i w fs) k v h g =
    let (p, q) = first_error-none (validate_value depth w) (validate_fields depth fs) h in
    elim (Bool-cases (text_eq i k)) [
      | inl e ↦
          rw (set_key, e) (first_error-both (validate_value depth v) (validate_fields depth fs) g q)
      | inr e ↦ rw (set_key, e) (first_error-both _ _ p (set_key-valid depth fs k v q g))
    ]

pub delete_key-valid :
    (depth : ℕ) (fs : Fields) (k : Text)
    → validate_fields depth fs ≡ none
    → validate_fields depth (delete_key fs k) ≡ none
unfolding delete_key validate_value
delete_key-valid depth end k h = refl
delete_key-valid depth (field i w fs) k h =
    let (p, q) = first_error-none (validate_value depth w) (validate_fields depth fs) h in
    elim (Bool-cases (text_eq i k)) [
      | inl e ↦ rw (delete_key, e) q
      | inr e ↦ rw (delete_key, e) (first_error-both _ _ p (delete_key-valid depth fs k q))
    ]

pub dropped-valid :
    (depth : ℕ) (fs : Fields) (k : Text)
    → validate_fields depth fs ≡ none
    → validate_fields depth (if has_own_key fs k then delete_key fs k else fs) ≡ none
dropped-valid depth fs k h = ground (arith, delete_key-valid depth fs k h, h)

next_target-valid :
    (depth : ℕ) (target : Option Value)
    → ensure_clone_depth depth application ≡ ok tt
    → ValidAt depth target
    → (next : Fields) × (next_target depth target ≡ ok next)
      × (validate_fields (suc depth) next ≡ none)
unfolding next_target validate_value
next_target-valid depth (some (obj true fs)) e h = (
  fs,
  clone_object-eq depth application fs e (within-none depth _ h).1,
  (within-none depth _ h).1,
)
next_target-valid depth _ e h = (end, refl, refl)

pub valid_within :
    (depth : ℕ) (v : Value)
    → validate_value depth v ≡ none
    → ensure_clone_depth depth application ≡ ok tt
unfolding validate_value
valid_within depth undefined h = ensure_clone_depth-within depth application _ h
valid_within depth null h = ensure_clone_depth-within depth application _ h
valid_within depth (bool b) h = ensure_clone_depth-within depth application _ h
valid_within depth (num (finite n)) h = ensure_clone_depth-within depth application _ h
valid_within depth (num nan) h = ensure_clone_depth-within depth application _ h
valid_within depth (num (infinite b)) h = ensure_clone_depth-within depth application _ h
valid_within depth (str s) h = ensure_clone_depth-within depth application _ h
valid_within depth (other n) h = ensure_clone_depth-within depth application _ h
valid_within depth (arr xs) h = ensure_clone_depth-within depth application _ h
valid_within depth (obj true fs) h = ensure_clone_depth-within depth application _ h
valid_within depth (obj false fs) h = ensure_clone_depth-within depth application _ h

-- A patch that passes the validation at a depth merges into a target that passes it there, or into
-- none; the result passes it too.
mutual
  unfolding merge_patch validate_value

  pub merge_patch-valid :
      (depth : ℕ) (target : Option Value) (patch : Value)
      → ValidAt depth target
      → validate_value depth patch ≡ none
      → (v : Value) × (merge_patch depth target patch ≡ ok v) × (validate_value depth v ≡ none)
  merge_patch-valid depth target (obj true fs) t h =
      let e = ensure_clone_depth-within depth application _ h in
      let (next, ne, nv) = next_target-valid depth target e t in
      let (rs, me, rv) = merge_members-valid depth fs next (within-none depth _ h).1 nv in
      (obj true rs, ground (arith, e, ne, me), ground (arith, within-none depth _ h, rv))
  merge_patch-valid depth target patch t h = (
    patch,
    ground (arith, valid_within depth patch h, clone_value-eq depth application patch h),
    h,
  )

  pub merge_members-valid :
      (depth : ℕ) (fs next : Fields)
      → validate_fields (suc depth) fs ≡ none
      → validate_fields (suc depth) next ≡ none
      → (rs : Fields) × (merge_members depth fs next ≡ ok rs)
        × (validate_fields (suc depth) rs ≡ none)
  merge_members-valid depth end next h n = (next, refl, n)
  merge_members-valid depth (field k v fs) next h n =
      let (p, q) =
        first_error-none (validate_value (suc depth) v) (validate_fields (suc depth) fs) h in
      elim (Bool-cases (is_null v)) [
        | inl e ↦
            let (rs, me, rv) =
              merge_members-valid depth fs _ q (dropped-valid (suc depth) next k n) in
            (rs, ground (arith, e, me), rv)
        | inr e ↦
            let (w, we, wv) =
              merge_patch-valid (suc depth) (get next k) v (get-ValidAt (suc depth) next k n) p in
            let (rs, me, rv) =
              merge_members-valid depth fs (set_key next k w) q
                (set_key-valid (suc depth) next k w n wv) in
            (rs, ground (arith, e, we, me), rv)
      ]

-- What `applyJsonMergePatch` says of two documents.
abbrev pub IsJson : Value → Type 0
IsJson v = validate_value 0 v ≡ none

-- An application gives a result, which passes the validation, exactly if both documents pass it: no
-- bound on the depth of a copy is met for such documents.
pub apply_json_merge_patch_iff :
    (target patch : Value)
    → ((r : Value) × (apply_json_merge_patch target patch ≡ ok r) × IsJson r)
      ↔ (IsJson target × IsJson patch)
unfolding apply_json_merge_patch validate_target validate_json_merge_patch
apply_json_merge_patch_iff target patch = (
  λ (r, e, _). (ground (arith, e), ground (arith, e)),
  λ (t, p).
      let (r, e, v) = merge_patch-valid 0 (some target) patch t p in
      (r, ground (arith, t, p, e), v),
)

-- `parseJsonMergePatch` never throws: it returns an equal value for one that passes the validation,
-- and null for any other.
pub parse_json_merge_patch_total :
    (v : Value)
    → (IsJson v → parse_json_merge_patch v ≡ ok (some v))
      × ((e : ValidationError) → validate_value 0 v ≡ some e → parse_json_merge_patch v ≡ ok none)
unfolding parse_json_merge_patch
parse_json_merge_patch_total v =
    (λ h. ground (arith, h, clone_value-eq 0 value v h), λ e h. ground (arith, h))
