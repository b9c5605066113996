-- ===== src/JsonMergePatch/Tests.antt =====
-- Runs of json-merge-patch.ts, and its theorems at concrete inputs.
use http_rfc_utils.Common.{true, some, ◌≡◌, ◌↔◌, refl}
use http_rfc_utils.Common.Results.{ok, err}
use http_rfc_utils.Text.{codes}
use http_rfc_utils.Json.{Value, undefined, null, str, arr, obj, nil, cons, end, field}
use http_rfc_utils.JsonMergePatch.{
  invalid_json_value, invalid_patch, validate_value, apply_json_merge_patch,
}
use http_rfc_utils.JsonMergePatch.Total.{IsJson, apply_json_merge_patch_iff}
use http_rfc_utils.Json.Members.{IsRecord}
use http_rfc_utils.JsonMergePatch.Distinct.{DistinctKeys}
use http_rfc_utils.JsonMergePatch.Members.{Merges, apply_json_merge_patch-Merges}
use http_rfc_utils.JsonMergePatch.{
  merge_patch, validate_target, next_target, validate_json_merge_patch, ensure_clone_depth,
  clone_object,
}
use http_rfc_utils.Json.{has_own_key, set_key, get, delete_key}
use http_rfc_utils.Text.{text_eq}

-- `{"a": "b", "c": {"d": "e", "f": "g"}}` and the patch `{"a": "z", "c": {"f": null}}`.
abbrev document : Value
document = obj true (
    field (codes "a") (str (codes "b")) (
      field (codes "c")
        (obj true (field (codes "d") (str (codes "e")) (field (codes "f") (str (codes "g")) end)))
        end))

abbrev change : Value
change = obj true (
    field (codes "a") (str (codes "z"))
      (field (codes "c") (obj true (field (codes "f") null end)) end))

abbrev changed : Value
changed = obj true (
    field (codes "a") (str (codes "z"))
      (field (codes "c") (obj true (field (codes "d") (str (codes "e")) end)) end))

apply_run : apply_json_merge_patch document change ≡ ok changed
unfolding apply_json_merge_patch validate_target validate_value validate_json_merge_patch
    merge_patch ensure_clone_depth next_target clone_object get set_key text_eq has_own_key
    delete_key
apply_run = refl

invalid_run :
    apply_json_merge_patch document (arr (cons undefined nil))
    ≡ err (invalid_patch invalid_json_value)
unfolding apply_json_merge_patch validate_target validate_value validate_json_merge_patch
invalid_run = refl

document-IsJson : IsJson document
unfolding validate_value
document-IsJson = refl

change-IsJson : IsJson change
unfolding validate_value
change-IsJson = refl

document-DistinctKeys : DistinctKeys document
unfolding DistinctKeys IsRecord get text_eq
document-DistinctKeys = ((refl, (refl, tt)), (tt, (((refl, (refl, tt)), (tt, (tt, tt))), tt)))

change-DistinctKeys : DistinctKeys change
unfolding DistinctKeys IsRecord get text_eq
change-DistinctKeys = ((refl, (refl, tt)), (tt, (((refl, tt), (tt, tt)), tt)))

apply_json_merge_patch_iff_example :
    ((r : Value) × (apply_json_merge_patch document change ≡ ok r) × IsJson r)
    ↔ (IsJson document × IsJson change)
apply_json_merge_patch_iff_example = apply_json_merge_patch_iff document change

apply_json_merge_patch-Merges_example :
    (r : Value) × (apply_json_merge_patch document change ≡ ok r)
    × DistinctKeys r
    × Merges (some document) change r
apply_json_merge_patch-Merges_example =
    apply_json_merge_patch-Merges document change document-IsJson change-IsJson
      document-DistinctKeys change-DistinctKeys
