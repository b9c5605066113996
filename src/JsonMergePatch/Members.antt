-- ===== src/JsonMergePatch/Members.antt =====
-- The result of a patch, member by member, as RFC 7396 section 2 describes it.
use http_rfc_utils.Common.{
  ℕ, suc, Bool, true, false, Option, none, some, ◌≡◌, refl, ap, arith, if◌then◌else◌, Bool-cases,
  inl, inr,
}
use http_rfc_utils.Common.Results.{ok}
use http_rfc_utils.Text.{Text, text_eq}
use http_rfc_utils.Text.Laws.{text_eq_iff}
use http_rfc_utils.Json.{Value, null, obj, Fields, end, field, get, set_key}
use http_rfc_utils.Json.Members.{IsRecord, get-set_key, IsRecord-set_key}
use http_rfc_utils.JsonMergePatch.{
  application, validate_value, validate_fields, ensure_clone_depth, is_null, next_target,
  merge_patch, merge_members, apply_json_merge_patch, validate_target, validate_json_merge_patch,
}
use http_rfc_utils.JsonMergePatch.Copy.{
  within-none, first_error-none, clone_value-eq, clone_object-eq,
}
use http_rfc_utils.JsonMergePatch.Total.{
  get-ValidAt, ValidAt, set_key-valid, dropped-valid, valid_within, IsJson,
}
use http_rfc_utils.JsonMergePatch.Distinct.{
  DistinctKeys, DistinctMembers, DistinctIn, get-DistinctIn, set_key-DistinctMembers, drop,
  drop-distinct, get-drop,
}

-- The members of the target, where it is an object; else there are none.
abbrev pub members : Option Value → Fields
members (some (obj true fs)) = fs
members target = end

abbrev pub is_object : Value → Bool
is_object (obj true fs) = true
is_object v = false

-- `MergePatch(Target, Patch)` of RFC 7396, and what it makes of one member: it stays where the patch
-- does not name it, goes where the patch has null, and else is patched itself.
mutual
  pub data Merges : Option Value → Value → Value → Type 0 where
    replaced :
        {target : Option Value} {patch : Value}
        → is_object patch ≡ false
        → Merges target patch patch
    merged :
        {target : Option Value} {fs rs : Fields}
        → ((k : Text) → Entry (get (members target) k) (get fs k) (get rs k))
        → Merges target (obj true fs) (obj true rs)

  pub data Entry : Option Value → Option Value → Option Value → Type 0 where
    kept : {before : Option Value} → Entry before none before
    removed : {before : Option Value} → Entry before (some null) none
    patched :
        {before : Option Value} {v w : Value}
        → is_null v ≡ false
        → Merges before v w
        → Entry before (some v) (some w)

next_target-eq :
    (depth : ℕ) (target : Option Value)
    → ensure_clone_depth depth application ≡ ok tt
    → ValidAt depth target
    → next_target depth target ≡ ok (members target)
unfolding next_target validate_value
next_target-eq depth (some (obj true fs)) e h =
    clone_object-eq depth application fs e (within-none depth _ h).1
next_target-eq depth _ e h = refl

members-valid :
    (depth : ℕ) (target : Option Value)
    → ValidAt depth target
    → validate_fields (suc depth) (members target) ≡ none
unfolding validate_value
members-valid depth (some (obj true fs)) h = (within-none depth _ h).1
members-valid depth _ h = refl

members-distinct :
    (target : Option Value)
    → DistinctIn target
    → IsRecord (members target) × DistinctMembers (members target)
unfolding DistinctKeys IsRecord
members-distinct (some (obj true fs)) h = h
members-distinct _ h = (tt, tt)

is_null-eq : (v : Value) → is_null v ≡ true → v ≡ null
unfolding is_null
is_null-eq null h = refl
is_null-eq _ h = absurd (ground arith)

Entry-none :
    {before member after : Option Value}
    → Entry before member after
    → member ≡ none
    → after ≡ before
Entry-none kept e = refl
Entry-none removed e = absurd (ground arith)
Entry-none (patched n m) e = absurd (ground arith)

Entry-cast : {b c p q a d : Option Value} → b ≡ c → p ≡ q → a ≡ d → Entry b p a → Entry c q d
Entry-cast eb ep ea h = rw (← eb, ← ep, ← ea) h

-- One round of the loop: its own member is `here` from then on, and the others are left alone.
Entry-step :
    (k j : Text) (v : Value) (fs next new rs : Fields) (here : Option Value)
    → get fs k ≡ none
    → Entry (get next k) (some v) here
    → get new j ≡ (if text_eq k j then here else get next j)
    → Entry (get new j) (get fs j) (get rs j)
    → Entry (get next j) (get (field k v fs) j) (get rs j)
unfolding get
Entry-step k j v fs next new rs here fresh own set h = elim (Bool-cases (text_eq k j)) [
  | inl e ↦
      let same : k ≡ j = (text_eq_iff k j).0 e in
      let gone : get fs j ≡ none = rw (← same) fresh in
      let kept_here : get rs j ≡ get new j = Entry-none h gone in
      Entry-cast (ap (get next) same) (ground (arith, e)) (ground (arith, e, set, kept_here)) own
  | inr e ↦ Entry-cast (ground (arith, e, set)) (ground (arith, e)) refl h
]

is_object-merge :
    (depth : ℕ) (target : Option Value) (patch : Value)
    → is_object patch ≡ false
    → validate_value depth patch ≡ none
    → merge_patch depth target patch ≡ ok patch
unfolding merge_patch
is_object-merge depth target (obj true fs) o h = absurd (ground arith)
is_object-merge depth target patch o h =
    ground (arith, valid_within depth patch h, clone_value-eq depth application patch h)

untouched : (next : Fields) (j : Text) → Entry (get next j) (get end j) (get next j)
unfolding get
untouched next j = kept

mutual
  unfolding merge_patch validate_value DistinctKeys IsRecord

  pub merge_patch-Merges :
      (depth : ℕ) (target : Option Value) (patch : Value)
      → ValidAt depth target
      → validate_value depth patch ≡ none
      → DistinctIn target
      → DistinctKeys patch
      → (v : Value) × (merge_patch depth target patch ≡ ok v)
        × (validate_value depth v ≡ none)
        × DistinctKeys v
        × Merges target patch v
  merge_patch-Merges depth target (obj true fs) t h td pd =
      let e = valid_within depth (obj true fs) h in
      let fv = (within-none depth _ h).1 in
      let (rs, me, rv, rd, entries) =
        merge_members-Entry depth fs (members target) fv (members-valid depth target t) pd
          (members-distinct target td) in
      (
        obj true rs,
        ground (arith, e, next_target-eq depth target e t, me),
        ground (arith, within-none depth _ h, rv),
        rd,
        merged entries,
      )
  merge_patch-Merges depth target patch t h td pd =
      (patch, is_object-merge depth target patch refl h, h, pd, replaced refl)

  pub merge_members-Entry :
      (depth : ℕ) (fs next : Fields)
      → validate_fields (suc depth) fs ≡ none
      → validate_fields (suc depth) next ≡ none
      → IsRecord fs × DistinctMembers fs
      → IsRecord next × DistinctMembers next
      → (rs : Fields) × (merge_members depth fs next ≡ ok rs)
        × (validate_fields (suc depth) rs ≡ none)
        × (IsRecord rs × DistinctMembers rs)
        × ((j : Text) → Entry (get next j) (get fs j) (get rs j))
  merge_members-Entry depth end next h n fd nd = (next, refl, n, nd, untouched next)
  merge_members-Entry depth (field k v fs) next h n ((fresh, fr), (vd, fd)) (nr, nd) =
      let (p, q) =
        first_error-none (validate_value (suc depth) v) (validate_fields (suc depth) fs) h in
      elim (Bool-cases (is_null v)) [
        | inl e ↦
            let new = drop next k in
            let (rs, me, rv, rd, entries) =
              merge_members-Entry depth fs new q (dropped-valid (suc depth) next k n) (fr, fd)
                (drop-distinct next k (nr, nd)) in
            (
              rs,
              ground (arith, e, me),
              rv,
              rd,
              λ j.
                  Entry-step k j v fs next new rs none fresh (rw (is_null-eq v e) removed)
                    (get-drop next k j nr) (entries j),
            )
        | inr e ↦
            let (w, we, wv, wd, m) =
              merge_patch-Merges (suc depth) (get next k) v (get-ValidAt (suc depth) next k n) p
                (get-DistinctIn next k nd) vd in
            let new = set_key next k w in
            let (rs, me, rv, rd, entries) =
              merge_members-Entry depth fs new q (set_key-valid (suc depth) next k w n wv) (fr, fd)
                (IsRecord-set_key next k w nr, set_key-DistinctMembers next k w nd wd) in
            (
              rs,
              ground (arith, e, we, me),
              rv,
              rd,
              λ j.
                  Entry-step k j v fs next new rs (some w) fresh (patched e m)
                    (get-set_key next k j w) (entries j),
            )
      ]

-- For documents that pass the validation, with distinct keys in every object, an application gives
-- what RFC 7396 describes, member by member and at every depth; it has distinct keys again.
pub apply_json_merge_patch-Merges :
    (target patch : Value)
    → IsJson target
    → IsJson patch
    → DistinctKeys target
    → DistinctKeys patch
    → (r : Value) × (apply_json_merge_patch target patch ≡ ok r)
      × DistinctKeys r
      × Merges (some target) patch r
unfolding apply_json_merge_patch validate_target validate_json_merge_patch
apply_json_merge_patch-Merges target patch t p td pd =
    let (r, e, _, rd, m) = merge_patch-Merges 0 (some target) patch t p td pd in
    (r, ground (arith, t, p, e), rd, m)
