-- ===== src/JsonMergePatch/Distinct.antt =====
-- Distinct keys in every object of a value, and what the loop of `mergePatch` keeps of them.
use http_rfc_utils.Common.{Option, none, some, ◌≡◌, arith, if◌then◌else◌, Bool-cases, inl, inr}
use http_rfc_utils.Text.{Text, text_eq}
use http_rfc_utils.Text.Laws.{text_eq_iff}
use http_rfc_utils.Json.{
  Value, undefined, null, bool, num, str, other, arr, obj, Items, nil, cons, Fields, end, field,
  get, has_own_key, set_key, delete_key,
}
use http_rfc_utils.Json.Members.{IsRecord, get-delete_key, IsRecord-delete_key}

-- Every object in the value has distinct keys.
unfoldable mutual
  pub DistinctKeys : Value → Type 0
  DistinctKeys undefined = Unit
  DistinctKeys null = Unit
  DistinctKeys (bool b) = Unit
  DistinctKeys (num n) = Unit
  DistinctKeys (str s) = Unit
  DistinctKeys (other n) = Unit
  DistinctKeys (arr xs) = DistinctItems xs
  DistinctKeys (obj plain fs) = IsRecord fs × DistinctMembers fs

  pub DistinctItems : Items → Type 0
  DistinctItems nil = Unit
  DistinctItems (cons x xs) = DistinctKeys x × DistinctItems xs

  pub DistinctMembers : Fields → Type 0
  DistinctMembers end = Unit
  DistinctMembers (field k v fs) = DistinctKeys v × DistinctMembers fs

-- A value that is missing, or whose objects have distinct keys.
abbrev pub DistinctIn : Option Value → Type 0
DistinctIn none = Unit
DistinctIn (some v) = DistinctKeys v

pub get-DistinctIn : (fs : Fields) (k : Text) → DistinctMembers fs → DistinctIn (get fs k)
unfolding get DistinctKeys
get-DistinctIn end k h = tt
get-DistinctIn (field i v fs) k (p, q) = elim (Bool-cases (text_eq i k)) [
  | inl e ↦ rw (DistinctIn, e) p
  | inr e ↦ rw (DistinctIn, e) (get-DistinctIn fs k q)
]

pub set_key-DistinctMembers :
    (fs : Fields) (k : Text) (v : Value)
    → DistinctMembers fs
    → DistinctKeys v
    → DistinctMembers (set_key fs k v)
unfolding set_key DistinctKeys
set_key-DistinctMembers end k v h g = (g, tt)
set_key-DistinctMembers (field i w fs) k v (p, q) g = elim (Bool-cases (text_eq i k)) [
  | inl e ↦ rw (set_key, e) (g, q)
  | inr e ↦ rw (set_key, e) (p, set_key-DistinctMembers fs k v q g)
]

delete_key-DistinctMembers :
    (fs : Fields) (k : Text) → DistinctMembers fs → DistinctMembers (delete_key fs k)
unfolding delete_key DistinctKeys
delete_key-DistinctMembers end k h = tt
delete_key-DistinctMembers (field i w fs) k (p, q) = elim (Bool-cases (text_eq i k)) [
  | inl e ↦ rw (delete_key, e) q
  | inr e ↦ rw (delete_key, e) (p, delete_key-DistinctMembers fs k q)
]

-- An object without the member, as the loop makes it.
abbrev pub drop : Fields → Text → Fields
drop fs k = if has_own_key fs k then delete_key fs k else fs

pub drop-distinct :
    (fs : Fields) (k : Text)
    → IsRecord fs × DistinctMembers fs
    → IsRecord (drop fs k) × DistinctMembers (drop fs k)
drop-distinct fs k (r, d) = elim (Bool-cases (has_own_key fs k)) [
  | inl e ↦ rw e (IsRecord-delete_key fs k r, delete_key-DistinctMembers fs k d)
  | inr e ↦ rw e (r, d)
]

pub get-drop :
    (fs : Fields) (k j : Text)
    → IsRecord fs
    → get (drop fs k) j ≡ (if text_eq k j then none else get fs j)
unfolding has_own_key
get-drop fs k j r = ground (arith, get-delete_key fs k j r, text_eq_iff k j)
