-- ===== src/Json/Members.antt =====
-- Reading, setting and deleting the members of an object.
use http_rfc_utils.Common.{none, some, ◌≡◌, ◌≢◌, refl, arith, if◌then◌else◌}
use http_rfc_utils.Text.{Text, text_eq}
use http_rfc_utils.Text.Laws.{text_eq_iff, text_eq_refl}
use http_rfc_utils.Json.{Value, Fields, end, field, get, set_key, delete_key}

-- Objects have distinct keys.
abbrev pub Absent : Text → Fields → Type 0
Absent k fs = get fs k ≡ none

unfoldable pub IsRecord : Fields → Type 0
IsRecord end = Unit
IsRecord (field k v fs) = Absent k fs × IsRecord fs

pub get-set_key :
    (fs : Fields) (k j : Text) (v : Value)
    → get (set_key fs k v) j ≡ (if text_eq k j then some v else get fs j)
unfolding get set_key
get-set_key end k j v = ground arith
get-set_key (field i w fs) k j v =
    ground (arith, get-set_key fs k j v, text_eq_iff i k, text_eq_iff i j, text_eq_iff k j)

pub get-delete_key_ne : (fs : Fields) (k j : Text) → k ≢ j → get (delete_key fs k) j ≡ get fs j
unfolding get delete_key
get-delete_key_ne end k j h = refl
get-delete_key_ne (field i w fs) k j h =
    ground (arith, get-delete_key_ne fs k j h, text_eq_iff i k, text_eq_iff i j)

pub get-delete_key_self : (fs : Fields) (k : Text) → IsRecord fs → get (delete_key fs k) k ≡ none
unfolding get delete_key IsRecord
get-delete_key_self end k h = refl
get-delete_key_self (field i w fs) k (fresh, h) =
    ground (arith, get-delete_key_self fs k h, text_eq_iff i k)

pub get-delete_key :
    (fs : Fields) (k j : Text)
    → IsRecord fs
    → get (delete_key fs k) j ≡ (if text_eq k j then none else get fs j)
get-delete_key fs k j h =
    ground (arith, get-delete_key_self fs k h, get-delete_key_ne fs k j, text_eq_iff k j)

pub IsRecord-set_key :
    (fs : Fields) (k : Text) (v : Value) → IsRecord fs → IsRecord (set_key fs k v)
unfolding set_key IsRecord get
IsRecord-set_key end k v h = (refl, tt)
IsRecord-set_key (field i w fs) k v (fresh, h) =
    ground
      (arith, IsRecord-set_key fs k v h, get-set_key fs k i v, text_eq_iff i k, text_eq_iff k i)

pub IsRecord-delete_key : (fs : Fields) (k : Text) → IsRecord fs → IsRecord (delete_key fs k)
unfolding delete_key IsRecord
IsRecord-delete_key end k h = tt
IsRecord-delete_key (field i w fs) k (fresh, h) =
    ground (arith, IsRecord-delete_key fs k h, get-delete_key fs k i h)

-- Setting a new member and deleting it again gives the object back.
pub delete_key-set_key :
    (fs : Fields) (k : Text) (v : Value) → Absent k fs → delete_key (set_key fs k v) k ≡ fs
unfolding delete_key set_key get
delete_key-set_key end k v h = ground (arith, text_eq_refl k)
delete_key-set_key (field i w fs) k v h = ground (arith, delete_key-set_key fs k v, text_eq_iff i k)
