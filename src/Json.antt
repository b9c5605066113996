-- ===== src/Json.antt =====
-- JavaScript values as the JSON modules see them (types/json-patch.ts, types/json-merge-patch.ts,
-- object-map.ts). A value is a tree: sharing is not visible, since the modules copy what they
-- change, and cyclic values, which they refuse by a set of ancestors, are left out.
pub mod Members
use http_rfc_utils.Common.{ℕ, Bool, true, false, List, [], ◌∷◌, Option, none, some, is_some}
use http_rfc_utils.Text.{Text, text_eq}

-- A number is only tested for being finite and compared by `===`, so `finite` names it by a code.
pub data Number : Type 0 where
  finite : ℕ → Number
  nan : Number
  infinite : Bool → Number

-- `other` is a function, a symbol or a bigint. The flag of `obj` tells whether the prototype is
-- `Object.prototype` or null. Members have distinct keys and stand in the order they were added, in
-- which the loops over `Object.entries` take them; JavaScript takes keys that spell an array index
-- first, which changes the order of a result's members and which of several errors is met first.
mutual
  pub data Value : Type 0 where
    undefined : Value
    null : Value
    bool : Bool → Value
    num : Number → Value
    str : Text → Value
    other : ℕ → Value
    arr : Items → Value
    obj : Bool → Fields → Value

  pub data Items : Type 0 where
    nil : Items
    cons : Value → Items → Items

  pub data Fields : Type 0 where
    end : Fields
    field : Text → Value → Fields → Fields

-- `record[key]` of an own member.
unfoldable pub get : Fields → Text → Option Value
get end key = none
get (field k v fs) key = elim (text_eq k key) [ true ↦ some v | false ↦ get fs key ]

-- `Object.hasOwn(record, key)`
unfoldable pub has_own_key : Fields → Text → Bool
unfolding get
has_own_key fs key = is_some (get fs key)

-- `Object.defineProperty(target, key, …)` with a writable, enumerable value: an own member is
-- replaced where it stands, a new one is added.
unfoldable pub set_key : Fields → Text → Value → Fields
set_key end key value = field key value end
set_key (field k v fs) key value = elim (text_eq k key) [
  | true ↦ field k value fs
  | false ↦ field k v (set_key fs key value)
]

-- `delete target[key]`
unfoldable pub delete_key : Fields → Text → Fields
delete_key end key = end
delete_key (field k v fs) key = elim (text_eq k key) [
  | true ↦ fs
  | false ↦ field k v (delete_key fs key)
]

unfoldable pub elems : Items → List Value
elems nil = []
elems (cons x xs) = x ∷ elems xs

unfoldable pub keys : Fields → List Text
keys end = []
keys (field k v fs) = k ∷ keys fs
