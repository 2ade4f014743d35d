-- ===== src/Wrapper/Module.antt =====
-- `PyConnectModule`, with its maps of attributes and methods, which iterate in the order of names.
use pyconnect.Base.{
  Bool, Bytes, List, Option, [], bytes_eq, false, if◌then◌else◌, length, ltb, none, some, true,
  ◌==◌, ◌∷◌,
}
use pyconnect.Common.Types.{PyConnectType}
use pyconnect.Wrapper.Values.{Value}

pub record Argument : Type 0 where
  pub type : PyConnectType
  pub is_optional : Bool

-- `value` is what `getRawValueFn` reads from the program; a null `attrSetFn` is `writable = false`.
pub record Attribute : Type 0 where
  pub desc : Bytes
  pub type : PyConnectType
  pub writable : Bool
  pub value : Value

pub record Method : Type 0 where
  pub desc : Bytes
  pub type : PyConnectType
  pub args : List Argument

pub record PyConnectModule : Type 0 where
  pub name : Bytes
  pub desc : Bytes
  pub attributes : List (Bytes × Attribute)
  pub methods : List (Bytes × Method)

-- `std::string`'s `<`.
unfoldable pub bytes_lt : Bytes → Bytes → Bool
bytes_lt [] [] = false
bytes_lt [] (y ∷ ys) = true
bytes_lt (x ∷ xs) [] = false
bytes_lt (x ∷ xs) (y ∷ ys) =
    let rest = bytes_lt xs ys in if ltb x y then true else if x == y then rest else false

module _ {ℓ} {V : Type ℓ} where
  -- `std::map<std::string, V *>`: `find`, and the assignment of a new key.
  unfoldable pub find : Bytes → List (Bytes × V) → Option V
  find k [] = none
  find k ((j, v) ∷ m) = let rest = find k m in if bytes_eq j k then some v else rest

  unfoldable pub add : Bytes → V → List (Bytes × V) → List (Bytes × V)
  add k v [] = (k, v) ∷ []
  add k v ((j, w) ∷ m) =
      let deeper = (j, w) ∷ add k v m in if bytes_lt k j then (k, v) ∷ (j, w) ∷ m else deeper

-- `addNewAttribute`.
unfoldable pub add_new_attribute : Bytes → Attribute → PyConnectModule → PyConnectModule
add_new_attribute attr_name attribute m =
    if ltb 255 (length attr_name) then m else elim (find attr_name m.attributes) [
      | some _ ↦ m
      | none ↦ record m { attributes = add attr_name attribute m.attributes }
    ]

-- `addNewMethod`.
unfoldable pub add_new_method : Bytes → Method → PyConnectModule → PyConnectModule
add_new_method metd_name method m =
    if ltb 255 (length metd_name) then m else elim (find metd_name m.methods) [
      | some _ ↦ m
      | none ↦ record m { methods = add metd_name method m.methods }
    ]
