-- ===== src/Stub/Attributes.antt =====
-- What a script does with an object: its attributes read and set, and its methods called.
use pyconnect.Base.{
  Bool, Bytes, List, Option, [], bytes_eq, false, if◌then◌else◌, length, ltb, none, not, some, suc,
  ℕ, ◌&&◌, ◌++◌, ◌+◌, ◌-◌, ◌==◌, ◌||◌, ◌∷◌,
}
use pyconnect.Common.Types.{call_attr_metd, call_attr_metd_nocb, codes}
use pyconnect.Common.Python.{Python, pack_to_str, validate_type_and_size}
use pyconnect.Stub.Expose.{PyArgument}
use pyconnect.Stub.Messages.{call_message}
use pyconnect.Stub.Object.{
  DictItem, PyAttribute, PyMethod, PyObject, dict_delete, dict_get, dict_set, object_item,
  set_attr_value,
}
use pyconnect.Stub.Registry.{Effect}

-- The exception that is raised.
pub data PyError : Type 0 where
  missing_value attribute_error value_error type_error : PyError

pub data SetResult : Type 0 where
  set_done : SetResult
  set_failed : PyError → SetResult

module _ (py : Python) where
  unfoldable pub find_attribute : Bytes → ℕ → List (PyAttribute py) → Option (ℕ × PyAttribute py)
  find_attribute name i [] = none
  find_attribute name i (a ∷ attrs) =
      let rest = find_attribute name (suc i) attrs in
      if bytes_eq name a.name then some (i, a) else rest

  unfoldable pub find_method : Bytes → List PyMethod → Option PyMethod
  find_method name [] = none
  find_method name (m ∷ ms) =
      let rest = find_method name ms in if bytes_eq name m.name then some m else rest

  -- What `getAttribute` returns: a text, a boolean, the dictionary, a value, a bound method, or what
  -- the generic search of Python gives.
  pub data GetResult : Type 0 where
    text_result : Bytes → GetResult
    bool_result : Bool → GetResult
    dict_result : List (Bytes × DictItem py) → GetResult
    value_result : py.Obj → GetResult
    method_result : PyMethod → GetResult
    item_result : DictItem py → GetResult
    generic_result : GetResult

  unfoldable pub get_attribute : Bytes → PyObject py → GetResult
  get_attribute name o =
      if bytes_eq name (codes "__doc__")
      then text_result o.desc
      else if bytes_eq name (codes "__nocallback__")
      then bool_result o.no_callback
      else if bytes_eq name (codes "__dict__")
      then dict_result o.dict
      else elim (find_attribute name 0 o.attrs) [
        | some (_, a) ↦ value_result a.value
        | none ↦ elim (find_method name o.metds) [
          | some m ↦ method_result m
          | none ↦ elim (dict_get py name o.dict) [
            | some item ↦ item_result item
            | none ↦ generic_result
          ]
        ]
      ]

  abbrev pub SetOutcome : Type 0
  SetOutcome = PyObject py × List (Effect py) × SetResult

  -- `setAttribute` for an attribute of the module: a call goes to it, and the value changes at once
  -- only if no answer will come.
  unfoldable pub set_module_attribute : ℕ → ℕ → PyAttribute py → py.Obj → PyObject py → SetOutcome
  set_module_attribute server_id aind a value o =
      let data_bytes = pack_to_str py value a.type in
      if a.read_only
      then (o, [], set_failed attribute_error)
      else if validate_type_and_size py (some value) a.type == 0
      then (o, [], set_failed value_error)
      else if o.no_callback
      then (
        set_attr_value py aind a value o,
        Effect.dispatch (call_message call_attr_metd_nocb server_id o.id aind data_bytes) false
            ∷ [],
        set_done,
      )
      else (
        o,
        Effect.dispatch (call_message call_attr_metd server_id o.id aind data_bytes) false ∷ [],
        set_done,
      )

  -- `setAttribute` for a name that only the dictionary may have; `None` deletes what is there.
  unfoldable pub set_dict_attribute : Bytes → py.Obj → PyObject py → SetOutcome
  set_dict_attribute name value o =
      let stored = record o { dict = dict_set py name (object_item value) o.dict } in
      elim (dict_get py name o.dict) [
        | none ↦ (stored, [], set_done)
        | some _ ↦ (
          (if py.is_none value then record o { dict = dict_delete py name o.dict } else stored),
          [],
          set_done,
        )
      ]

  unfoldable pub set_named_attribute : ℕ → Bytes → py.Obj → PyObject py → SetOutcome
  set_named_attribute server_id name value o = elim (find_attribute name 0 o.attrs) [
    | some (aind, a) ↦ set_module_attribute server_id aind a value o
    | none ↦ elim (find_method name o.metds) [
      | some m ↦ (o, [], set_failed type_error)
      | none ↦ set_dict_attribute name value o
    ]
  ]

  -- `setAttribute`; `none` is the null pointer that a description gives that is not a text. A boolean
  -- for `__nocallback__` is kept in the object, and then stored in the dictionary too.
  unfoldable pub set_attribute : ℕ → Bytes → Option py.Obj → PyObject py → Option SetOutcome
  set_attribute server_id name none o = some (o, [], set_failed missing_value)
  set_attribute server_id name (some value) o =
      let nocallback = bytes_eq name (codes "__nocallback__") in
      let o' = if nocallback then record o { no_callback = py.is_true value } else o in
      if nocallback && not (py.bool_check value)
      then some (o, [], set_failed attribute_error)
      else if bytes_eq name (codes "__name__") || bytes_eq name (codes "id")
      then some (o', [], set_failed attribute_error)
      else if bytes_eq name (codes "__doc__")
      then if py.unicode_check value
        then some (record o' { desc = py.as_utf8 value }, [], set_done)
        else none
      else some (set_named_attribute server_id name value o')

  -- The first argument loop of `pyCall`: the position, from 1, of an argument that is not of its type.
  unfoldable pub mismatch : ℕ → List py.Obj → List PyArgument → Option ℕ
  mismatch i [] types = none
  mismatch i (x ∷ xs) [] = none
  mismatch i (x ∷ xs) (a ∷ types) =
      let rest = mismatch (suc i) xs types in
      if validate_type_and_size py (some x) a.type == 0 then some i else rest

  -- The two packing loops.
  unfoldable pub pack_forwards : List py.Obj → List PyArgument → Bytes
  pack_forwards [] types = []
  pack_forwards (x ∷ xs) [] = []
  pack_forwards (x ∷ xs) (a ∷ types) = pack_to_str py x a.type ++ pack_forwards xs types

  unfoldable pub pack_backwards : List py.Obj → List PyArgument → Bytes
  pack_backwards [] types = []
  pack_backwards (x ∷ xs) [] = []
  pack_backwards (x ∷ xs) (a ∷ types) = pack_backwards xs types ++ pack_to_str py x a.type

  pub data CallOutcome : Type 0 where
    called : Effect py → CallOutcome
    wrong_count : CallOutcome
    wrong_type : ℕ → CallOutcome

  -- `pyCall`, without the first argument.
  unfoldable pub py_call : ℕ → PyMethod → List py.Obj → PyObject py → CallOutcome
  py_call server_id m args o =
      let min_req_args = length m.args - m.opt_args in
      let arg_size = length args in
      let bytes =
        if o.arg_eval_reversed then pack_forwards args m.args else pack_backwards args m.args in
      let mindex = length o.attrs + m.id in
      let msg_type = if o.no_callback then call_attr_metd_nocb else call_attr_metd in
      if ltb arg_size min_req_args || ltb (min_req_args + m.opt_args) arg_size
      then wrong_count
      else elim (mismatch 1 args m.args) [
        | some i ↦ wrong_type i
        | none ↦ called (Effect.dispatch (call_message msg_type server_id o.id mindex bytes) false)
      ]
