-- ===== src/Stub/Object.antt =====
-- `PyConnectObject` and its attributes and methods, with the handling of what its module reports.
use pyconnect.Base.{
  Bool, Bytes, List, Option, [], bytes_eq, false, get_elem?, if◌then◌else◌, length, none, set, some,
  suc, true, zero, ℕ, ◌++◌, ◌+◌, ◌-◌, ◌==◌, ◌∷◌,
}
use pyconnect.Common.Types.{PyConnectType, SockAddr, codes}
use pyconnect.Common.Reader.{Reader, pure, ◌>>=◌}
use pyconnect.Common.Pack.{unpack_str_to_int, unpack_string}
use pyconnect.Common.Python.{Python, unpack_str}
use pyconnect.Stub.Expose.{AttributeEntry, MethodEntry, PyArgument}

-- `PyConnectMethod`.
pub record PyMethod : Type 0 where
  pub name : Bytes
  pub desc : Bytes
  pub ret_type : PyConnectType
  pub args : List PyArgument
  pub opt_args : ℕ
  pub id : ℕ

-- The number of optional arguments, counted by the exposure loop.
unfoldable pub count_optional : List PyArgument → ℕ
count_optional [] = 0
count_optional (a ∷ args) = (if a.optional then 1 else 0) + count_optional args

module _ (py : Python) where
  -- `PyConnectAttribute`.
  pub record PyAttribute : Type 0 where
    pub name : Bytes
    pub desc : Bytes
    pub type : PyConnectType
    pub read_only : Bool
    pub value : py.Obj

  -- A value of the object's dictionary: the methods are there too.
  pub data DictItem : Type 0 where
    object_item : py.Obj → DictItem
    method_item : PyMethod → DictItem

  pub record PyObject : Type 0 where
    pub id : ℕ
    pub name : Bytes
    pub desc : Bytes
    pub no_callback : Bool
    pub arg_eval_reversed : Bool
    pub attrs : List PyAttribute
    pub metds : List PyMethod
    pub dict : List (Bytes × DictItem)

  -- The argument of a callback.
  pub data CallbackArg : Type 0 where
    number_arg : ℕ → CallbackArg
    value_arg : py.Obj → CallbackArg

  -- `PyDict_GetItemString` and `PyDict_SetItemString`.
  unfoldable pub dict_get : Bytes → List (Bytes × DictItem) → Option DictItem
  dict_get k [] = none
  dict_get k ((j, v) ∷ d) = let rest = dict_get k d in if bytes_eq j k then some v else rest

  unfoldable pub dict_set : Bytes → DictItem → List (Bytes × DictItem) → List (Bytes × DictItem)
  dict_set k v [] = (k, v) ∷ []
  dict_set k v ((j, w) ∷ d) =
      let deeper = (j, w) ∷ dict_set k v d in if bytes_eq j k then (k, v) ∷ d else deeper

  unfoldable pub dict_delete : Bytes → List (Bytes × DictItem) → List (Bytes × DictItem)
  dict_delete k [] = []
  dict_delete k ((j, w) ∷ d) =
      let deeper = (j, w) ∷ dict_delete k d in if bytes_eq j k then d else deeper

  -- The constructor with a name, an identifier, a description and options, then `setNetworkAddress`.
  unfoldable pub network_address : SockAddr → List (Bytes × DictItem) → List (Bytes × DictItem)
  network_address addr d =
      if addr.is_inet
      then dict_set (codes "__ip__") (object_item (py.from_string addr.ip))
          (dict_set (codes "__port__") (object_item (py.from_int addr.port)) d)
      else d

  unfoldable pub new_object : Bytes → ℕ → Bytes → ℕ → SockAddr → PyObject
  new_object name id desc options addr = record {
    id = id;
    name = name;
    desc = if bytes_eq desc [] then codes "Undocumented PyConnect object" else desc;
    no_callback = false;
    arg_eval_reversed = options == 1;
    attrs = [];
    metds = [];
    dict = network_address addr (
        dict_set (codes "__name__") (object_item (py.from_string name))
          (dict_set (codes "id") (object_item (py.from_int id)) []));
  }

  -- `addNewAttribute` and `addNewMethod`.
  unfoldable pub add_attribute : AttributeEntry py → PyObject → PyObject
  add_attribute e o = record o {
    attrs =
        o.attrs
        ++ (record {
          name = e.name;
          desc = [];
          type = e.type;
          read_only = e.read_only;
          value = e.value;
        }
            ∷ []);
    dict = dict_set e.name (object_item e.value) o.dict;
  }

  unfoldable pub method_of : MethodEntry → ℕ → PyMethod
  method_of e id = record {
    name = e.name;
    desc = [];
    ret_type = e.ret_type;
    args = e.args;
    opt_args = count_optional e.args;
    id = id;
  }

  unfoldable pub add_method : MethodEntry → PyObject → PyObject
  add_method e o =
      let m = method_of e (length o.metds) in
      record o { metds = o.metds ++ (m ∷ []); dict = dict_set e.name (method_item m) o.dict }

  unfoldable pub add_attributes : List (AttributeEntry py) → PyObject → PyObject
  add_attributes [] o = o
  add_attributes (e ∷ es) o = add_attributes es (add_attribute e o)

  unfoldable pub add_methods : List MethodEntry → PyObject → PyObject
  add_methods [] o = o
  add_methods (e ∷ es) o = add_methods es (add_method e o)

  -- `setValue`.
  unfoldable pub set_attr_value : ℕ → PyAttribute → py.Obj → PyObject → PyObject
  set_attr_value index a v o = record o { attrs = set o.attrs index (record a { value = v }) }

  -- `onSetAttrMetdResp`: the new object, and the callback's name and argument.
  abbrev pub Response : Type 0
  Response = PyObject × Bytes × CallbackArg

  unfoldable pub set_attr_resp : ℕ → PyAttribute → ℕ → PyObject → Reader Response
  set_attr_resp index a err o =
      if err == 0
      then (unpack_str py a.type >>= λ v.
          pure (set_attr_value index a v o, codes "onSet" ++ a.name, value_arg v))
      else pure (o, codes "onSet" ++ (a.name ++ codes "Failed"), number_arg err)

  unfoldable pub metd_resp : PyMethod → ℕ → PyObject → Reader Response
  metd_resp m err o =
      if err == 0
      then (unpack_str py m.ret_type >>= λ v.
          pure (o, codes "on" ++ (m.name ++ codes "Completed"), value_arg v))
      else pure (o, codes "on" ++ (m.name ++ codes "Failed"), number_arg err)

  unfoldable pub on_set_attr_metd_resp : ℕ → ℕ → PyObject → Reader Response
  on_set_attr_metd_resp index err o = elim (get_elem? o.attrs index) [
    | some a ↦ set_attr_resp index a err o
    | none ↦ elim (get_elem? o.metds (index - length o.attrs)) [
      | some m ↦ metd_resp m err o
      | none ↦ pure (o, codes "onUnknownAttrMetdError", number_arg index)
    ]
  ]

  -- `onGetAttrResp`.
  unfoldable pub get_attr_resp : ℕ → PyAttribute → ℕ → PyObject → Reader Response
  get_attr_resp index a err o =
      if err == 0
      then (unpack_str py a.type >>= λ v.
          pure (set_attr_value index a v o, codes "on" ++ (a.name ++ codes "Update"), value_arg v))
      else pure (o, codes "on" ++ (a.name ++ codes "UpdateFailed"), number_arg err)

  unfoldable pub on_get_attr_resp : ℕ → ℕ → PyObject → Reader Response
  on_get_attr_resp index err o = elim (get_elem? o.attrs index) [
    | some a ↦ get_attr_resp index a err o
    | none ↦ pure (o, codes "onUnknownAttrbuteError", number_arg index)
  ]

  -- `onSetAttrMetdDesc`: `n` descriptions for the attributes `attrs`. Nothing compares the count with
  -- the number of attributes: one more than there are is an access out of bounds.
  unfoldable pub describe_attributes : ℕ → List PyAttribute → Reader (List PyAttribute)
  describe_attributes zero attrs = pure attrs
  describe_attributes (suc n) [] = λ c. none
  describe_attributes (suc n) (a ∷ attrs) = do
    desc ← unpack_string true
    rest ← describe_attributes n attrs
    pure (record a { desc = desc } ∷ rest)

  unfoldable pub describe_methods : ℕ → List PyMethod → Reader (List PyMethod)
  describe_methods zero ms = pure ms
  describe_methods (suc n) [] = λ c. none
  describe_methods (suc n) (m ∷ ms) = do
    desc ← unpack_string true
    rest ← describe_methods n ms
    pure (record m { desc = desc } ∷ rest)

  unfoldable pub on_set_attr_metd_desc : PyObject → Reader PyObject
  on_set_attr_metd_desc o = do
    nofattrs ← unpack_str_to_int
    attrs ← describe_attributes nofattrs o.attrs
    nofmetds ← unpack_str_to_int
    metds ← describe_methods nofmetds o.metds
    pure (record o { attrs = attrs; metds = metds })
