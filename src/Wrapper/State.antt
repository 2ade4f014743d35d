-- ===== src/Wrapper/State.antt =====
-- The wrapper's state and the operations on it that the messages of a server call.
use pyconnect.Base.{
  Bool, Bytes, List, Option, [], bytes_eq, if◌then◌else◌, length, ltb, map_find, none, not, pos,
  set, some, suc, ℕ, ℤ, ◌&&◌, ◌++◌, ◌+◌, ◌==◌, ◌∷◌,
}
use pyconnect.Common.Types.{
  PyConnectMsg, PyConnectMsgStatus, PyConnectType, SockAddr, attr_metd_resp, attr_value_update,
  index_mismatch, metd_exception, no_errors, no_pyconnect_object, py_void, status_code, type_code,
}
use pyconnect.Common.Reader.{Reader, bind, pure, ◌>>=◌}
use pyconnect.Wrapper.Values.{Value, get_data, set_data}
use pyconnect.Wrapper.Module.{Argument, Attribute, Method, PyConnectModule}
use pyconnect.Wrapper.Messages.{module_shutdown_message, response_message}

-- `ServerInfo`; the identifier is -1 until the server assigns one.
pub record ServerInfo : Type 0 where
  pub assigned_module_id : ℤ
  pub attribute_update : Bool
  pub addr : SockAddr

-- What an operation does besides changing the state: messages, and calls into the program.
pub data Event : Type 0 where
  dispatch : Bytes → Event
  client_connected client_disconnected : ℕ → Event

pub record Wrapper : Type 0 where
  pub pyconnect_module : PyConnectModule
  pub server_map : List (ℕ × ServerInfo)
  pub no_response : Bool

-- What a method of the program does: it returns a value or nothing, or throws.
pub data CallResult : Type 0 where
  returned : Value → CallResult
  returned_void thrown : CallResult

-- The program's methods, by name; they may change the attributes of the program. What they send
-- themselves, by PYCONNECT_ATTRIBUTE_UPDATE, and their use of the map of servers are left out.
abbrev pub Program : Type 0
Program = Bytes → List Value → PyConnectModule → PyConnectModule × CallResult

-- `serverMap_[serverId].assignedModuleID`; the entry with zeros that the brackets put in for a server
-- that is not there is left out.
unfoldable pub module_id_of : ℕ → Wrapper → ℤ
module_id_of server_id w = elim (map_find w.server_map server_id) [
  | none ↦ pos 0
  | some info ↦ info.assigned_module_id
]

-- `sendAttrMetdResponse`.
unfoldable pub send_attr_metd_response :
    PyConnectMsg → PyConnectMsgStatus → ℕ → Bytes → ℕ → Wrapper → Event
send_attr_metd_response msg err index payload server_id w = dispatch (
    response_message msg server_id (module_id_of server_id w) (status_code err) (pos index) payload)

-- `postAttrMetdData`.
unfoldable pub post_attr_metd_data :
    PyConnectMsg → PyConnectMsgStatus → ℕ → Value → ℕ → Wrapper → Option Event
post_attr_metd_data msg status index v server_id w = elim (set_data v status) [
  | none ↦ none
  | some (payload, status') ↦ some (send_attr_metd_response msg status' index payload server_id w)
]

-- `updateAttribute`, for an attribute at an index: every server that wants updates gets one.
unfoldable pub post_updates : ℕ → Value → List (ℕ × ServerInfo) → Wrapper → Option (List Event)
post_updates index v [] w = some []
post_updates index v ((server_id, info) ∷ rest) w =
    let more = post_updates index v rest w in
    if info.attribute_update
    then elim (post_attr_metd_data attr_value_update no_errors index v server_id w) [
      | none ↦ none
      | some e ↦ elim more [ none ↦ none | some es ↦ some (e ∷ es) ]
    ]
    else more

unfoldable pub index_of {ℓ} : {V : Type ℓ} → Bytes → List (Bytes × V) → ℕ
index_of name [] = 0
index_of name ((j, v) ∷ m) = let rest = suc (index_of name m) in if bytes_eq j name then 0 else rest

-- `updateAttribute`.
unfoldable pub update_attribute : Bytes → Value → Wrapper → Option (List Event)
update_attribute name v w =
    let index = index_of name w.pyconnect_module.attributes in
    if ltb index (length w.pyconnect_module.attributes)
    then post_updates index v w.server_map w
    else some []

-- `validateAttribute` and `validateMethod`.
unfoldable pub validate_index {ℓ} : {V : Type ℓ} → ℕ → Bytes → List (Bytes × V) → PyConnectMsgStatus
validate_index index name m = if index_of name m == index then no_errors else index_mismatch

abbrev pub Handled : Type 0
Handled = Wrapper × List Event

-- `s_set_attr_NAME`, with `set_NAME_value` and `PYCONNECT_ATTRIBUTE_UPDATE`: the value is stored
-- whatever the status is. An attribute without a setter is a call of a null pointer. The module has an
-- object (`oobject()`), as every exposure needs: the answer NO_PYCONNECT_OBJECT without one is left out
-- here, in `call_method` and in `on_get_value`.
unfoldable pub store_value : ℕ → Bytes → Attribute → Value → Wrapper → Wrapper
store_value index name a v w =
    let m = w.pyconnect_module in
    record w {
      pyconnect_module = record m {
        attributes = set m.attributes index (name, record a { value = v });
      };
    }

unfoldable pub set_attr : ℕ → Bytes → Attribute → Wrapper → Reader Handled
set_attr index name a w c =
    if a.writable
    then (bind (get_data a.type (validate_index index name w.pyconnect_module.attributes) c) λ r c'.
        let w' = store_value index name a r.0 w in
        elim (update_attribute name r.0 w') [ none ↦ none | some es ↦ some ((w', es), c') ])
    else none

-- The arguments of a call: the pack expansion in a function call, whose order of evaluation is the
-- compiler's.
unfoldable pub read_forwards :
    List Argument → PyConnectMsgStatus → Reader (List Value × PyConnectMsgStatus)
read_forwards [] status = pure ([], status)
read_forwards (a ∷ args) status =
    get_data a.type status >>= λ r. read_forwards args r.1 >>= λ rest. pure (r.0 ∷ rest.0, rest.1)

unfoldable pub read_backwards :
    List Argument → PyConnectMsgStatus → Reader (List Value × PyConnectMsgStatus)
read_backwards [] status = pure ([], status)
read_backwards (a ∷ args) status =
    read_backwards args status >>= λ rest. get_data a.type rest.1 >>= λ r. pure (r.0 ∷ rest.0, r.1)

unfoldable pub is_void : PyConnectType → Bool
is_void type = type_code type == type_code py_void

-- What `s_call_fn_NAME` sends for a result: an exception is answered even if no answer is wanted, and
-- a method without a result is answered once more after it.
unfoldable pub result_events : CallResult → ℕ → ℕ → Wrapper → Option (List Event)
result_events (returned v) index server_id w =
    if w.no_response
    then some []
    else elim (post_attr_metd_data attr_metd_resp no_errors index v server_id w) [
      | none ↦ none
      | some e ↦ some (e ∷ [])
    ]
result_events returned_void index server_id w = some []
result_events thrown index server_id w =
    some (send_attr_metd_response attr_metd_resp metd_exception index [] server_id w ∷ [])

unfoldable pub void_events : PyConnectType → ℕ → ℕ → Wrapper → List Event
void_events type index server_id w =
    if is_void type && not w.no_response
    then send_attr_metd_response attr_metd_resp no_errors index [] server_id w ∷ []
    else []

-- `s_call_fn_NAME`.
unfoldable pub run_method : Program → ℕ → Bytes → Method → List Value → ℕ → Wrapper → Option Handled
run_method program metd_index name m values server_id w =
    let (pm, result) = program name values w.pyconnect_module in
    let w' = record w { pyconnect_module = pm } in
    elim (result_events result metd_index server_id w') [
      | none ↦ none
      | some es ↦ some (w', es ++ void_events m.type metd_index server_id w')
    ]

unfoldable pub call_method : Bool → Program → ℕ → Bytes → Method → ℕ → Wrapper → Reader Handled
call_method clang program metd_id name m server_id w c =
    let metd_index = length w.pyconnect_module.attributes + metd_id in
    let refused =
      send_attr_metd_response attr_metd_resp no_pyconnect_object metd_index [] server_id w in
    elim (validate_index metd_id name w.pyconnect_module.methods) [
      | no_errors ↦
          bind
            (if clang then read_forwards m.args no_errors c else read_backwards m.args no_errors c)
            λ r c'. elim (run_method program metd_index name m r.0 server_id w) [
              | none ↦ none
              | some h ↦ some (h, c')
            ]
      | _ ↦ some ((w, refused ∷ []), c)
    ]

-- `moduleShutdown`; the module is deleted behind it, and nothing reads it any more.
unfoldable pub shutdown_events : List (ℕ × ServerInfo) → List Event
shutdown_events [] = []
shutdown_events ((server_id, info) ∷ rest) =
    dispatch (module_shutdown_message server_id info.assigned_module_id) ∷ shutdown_events rest

unfoldable pub module_shutdown_all : Wrapper → Handled
module_shutdown_all w = (record w { server_map = [] }, shutdown_events w.server_map)
