-- ===== src/Stub/Input.antt =====
-- `PyConnectStub::processInput`: one message from a module.
use pyconnect.Base.{
  Bool, Bytes, List, Option, [], false, if◌then◌else◌, length, none, pos, signed32, some, true, ℕ,
  ◌%◌, ◌++◌, ◌/◌, ◌==◌, ◌∷◌,
}
use pyconnect.Common.Types.{
  MesgProcessResult, SockAddr, attr_metd_desc, attr_metd_expose, attr_metd_resp, attr_value_update,
  mesg_processed_failed, mesg_processed_ok, mesg_to_shutdown, module_declare, module_shutdown,
  msg_code, peer_server_discovery, peer_server_msg,
}
use pyconnect.Common.Reader.{Cursor, Reader, bind, next_byte, pure, ◌>>=◌}
use pyconnect.Common.Pack.{unpack_le_number, unpack_str_to_int, unpack_string}
use pyconnect.Common.Python.{Python}
use pyconnect.Stub.Expose.{read_expose}
use pyconnect.Stub.Object.{
  PyObject, Response, add_attributes, add_methods, on_get_attr_resp, on_set_attr_metd_desc,
  on_set_attr_metd_resp,
}
use pyconnect.Stub.Registry.{
  Effect, Stub, add_new_module, created_callback, delete_module_by_id, find_by_id, find_by_name,
  gil_ensure, gil_release, object_callback, peer_callback, replace_id,
}

-- The index at the front of the `datalen` bytes that are said to follow.
unfoldable pub index_within : ℕ → Reader ℕ
index_within datalen c = unpack_str_to_int (record c { remaining = signed32 datalen })

module _ (py : Python) where
  -- The new state, the effects and the result.
  abbrev pub Processed : Type 0
  Processed = Stub py × List (Effect py) × MesgProcessResult

  -- `MODULE_DECLARE`: the description is read only if the name is new.
  unfoldable pub declare_found : Bytes → ℕ → SockAddr → Stub py → Reader Processed
  declare_found name options addr s = elim (find_by_name py name s.modules) [
    | some _ ↦ pure (s, [], mesg_to_shutdown)
    | none ↦ unpack_string true >>= λ desc.
        let (s', es) = add_new_module py name desc options addr s in
        pure (s', es, mesg_processed_ok)
  ]

  unfoldable pub on_module_declare : SockAddr → Stub py → Reader Processed
  on_module_declare addr s = do
    options ← next_byte
    name ← unpack_string false
    declare_found name options addr s

  -- `MODULE_SHUTDOWN`: only four bits of the identifier are used.
  unfoldable pub on_module_shutdown : Stub py → Reader Processed
  on_module_shutdown s = do
    b ← next_byte
    let r = delete_module_by_id py (b % 16) s
    pure (r.0, r.1, mesg_to_shutdown)

  unfoldable pub on_peer_msg : ℕ → Stub py → Reader Processed
  on_peer_msg header s = do
    mesg ← unpack_string true
    pure (s, gil_ensure ∷ peer_callback (header % 16) mesg ∷ gil_release ∷ [], mesg_processed_ok)

  -- `ATTR_METD_EXPOSE`.
  unfoldable pub on_expose : PyObject py → Reader (PyObject py × List (Effect py))
  on_expose o = do
    e ← read_expose py
    pure (add_methods py e.1 (add_attributes py e.0 o), created_callback o.id ∷ [])

  -- `ATTR_METD_RESP` and `ATTR_VALUE_UPDATE`: the error has four bits, and the count that is sent
  -- becomes the number of bytes that remain.
  unfoldable pub on_response :
      (ℕ → ℕ → PyObject py → Reader (Response py))
      → PyObject py
      → Reader (PyObject py × List (Effect py))
  on_response handler o = do
    err ← next_byte
    datalen ← unpack_le_number 4
    amind ← index_within datalen
    r ← handler amind (err % 16) o
    pure (r.0, object_callback o.id r.1 r.2 ∷ [])

  unfoldable pub on_description : PyObject py → Reader (PyObject py × List (Effect py))
  on_description o = do o' ← on_set_attr_metd_desc py o; pure (o', [])

  -- The lock is taken before the message's type is looked at, and given back behind the cases; the
  -- object is changed in place. The byte behind the message is only looked at for a warning, but it
  -- is read.
  unfoldable pub in_module :
      ℕ → PyObject py → Stub py → Reader (PyObject py × List (Effect py)) → Reader Processed
  in_module id o s handler = do
    r ← handler
    next_byte >>= λ _. pure (
      record s { modules = replace_id py id r.0 s.modules },
      gil_ensure ∷ (r.1 ++ gil_release ∷ []),
      mesg_processed_ok,
    )

  unfoldable pub for_module : ℕ → ℕ → PyObject py → Stub py → Reader Processed
  for_module msg_type id o s =
      if msg_type == msg_code attr_metd_expose
      then in_module id o s (on_expose o)
      else if msg_type == msg_code attr_metd_resp
      then in_module id o s (on_response (on_set_attr_metd_resp py) o)
      else if msg_type == msg_code attr_value_update
      then in_module id o s (on_response (on_get_attr_resp py) o)
      else if msg_type == msg_code attr_metd_desc
      then in_module id o s (on_description o)
      else pure (s, gil_ensure ∷ [], mesg_processed_failed)

  unfoldable pub find_and_process : ℕ → ℕ → Stub py → Reader Processed
  find_and_process msg_type id s = elim (find_by_id py id s.modules) [
    | none ↦ pure (s, [], mesg_processed_failed)
    | some o ↦ for_module msg_type id o s
  ]

  unfoldable pub dispatch_type : ℕ → ℕ → SockAddr → Stub py → Reader Processed
  dispatch_type header msg_type addr s =
      if msg_type == 0
      then pure (s, [], mesg_processed_failed)
      else if msg_type == msg_code module_declare
      then on_module_declare addr s
      else if msg_type == msg_code module_shutdown
      then on_module_shutdown s
      else if msg_type == msg_code peer_server_msg
      then on_peer_msg header s
      else if msg_type == msg_code peer_server_discovery
      then pure (s, [], mesg_processed_ok)
      else next_byte >>= λ b. find_and_process msg_type (b % 16) s

  -- The plain message, which stands at the front of the memory that can be read behind it.
  unfoldable pub process_message : Bytes → SockAddr → Stub py → Option (Processed × Cursor)
  process_message memory addr s =
      bind (next_byte (record { bytes = memory; remaining = pos 0 }))
        λ header. dispatch_type header (header / 16 % 16) addr s

  -- `processInput`. `decrypt` is `decryptMessage`: the memory of `decryptbuffer`, or `none`.
  unfoldable pub process_input :
      (Bytes → Option Bytes) → Bytes → Bool → SockAddr → Stub py → Option (Processed × Cursor)
  process_input decrypt rec_data skipdecrypt addr s =
      if length rec_data == 0
      then some ((s, [], mesg_processed_failed), record { bytes = rec_data; remaining = pos 0 })
      else if skipdecrypt
      then process_message rec_data addr s
      else elim (decrypt rec_data) [
        | none ↦ some ((s, [], mesg_processed_failed), record { bytes = []; remaining = pos 0 })
        | some memory ↦ process_message memory addr s
      ]
