-- ===== src/Wrapper/Input.antt =====
-- `PyConnectWrapper::processInput`: one message from a server.
use mathlib.Core.Option
use pyconnect.Base.{
  Bool, Bytes, List, Option, [], bytes_eq, false, get_elem?, if◌then◌else◌, length, map_assign,
  map_erase, map_find, negsuc, none, pos, signed32, some, true, ℕ, ℤ, ◌%◌, ◌-◌, ◌/◌, ◌==◌, ◌∷◌,
}
use pyconnect.Common.Types.{
  MesgProcessResult, SockAddr, attr_metd_resp, attr_value_update, call_attr_metd,
  call_attr_metd_nocb, get_attr_metd_desc, mesg_processed_failed, mesg_processed_ok,
  mesg_to_shutdown, module_assign_id, module_discovery, msg_code, no_errors, server_shutdown,
}
use pyconnect.Common.Reader.{Cursor, Reader, bind, next_byte, pure, ◌>>=◌}
use pyconnect.Common.Pack.{unpack_le_number, unpack_str_to_int, unpack_string}
use pyconnect.Wrapper.Messages.{declare_message, desc_message, expose_message}
use pyconnect.Wrapper.State.{
  Event, Handled, Program, ServerInfo, Wrapper, call_method, module_id_of, post_attr_metd_data,
  send_attr_metd_response, set_attr, validate_index,
}

abbrev pub Processed : Type 0
Processed = Wrapper × List Event × MesgProcessResult

-- `declareModuleAttrMetd` and `declareModuleAttrMetdDesc`.
unfoldable pub expose_events : ℕ → Wrapper → Option (List Event)
expose_events server_id w =
    let id = module_id_of server_id w in
    Option.map
      (λ msg.
        Event.dispatch msg ∷ Event.dispatch (desc_message server_id id w.pyconnect_module) ∷ [])
      (expose_message server_id id w.pyconnect_module)

abbrev new_info : ℤ → SockAddr → ServerInfo
new_info id addr = record { assigned_module_id = id; attribute_update = true; addr = addr }

-- `MODULE_DISCOVERY`.
unfoldable pub on_discovery : Bool → ℕ → SockAddr → Wrapper → Processed
on_discovery clang server_id addr w = elim (map_find w.server_map server_id) [
  | some _ ↦ (w, [], mesg_to_shutdown)
  | none ↦
      let info = new_info (negsuc 0) addr in
      (
        record w { server_map = map_assign w.server_map server_id info },
        Event.dispatch (declare_message clang server_id w.pyconnect_module) ∷ [],
        mesg_processed_ok,
      )
]

-- `SERVER_SHUTDOWN`.
unfoldable pub on_server_shutdown : ℕ → Wrapper → Processed
on_server_shutdown server_id w = elim (map_find w.server_map server_id) [
  | none ↦ (w, [], mesg_to_shutdown)
  | some _ ↦ (
    record w { server_map = map_erase w.server_map server_id },
    Event.client_disconnected server_id ∷ [],
    mesg_to_shutdown,
  )
]

-- The identifier is kept for a new server and for one that is there.
unfoldable pub assigned : ℕ → ℕ → SockAddr → Wrapper → Wrapper
assigned mod_id server_id addr w =
    let info : ServerInfo = elim (map_find w.server_map server_id) [
      | none ↦ new_info (pos mod_id) addr
      | some i ↦ record i { assigned_module_id = pos mod_id }
    ] in
    record w { server_map = map_assign w.server_map server_id info }

-- `MODULE_ASSIGN_ID`, for the module of this name only.
unfoldable pub assign_named : Bytes → ℕ → ℕ → SockAddr → Wrapper → Option Processed
assign_named name mod_id server_id addr w =
    let w' = assigned mod_id server_id addr w in
    if bytes_eq name w.pyconnect_module.name
    then elim (expose_events server_id w') [
      | none ↦ none
      | some es ↦ some (w', Event.client_connected server_id ∷ es, mesg_processed_ok)
    ]
    else some (w, [], mesg_processed_ok)

-- A reader that ends by a step which may fault.
unfoldable pub finish {ℓ} : {A : Type ℓ} → Option A → Reader A
finish none c = none
finish (some a) c = some (a, c)

unfoldable pub on_assign_id : ℕ → SockAddr → Wrapper → Reader Processed
on_assign_id server_id addr w = next_byte >>= λ mod_id.
    unpack_string false >>= λ name. finish (assign_named name mod_id server_id addr w)

-- `CALL_ATTR_METD` and `CALL_ATTR_METD_NOCB`. An index behind the last method is an iterator past the
-- end of the map.
unfoldable pub call_index : Bool → Program → ℕ → ℕ → Wrapper → Reader Handled
call_index clang program index server_id w =
    let m = w.pyconnect_module in
    elim (get_elem? m.attributes index) [
      | some (name, a) ↦ set_attr index name a w
      | none ↦
          let metd_id = index - length m.attributes in
          elim (get_elem? m.methods metd_id) [
            | some (name, metd) ↦ call_method clang program metd_id name metd server_id w
            | none ↦ λ _. none
          ]
    ]

-- The count that is sent becomes the number of bytes that remain.
unfoldable pub read_index : Reader ℕ
read_index =
    unpack_le_number 4 >>= λ size c. unpack_str_to_int (record c { remaining = signed32 size })

unfoldable pub on_call : Bool → Program → Bool → ℕ → Wrapper → Reader Handled
on_call clang program nocb server_id w = read_index >>= λ index.
    call_index clang program index server_id (record w { no_response = nocb }) >>= λ h.
    pure (record h.0 { no_response = false }, h.1)

-- `ATTR_VALUE_UPDATE`: `s_get_attr_NAME` of the attribute.
unfoldable pub on_get_value : ℕ → Wrapper → Reader Handled
on_get_value server_id w = read_index >>= λ index.
    elim (get_elem? w.pyconnect_module.attributes index) [
      | none ↦ pure (w, [])
      | some (name, a) ↦ finish (
          Option.map (λ e. (w, e ∷ []))
            (post_attr_metd_data attr_metd_resp
              (validate_index index name w.pyconnect_module.attributes) index a.value server_id w))
    ]

-- `GET_ATTR_METD_DESC`: the answer for a method has its index among the methods.
unfoldable pub describe : ℕ → ℕ → Wrapper → Option Event
describe index server_id w =
    let m = w.pyconnect_module in
    elim (get_elem? m.attributes index) [
      | some (_, a) ↦
          some (send_attr_metd_response attr_metd_resp no_errors index a.desc server_id w)
      | none ↦
          let metd_id = index - length m.attributes in
          Option.map
            (λ e. send_attr_metd_response attr_metd_resp no_errors metd_id e.1.desc server_id w)
            (get_elem? m.methods metd_id)
    ]

unfoldable pub on_get_desc : ℕ → Wrapper → Reader Handled
on_get_desc server_id w = (λ c. unpack_str_to_int (record c { remaining = pos 1 })) >>= λ index.
    finish (Option.map (λ e. (w, e ∷ [])) (describe index server_id w))

-- The byte behind the message is only looked at for a warning, but it is read.
unfoldable pub ended : Reader Handled → Reader Processed
ended p = p >>= λ h. next_byte >>= λ _. pure (h.0, h.1, mesg_processed_ok)

unfoldable pub for_server : Bool → Program → ℕ → ℕ → Wrapper → Reader Processed
for_server clang program msg_type server_id w =
    if msg_type == msg_code call_attr_metd
    then ended (on_call clang program false server_id w)
    else if msg_type == msg_code call_attr_metd_nocb
    then ended (on_call clang program true server_id w)
    else if msg_type == msg_code attr_value_update
    then ended (on_get_value server_id w)
    else if msg_type == msg_code get_attr_metd_desc
    then ended (on_get_desc server_id w)
    else pure (w, [], mesg_processed_failed)

-- A message to another module is ignored.
unfoldable pub is_assigned : ServerInfo → ℕ → Bool
is_assigned info b = elim info.assigned_module_id [ pos n ↦ n == b | negsuc n ↦ false ]

unfoldable pub for_known_server : Bool → Program → ℕ → ℕ → Wrapper → Reader Processed
for_known_server clang program msg_type server_id w = elim (map_find w.server_map server_id) [
  | none ↦ pure (w, [], mesg_processed_failed)
  | some info ↦ next_byte >>= λ b.
      if is_assigned info b
      then for_server clang program msg_type server_id w
      else pure (w, [], mesg_processed_failed)
]

unfoldable pub dispatch_type : Bool → Program → ℕ → ℕ → SockAddr → Wrapper → Reader Processed
dispatch_type clang program msg_type server_id addr w =
    if msg_type == 0
    then pure (w, [], mesg_processed_failed)
    else if msg_type == msg_code module_discovery
    then pure (on_discovery clang server_id addr w)
    else if msg_type == msg_code server_shutdown
    then pure (on_server_shutdown server_id w)
    else if msg_type == msg_code module_assign_id
    then on_assign_id server_id addr w
    else for_known_server clang program msg_type server_id w

-- The plain message, which stands at the front of the memory that can be read behind it.
unfoldable pub process_message :
    Bool → Program → Bytes → SockAddr → Wrapper → Option (Processed × Cursor)
process_message clang program memory addr w =
    bind (next_byte (record { bytes = memory; remaining = pos 0 }))
      λ header. dispatch_type clang program (header / 16 % 16) (header % 16) addr w

-- `processInput`. `decrypt` is `decryptMessage`: the memory of `decryptbuffer`, or `none`.
unfoldable pub process_input :
    (Bytes → Option Bytes)
    → Bool
    → Program
    → Bytes
    → Bool
    → SockAddr
    → Wrapper
    → Option (Processed × Cursor)
process_input decrypt clang program rec_data skipdecrypt addr w =
    if length rec_data == 0
    then some ((w, [], mesg_processed_failed), record { bytes = rec_data; remaining = pos 0 })
    else if skipdecrypt
    then process_message clang program rec_data addr w
    else elim (decrypt rec_data) [
      | none ↦ some ((w, [], mesg_processed_failed), record { bytes = []; remaining = pos 0 })
      | some memory ↦ process_message clang program memory addr w
    ]
