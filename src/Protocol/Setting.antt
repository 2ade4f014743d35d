-- ===== src/Protocol/Setting.antt =====
-- An assignment to an attribute, from `setAttribute` of the stub to the setter of the wrapper.
use pyconnect.Protocol.Handshake.{header_server, header_type}
use pyconnect.Protocol.Exposure.{ValueIsSendable, value_sent}
use pyconnect.Common.Python.{Python, PythonLaws, TextFits, pack_to_str, validate_type_and_size}
use pyconnect.Stub.Object.{PyAttribute, PyObject, set_attr_value}
use pyconnect.Stub.Messages.{call_message}
use pyconnect.Stub.Registry.{Effect}
use pyconnect.Stub.Attributes.{set_done, set_module_attribute}
use pyconnect.Common.Reader.{Cursor, Reader, bind, next_byte}
use pyconnect.Base.{
  ==_self, Bool, Bool-cases, Bytes, List, Option, [], ap, append_assoc, arith, false, get_elem?,
  if◌then◌else◌, inl, inr, length, ltb, map_find, ne→==, none, pos, refl, set, some, subst, sym,
  true, ℕ, ℤ, ◌%◌, ◌++◌, ◌+◌, ◌<◌, ◌==◌, ◌^◌, ◌∙◌, ◌∷◌, ◌≡◌, ◌≢◌,
}
use pyconnect.Common.Types.{
  PyConnectMsgStatus, PyConnectType, SockAddr, attr_value_update, bool, composite, double, float,
  int, mesg_processed_ok, msg_end, no_errors, py_void, string, unlisted,
}
use pyconnect.Common.Pack.{pack_int_to_str, pack_to_le_number, packed_int_len}
use pyconnect.Wrapper.Values.{Value, get_data, set_data}
use pyconnect.Wrapper.Module.{Attribute}
use pyconnect.Wrapper.State.{
  Event, Handled, Program, ServerInfo, Wrapper, index_of, post_attr_metd_data, post_updates,
  send_attr_metd_response, set_attr, store_value, update_attribute, validate_index,
}
use pyconnect.Wrapper.Input.{call_index, on_call, process_message}
use pyconnect.Protocol.Arguments.{Spends, Spends-argument, argument_value}
use pyconnect.Protocol.Calls.{at, call_type, dispatch_type-run, read_index-packed}

-- A value that can be sent is sent to every server that wants updates.
post_updates-sent :
    (index : ℕ) (v : Value) (raw : Bytes) (servers : List (ℕ × ServerInfo)) (w : Wrapper)
    → set_data v no_errors ≡ some (raw, no_errors)
    → (events : List Event) × (post_updates index v servers w ≡ some events)
unfolding post_updates post_attr_metd_data
post_updates-sent index v raw [] w sent = ([], refl)
post_updates-sent index v raw ((server_id, info) ∷ rest) w sent =
    let (events, e) = post_updates-sent index v raw rest w sent in
    elim (Bool-cases info.attribute_update) [
      | inl on ↦ (
        send_attr_metd_response attr_value_update no_errors index raw server_id w ∷ events,
        rw (on, post_updates) (rw (sent, post_attr_metd_data) (rw e refl)),
      )
      | inr off ↦ (events, rw (off, post_updates) e)
    ]

update_attribute-sent :
    (name : Bytes) (v : Value) (raw : Bytes) (w : Wrapper)
    → set_data v no_errors ≡ some (raw, no_errors)
    → (events : List Event) × (update_attribute name v w ≡ some events)
unfolding update_attribute
update_attribute-sent name v raw w sent =
    let index = index_of name w.pyconnect_module.attributes in
    let (events, e) = post_updates-sent index v raw w.server_map w sent in
    elim (Bool-cases (ltb index (length w.pyconnect_module.attributes))) [
      | inl lt ↦ (events, rw (lt, update_attribute) e)
      | inr ge ↦ ([], rw (ge, update_attribute) refl)
    ]

-- The wrapper with the new value of an attribute.
abbrev pub with_value : ℕ → Bytes → Attribute → Value → Wrapper → Wrapper
with_value index name a v w = record w {
  pyconnect_module = record w.pyconnect_module {
    attributes = set w.pyconnect_module.attributes index (name, record a { value = v });
  };
}

module _ (clang : Bool) (program : Program) (name : Bytes) (a : Attribute) (index server_id : ℕ)
    (v : Value) (bytes raw : Bytes) (sent : set_data v no_errors ≡ some (raw, no_errors))
    (reads : Spends (get_data a.type no_errors) bytes (v, no_errors))
    (writable : a.writable ≡ true) where
  set_attr-run :
      (w : Wrapper) (tail : Bytes)
      → index_of name w.pyconnect_module.attributes ≡ index
      → (events : List Event) × (set_attr index name a w (at (bytes ++ tail) (length bytes))
          ≡ some ((with_value index name a v w, events), at tail 0))
  unfolding set_attr validate_index store_value
  set_attr-run w tail named =
      let (events, e) = update_attribute-sent name v raw (with_value index name a v w) sent in
      let size : length bytes + 0 ≡ length bytes = omega arith in
      let read : get_data a.type no_errors (at (bytes ++ tail) (length bytes))
          ≡ some ((v, no_errors), at tail 0) =
        ap (λ k. get_data a.type no_errors (at (bytes ++ tail) k)) (sym size) ∙ reads tail 0 in
      let finish_set : Option (List Event) → Value → Cursor → Option (Handled × Cursor) =
        λ o u c. elim o [ none ↦ none | some es ↦ some ((with_value index name a u w, es), c) ] in
      let store : Value × PyConnectMsgStatus → Reader Handled =
        λ r c. finish_set (update_attribute name r.0 (with_value index name a r.0 w)) r.0 c in
      let start = at (bytes ++ tail) (length bytes) in
      let status = validate_index index name w.pyconnect_module.attributes in
      let valid : status ≡ no_errors = rw (named, ==_self index) refl in
      (
        events,
        ap (λ k. if k then (bind (get_data a.type status start) store) else none) writable
            ∙ ap (λ k. bind (get_data a.type k start) store) valid
            ∙ ap (λ o. bind o store) read
            ∙ ap (λ o. finish_set o v (at tail 0)) e,
      )

  on_call-set :
      (nocb : Bool) (w : Wrapper) (tail : Bytes) (n : ℤ)
      → index_of name w.pyconnect_module.attributes ≡ index
      → get_elem? w.pyconnect_module.attributes index ≡ some (name, a)
      → index < 32768
      → length bytes < 2 ^ 30
      → (events : List Event) × (on_call clang program nocb server_id w (record {
        bytes =
            pack_to_le_number 4 (packed_int_len (pos index) + length bytes)
            ++ (pack_int_to_str (pos index) ++ (bytes ++ tail));
        remaining = n;
      })
          ≡ some
              ((record (with_value index name a v w) { no_response = false }, events), at tail 0))
  unfolding on_call call_index
  on_call-set nocb w tail n named there small fits =
      let (events, e) = set_attr-run (record w { no_response = nocb }) tail named in
      (
        events,
        rw (read_index-packed index (length bytes) (bytes ++ tail) n small fits)
            (rw (there, call_index) (rw e refl)),
      )

module _ (py : Python) where
  -- The object and the message of an assignment that is allowed.
  set_module_attribute-called :
      (server_id index : ℕ) (pa : PyAttribute py) (value : py.Obj) (o : PyObject py)
      → pa.read_only ≡ false
      → validate_type_and_size py (some value) pa.type ≢ 0
      → set_module_attribute py server_id index pa value o ≡ (
        (if o.no_callback
            then record o { attrs = set o.attrs index (record pa { value = value }) }
            else o),
        Effect.dispatch
              (call_message
                (call_type o.no_callback)
                server_id
                o.id
                index
                (pack_to_str py value pa.type))
              false
            ∷ [],
        set_done,
      )
  unfolding set_module_attribute set_attr_value
  set_module_attribute-called server_id index pa value o open_to accepted =
      let valid : (validate_type_and_size py (some value) pa.type == 0) ≡ false =
        ne→== (validate_type_and_size py (some value) pa.type) 0 accepted in
      rw (open_to, set_module_attribute)
        (rw (valid, set_module_attribute)
          (elim (Bool-cases o.no_callback) [
            | inl quiet ↦ rw (quiet, call_type) refl
            | inr loud ↦ rw (loud, call_type) refl
          ]))

  argument_value-IsSendable :
      (laws : PythonLaws py) (type : PyConnectType) (o : py.Obj)
      → TextFits py type o
      → ValueIsSendable (argument_value py type o)
  unfolding argument_value
  argument_value-IsSendable laws int o h = laws.int_range o
  argument_value-IsSendable laws float o h = laws.float_range o
  argument_value-IsSendable laws double o h = laws.double_range o
  argument_value-IsSendable laws string o h = (laws.utf8_non_zero o, h)
  argument_value-IsSendable laws bool o h = tt
  argument_value-IsSendable laws composite o h = omega arith
  argument_value-IsSendable laws py_void o h = omega arith
  argument_value-IsSendable laws (unlisted n) o h = omega arith

  -- A script's assignment reaches the attribute of the program. The server's attribute is not read-only
  -- and has the index and the type of a writable one of the module, the object is accepted at that
  -- type, with bytes that are fewer than 2 to the 30 and a text below 32768 bytes, and the wrapper has
  -- the low byte of the server's object's identifier from that server. Then one message leaves, and
  -- the server's attribute changes at once exactly if no callbacks are wanted; processing the message,
  -- with whatever stands behind it, gives that attribute of the module the C++ value of the object and
  -- changes nothing else in the module and in what is known of the servers.
  pub assignment_of_value_arrives :
      (laws : PythonLaws py) (clang : Bool) (program : Program) (name : Bytes) (a : Attribute)
      (pa : PyAttribute py) (index : ℕ) (value : py.Obj) (o : PyObject py) (server_id : ℕ)
      (info : ServerInfo) (w : Wrapper) (addr : SockAddr) (rest : Bytes)
      → pa.read_only ≡ false
      → a.writable ≡ true
      → pa.type ≡ a.type
      → validate_type_and_size py (some value) pa.type ≢ 0
      → TextFits py pa.type value
      → length (pack_to_str py value pa.type) < 2 ^ 30
      → index_of name w.pyconnect_module.attributes ≡ index
      → get_elem? w.pyconnect_module.attributes index ≡ some (name, a)
      → index < 32768
      → map_find w.server_map (server_id % 16) ≡ some info
      → info.assigned_module_id ≡ pos (o.id % 256)
      → (msg : Bytes) × (set_module_attribute py server_id index pa value o ≡ (
        (if o.no_callback
            then record o { attrs = set o.attrs index (record pa { value = value }) }
            else o),
        Effect.dispatch msg false ∷ [],
        set_done,
      ))
        × (events : List Event) × (c : Cursor) × (process_message clang program (msg ++ rest) addr w
            ≡ some (
              (
                record w {
                  pyconnect_module = record w.pyconnect_module {
                    attributes =
                        set w.pyconnect_module.attributes index
                          (name, record a { value = argument_value py pa.type value });
                  };
                  no_response = false;
                },
                events,
                mesg_processed_ok,
              ),
              c,
            ))
  unfolding call_message process_message next_byte
  assignment_of_value_arrives laws clang program name a pa index value o server_id info w addr rest
        open_to writable same accepted text fits named there small known known_as =
      let bytes = pack_to_str py value pa.type in
      let v = argument_value py pa.type value in
      let nocb = o.no_callback in
      let size = pack_to_le_number 4 (packed_int_len (pos index) + length bytes) in
      let index_bytes = pack_int_to_str (pos index) in
      let body = size ++ (index_bytes ++ (bytes ++ (msg_end ∷ rest))) in
      let (raw, sent, _) = value_sent py v (argument_value-IsSendable laws pa.type value text) in
      let reads =
        subst (λ t. Spends (get_data t no_errors) bytes (v, no_errors)) same
          (Spends-argument py laws value pa.type accepted text) in
      let (events, e) =
        on_call-set clang program name a index (server_id % 16) v bytes raw sent reads writable nocb
          w (msg_end ∷ rest) (pos 0) named there small fits in
      (
        call_message (call_type nocb) server_id o.id index bytes,
        set_module_attribute-called server_id index pa value o open_to accepted,
        events,
        at rest 0,
        rw
            (
              append_assoc size (index_bytes ++ (bytes ++ msg_end ∷ [])) rest,
              append_assoc index_bytes (bytes ++ msg_end ∷ []) rest,
              append_assoc bytes (msg_end ∷ []) rest,
            )
            (rw (header_type (call_type nocb) server_id, header_server (call_type nocb) server_id)
              (dispatch_type-run clang program (server_id % 16) nocb w info (o.id % 256) addr
                (record (with_value index name a v w) { no_response = false }, events) body rest
                (pos 0) known known_as e)),
      )
