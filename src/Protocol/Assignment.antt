-- ===== src/Protocol/Assignment.antt =====
-- `assignModuleID` of the stub against the wrapper's handling of `MODULE_ASSIGN_ID`.
use pyconnect.Common.Python.{Python}
use pyconnect.Protocol.Handshake.{header_server, header_type}
use pyconnect.Base.{
  ==_self, Bool, Bytes, Option-cases, [], append_assoc, bytes_eq_self, false, inl, inr, map_assign,
  map_find, map_find-map_assign, pos, refl, some, true, ℕ, ◌%◌, ◌++◌, ◌∷◌, ◌≡◌,
}
use pyconnect.Common.Types.{
  SockAddr, attr_metd_expose, mesg_processed_ok, module_assign_id, msg_end,
}
use pyconnect.Common.Reader.{Cursor, Reads, Reads-bind, Reads-next_byte, next_byte}
use pyconnect.Common.Pack.{pack_string}
use pyconnect.Common.RoundTrip.{Reads-pack_string}
use pyconnect.Wrapper.Module.{PyConnectModule}
use pyconnect.Wrapper.Messages.{desc_message, expose_body, expose_message, header_byte}
use pyconnect.Wrapper.State.{Event, Program, ServerInfo, Wrapper, module_id_of}
use pyconnect.Wrapper.Input.{
  Processed, assign_named, assigned, dispatch_type, expose_events, finish, on_assign_id,
  process_message,
}
use pyconnect.Stub.Messages.{assign_message}
use pyconnect.Protocol.Exposure.{IsSendable, NameIsSendable, Reads-expose_body}

module_id_of-map_assign :
    (server_id : ℕ) (info : ServerInfo) (w : Wrapper)
    → module_id_of server_id (record w { server_map = map_assign w.server_map server_id info })
      ≡ info.assigned_module_id
unfolding module_id_of
module_id_of-map_assign server_id info w =
    rw (module_id_of, map_find-map_assign w.server_map server_id server_id info, ==_self server_id)
      refl

-- The wrapper's identifier for a server after an assignment.
module_id_of-assigned :
    (id server_id : ℕ) (addr : SockAddr) (w : Wrapper)
    → module_id_of server_id (assigned id server_id addr w) ≡ pos id
unfolding assigned
module_id_of-assigned id server_id addr w = elim (Option-cases (map_find w.server_map server_id)) [
  | inl e ↦ rw (e, assigned) (module_id_of-map_assign server_id _ w)
  | inr (i, e) ↦ rw (e, assigned) (module_id_of-map_assign server_id _ w)
]

expose_message-some :
    (server_id id : ℕ) (m : PyConnectModule) (body : Bytes)
    → expose_body m ≡ some body
    → (msg : Bytes) × (expose_message server_id (pos id) m ≡ some msg)
unfolding expose_message
expose_message-some server_id id m body e = (
  header_byte attr_metd_expose server_id ∷ (id % 256) ∷ (body ++ msg_end ∷ []),
  rw (expose_message, e) refl,
)

expose_events-assigned :
    (id server_id : ℕ) (addr : SockAddr) (w : Wrapper) (msg : Bytes)
    → expose_message server_id (pos id) w.pyconnect_module ≡ some msg
    → expose_events server_id (assigned id server_id addr w)
      ≡ some (
          Event.dispatch msg
          ∷ Event.dispatch (desc_message server_id (pos id) w.pyconnect_module)
          ∷ [])
unfolding expose_events assigned
expose_events-assigned id server_id addr w msg e =
    rw (expose_events, module_id_of-assigned id server_id addr w, e) refl

assign_named_lem :
    (id server_id : ℕ) (addr : SockAddr) (w : Wrapper) (msg : Bytes)
    → expose_message server_id (pos id) w.pyconnect_module ≡ some msg
    → assign_named w.pyconnect_module.name id server_id addr w
      ≡ some (
        assigned id server_id addr w,
        Event.client_connected server_id
            ∷ Event.dispatch msg
            ∷ Event.dispatch (desc_message server_id (pos id) w.pyconnect_module)
            ∷ [],
        mesg_processed_ok,
      )
unfolding assign_named assigned
assign_named_lem id server_id addr w msg e =
    rw
      (
        assign_named,
        bytes_eq_self w.pyconnect_module.name,
        expose_events-assigned id server_id addr w msg e,
      )
      refl

-- A sendable module has a body to send.
sendable_body : (m : PyConnectModule) → IsSendable m → (body : Bytes) × (expose_body m ≡ some body)
sendable_body m h = let (body, e, r) = Reads-expose_body no_python m h in (body, e)
  where
    no_python : Python
    no_python = record {
      Obj = Unit;
      int_check = λ _. true;
      float_check = λ _. true;
      unicode_check = λ _. true;
      bool_check = λ _. true;
      is_true = λ _. true;
      is_none = λ _. true;
      as_int = λ _. 0;
      as_float = λ _. 0;
      as_double = λ _. 0;
      as_utf8 = λ _. [];
      from_int = λ _. tt;
      from_float = λ _. tt;
      from_double = λ _. tt;
      from_string = λ _. tt;
      from_bool = λ _. tt;
      none_object = tt;
    }

module _ (clang : Bool) (program : Program) where
  Reads-assign :
      (id server_id : ℕ) (name : Bytes) (addr : SockAddr) (w : Wrapper) (r : Processed)
      → NameIsSendable name
      → assign_named name id server_id addr w ≡ some r
      → Reads (dispatch_type clang program 3 server_id addr w) (id ∷ pack_string false name) r
  unfolding dispatch_type on_assign_id finish
  Reads-assign id server_id name addr w r (z, l) e =
      Reads-bind next_byte _ (id ∷ []) (pack_string false name) id _ (Reads-next_byte id)
        λ rest n. let (k, q) = Reads-pack_string false name z l rest n in (k, rw (q, e) refl)

  -- The identifier that the server assigns arrives: for the module of that name, which can be sent, the
  -- wrapper keeps the identifier's byte for the server, tells the program, and sends the exposure and
  -- the descriptions with that identifier.
  pub assignment_arrives :
      (server_id id : ℕ) (addr : SockAddr) (w : Wrapper) (rest : Bytes)
      → NameIsSendable w.pyconnect_module.name
      → IsSendable w.pyconnect_module
      → (let w' = assigned (id % 256) (server_id % 16) addr w in
          let m = w.pyconnect_module in
          (module_id_of (server_id % 16) w' ≡ pos (id % 256))
          × (msg : Bytes) × (expose_message (server_id % 16) (pos (id % 256)) m ≡ some msg)
          × (c : Cursor) × (process_message clang program
                (assign_message server_id m.name id ++ rest)
                addr
                w
              ≡ some (
                (
                  w',
                  Event.client_connected (server_id % 16)
                      ∷ Event.dispatch msg
                      ∷ Event.dispatch (desc_message (server_id % 16) (pos (id % 256)) m)
                      ∷ [],
                  mesg_processed_ok,
                ),
                c,
              )))
  unfolding process_message assign_message next_byte
  assignment_arrives server_id id addr w rest n h =
      let sid = server_id % 16 in
      let i = id % 256 in
      let m = w.pyconnect_module in
      let (body, e) = sendable_body m h in
      let (msg, e') = expose_message-some sid i m body e in
      let (k, r) =
        Reads-assign i sid m.name addr w _ n (assign_named_lem i sid addr w msg e') (msg_end ∷ rest)
          (pos 0) in
      (
        module_id_of-assigned i sid addr w,
        msg,
        e',
        record { bytes = msg_end ∷ rest; remaining = k },
        rw
            (
              header_type module_assign_id server_id,
              header_server module_assign_id server_id,
              append_assoc (pack_string false m.name) (msg_end ∷ []) rest,
            )
            r,
      )
