-- ===== src/Protocol/Handshake.antt =====
-- The messages by which a module gets to know a server, each made by one side and read by the other.
use pyconnect.Stub.Object.{PyObject, add_attributes, add_methods, new_object}
use pyconnect.Stub.Expose.{read_expose}
use pyconnect.Base.{
  Bool, Bytes, List, [], ap, append_assoc, arith, bytes_eq, false, if◌then◌else◌, length, ltb, map,
  none, pos, refl, some, sym, true, ℕ, ◌%◌, ◌*◌, ◌++◌, ◌+◌, ◌/◌, ◌<◌, ◌==◌, ◌∙◌, ◌∷◌, ◌≡◌,
}
use pyconnect.Common.Types.{
  PyConnectMsg, SockAddr, attr_metd_expose, codes, mesg_processed_ok, module_declare, msg_code,
  msg_end,
}
use pyconnect.Common.Reader.{Cursor, Reads, Reads-bind, Reads-map, Reads-next_byte, next_byte}
use pyconnect.Common.Pack.{pack_string, unpack_string}
use pyconnect.Common.RoundTrip.{NonZero, Reads-pack_string}
use pyconnect.Common.Python.{Python}
use pyconnect.Wrapper.Module.{PyConnectModule}
use pyconnect.Wrapper.Messages.{declare_message, expose_message}
use pyconnect.Stub.Changes.{ChangesOnly, IsExposed, exposure-IsExposed, replace_id-ChangesOnly}
use pyconnect.Stub.Messages.{assign_message}
use pyconnect.Stub.Registry.{Effect, Stub, add_new_module, find_by_id, find_by_name, replace_id}
use pyconnect.Stub.Input.{
  Processed, declare_found, dispatch_type, find_and_process, for_module, in_module, on_expose,
  on_module_declare, process_message,
}
use pyconnect.Protocol.Exposure.{
  IsSendable, NameIsSendable, Reads-expose_body, entry_of, method_entry_of,
}

-- The four high bits of a header are the message's type, and the low ones the server.
pub header_type :
    (msg : PyConnectMsg) (id : ℕ) → (msg_code msg * 16 + id % 16) / 16 % 16 ≡ msg_code msg
header_type PyConnectMsg.module_discovery id = omega arith
header_type PyConnectMsg.module_declare id = omega arith
header_type PyConnectMsg.module_assign_id id = omega arith
header_type PyConnectMsg.attr_metd_expose id = omega arith
header_type PyConnectMsg.call_attr_metd id = omega arith
header_type PyConnectMsg.call_attr_metd_nocb id = omega arith
header_type PyConnectMsg.attr_metd_resp id = omega arith
header_type PyConnectMsg.attr_value_update id = omega arith
header_type PyConnectMsg.get_attr_metd_desc id = omega arith
header_type PyConnectMsg.attr_metd_desc id = omega arith
header_type PyConnectMsg.module_shutdown id = omega arith
header_type PyConnectMsg.server_shutdown id = omega arith
header_type PyConnectMsg.peer_server_discovery id = omega arith
header_type PyConnectMsg.peer_server_msg id = omega arith

pub header_server : (msg : PyConnectMsg) (id : ℕ) → (msg_code msg * 16 + id % 16) % 16 ≡ id % 16
header_server msg id = omega arith

module _ (py : Python) where
  -- A message whose body is read up to some bytes behind it.
  pub process_message-Reads :
      (msg : PyConnectMsg) (server_id : ℕ) (addr : SockAddr) (s : Stub py) (bs : Bytes)
      (r : Processed py)
      → Reads (dispatch_type py (msg_code msg * 16 + server_id % 16) (msg_code msg) addr s) bs r
      → (rest : Bytes)
      → (c : Cursor) × (process_message py
            ((msg_code msg * 16 + server_id % 16) ∷ (bs ++ rest))
            addr
            s
          ≡ some (r, c))
  unfolding process_message next_byte
  process_message-Reads msg server_id addr s bs r h rest =
      let (m, e) = h rest (pos 0) in
      (record { bytes = rest; remaining = m }, rw (header_type msg server_id) e)

  Reads-declare :
      (header options : ℕ) (name desc : Bytes) (addr : SockAddr) (s : Stub py)
      → NameIsSendable name
      → NonZero desc
      → length desc < 32768
      → find_by_name py name s.modules ≡ none
      → Reads
          (dispatch_type py header 2 addr s)
          (options ∷ (pack_string false name ++ pack_string true desc))
          (
            (add_new_module py name desc options addr s).0,
            (add_new_module py name desc options addr s).1,
            mesg_processed_ok,
          )
  unfolding dispatch_type on_module_declare declare_found
  Reads-declare header options name desc addr s (z, l) z' l' e =
      Reads-bind next_byte _ (options ∷ []) (pack_string false name ++ pack_string true desc)
        options _ (Reads-next_byte options)
        (Reads-bind (unpack_string false) _ (pack_string false name) (pack_string true desc) name _
          (Reads-pack_string false name z l)
          (rw (e, declare_found)
            (Reads-map (unpack_string true) _ (pack_string true desc) desc
              (Reads-pack_string true desc z' l'))))

  -- A new object at the server: under the next identifier, with the name, the description and the
  -- order of evaluation that were declared, and without attributes and methods.
  pub record IsDeclared (clang : Bool) (id : ℕ) (m : PyConnectModule) (o : PyObject py)
      : Type 0 where
    pub has_id : o.id ≡ id
    pub has_name : o.name ≡ m.name
    pub has_desc :
        o.desc ≡ (if bytes_eq m.desc [] then codes "Undocumented PyConnect object" else m.desc)
    pub has_order : o.arg_eval_reversed ≡ clang
    pub answers : o.no_callback ≡ false
    pub is_empty : (o.attrs ≡ []) × (o.metds ≡ [])

  new_object-IsDeclared :
      (clang : Bool) (id : ℕ) (m : PyConnectModule) (addr : SockAddr)
      → IsDeclared clang id m (new_object py m.name id m.desc (if clang then 1 else 0) addr)
  unfolding new_object
  new_object-IsDeclared clang id m addr = record {
    has_id = refl;
    has_name = refl;
    has_desc = refl;
    has_order = elim clang as (λ k. ((if k then 1 else 0) == 1) ≡ k) [ true ↦ refl | false ↦ refl ];
    answers = refl;
    is_empty = (refl, refl);
  }

  add_new_module-added :
      (name desc : Bytes) (options : ℕ) (addr : SockAddr) (s : Stub py)
      → 0 < length name
      → s.next_obj_id < 0x100
      → add_new_module py name desc options addr s ≡ (
        record s {
          modules = s.modules ++ (new_object py name s.next_obj_id desc options addr ∷ []);
          next_obj_id = s.next_obj_id + 1;
        },
        Effect.gil_ensure
            ∷ Effect.publish name
            ∷ Effect.gil_release
            ∷ Effect.dispatch (assign_message s.server_id name s.next_obj_id) false
            ∷ [],
      )
  unfolding add_new_module bytes_eq
  add_new_module-added [] desc options addr s h l = absurd (omega arith)
  add_new_module-added (b ∷ name) desc options addr s h l =
      let fits : ltb 0xff s.next_obj_id ≡ false = ground arith in rw (fits, add_new_module) refl

  -- A module with a name and a description that can be sent, and whose name is not empty and not known
  -- to the server, while it has identifiers left: processing what it declares adds one object at the
  -- end, under the next identifier, with the name, the description (or a stock one) and the order of
  -- evaluation of its compiler, without attributes and methods; the name is published under the lock,
  -- and the identifier is then sent, and not as a broadcast.
  pub declare_arrives :
      (clang : Bool) (server_id : ℕ) (m : PyConnectModule) (addr : SockAddr) (s : Stub py)
      (rest : Bytes)
      → NameIsSendable m.name
      → 0 < length m.name
      → s.next_obj_id < 0x100
      → NonZero m.desc
      → length m.desc < 32768
      → find_by_name py m.name s.modules ≡ none
      → (o : PyObject py) × IsDeclared clang s.next_obj_id m o
        × (c : Cursor) × (process_message py (declare_message clang server_id m ++ rest) addr s
            ≡ some (
              (
                record s { modules = s.modules ++ (o ∷ []); next_obj_id = s.next_obj_id + 1 },
                Effect.gil_ensure
                    ∷ Effect.publish m.name
                    ∷ Effect.gil_release
                    ∷ Effect.dispatch (assign_message s.server_id m.name s.next_obj_id) false
                    ∷ [],
                mesg_processed_ok,
              ),
              c,
            ))
  unfolding declare_message
  declare_arrives clang server_id m addr s rest n named left z l e =
      let options = if clang then 1 else 0 in
      let name = pack_string false m.name in
      let desc = pack_string true m.desc in
      let added = add_new_module-added m.name m.desc options addr s named left in
      let (c, r) =
        process_message-Reads module_declare server_id addr s (options ∷ (name ++ desc)) _
          (Reads-declare _ options m.name m.desc addr s n z l e) (msg_end ∷ rest) in
      (
        new_object py m.name s.next_obj_id m.desc options addr,
        new_object-IsDeclared clang s.next_obj_id m addr,
        c,
        rw
            (
              append_assoc name (desc ++ msg_end ∷ []) rest,
              append_assoc desc (msg_end ∷ []) rest,
              sym (append_assoc name desc (msg_end ∷ rest)),
            )
            (r
              ∙ ap (λ (a : Stub py × List (Effect py)). some ((a.0, a.1, mesg_processed_ok), c))
                  added),
      )

  -- What the server makes of a module's exposure.
  unfoldable exposed : PyConnectModule → PyObject py → PyObject py
  exposed m o =
      add_methods py (map method_entry_of m.methods)
        (add_attributes py (map (entry_of py) m.attributes) o)

  Reads-expose :
      (header id : ℕ) (m : PyConnectModule) (addr : SockAddr) (s : Stub py) (o : PyObject py)
      (body : Bytes)
      → Reads (read_expose py) body (map (entry_of py) m.attributes, map method_entry_of m.methods)
      → find_by_id py (id % 256 % 16) s.modules ≡ some o
      → Reads (dispatch_type py header 4 addr s) ((id % 256) ∷ (body ++ msg_end ∷ [])) (
        record s { modules = replace_id py (id % 256 % 16) (exposed m o) s.modules },
        Effect.gil_ensure ∷ Effect.created_callback o.id ∷ Effect.gil_release ∷ [],
        mesg_processed_ok,
      )
  unfolding dispatch_type find_and_process for_module in_module on_expose exposed
  Reads-expose header id m addr s o body r e =
      Reads-bind next_byte _ ((id % 256) ∷ []) (body ++ msg_end ∷ []) (id % 256) _
        (Reads-next_byte (id % 256))
        (rw (e, find_and_process)
          (Reads-bind (on_expose py o) _ body (msg_end ∷ []) _ _
            (Reads-map (read_expose py) _ body _ r)
            (Reads-map next_byte _ (msg_end ∷ []) msg_end (Reads-next_byte msg_end))))

  -- A sendable module with an identifier by whose low four bits the server has an object: the exposure
  -- is sent, and processing it adds the module's attributes, with their values, and its methods, with
  -- rising numbers, in order behind those that the object has, each to be found in its dictionary
  -- under its name; it changes nothing else, and then the main script is told under the lock.
  pub expose_arrives :
      (server_id id : ℕ) (m : PyConnectModule) (addr : SockAddr) (s : Stub py) (o : PyObject py)
      (rest : Bytes)
      → IsSendable m
      → find_by_id py (id % 256 % 16) s.modules ≡ some o
      → (msg : Bytes) × (expose_message server_id (pos id) m ≡ some msg)
        × (s' : Stub py) × (new : PyObject py) × ChangesOnly py (id % 256 % 16) new s s'
        × IsExposed py (map (entry_of py) m.attributes) (map method_entry_of m.methods) o new
        × (c : Cursor) × (process_message py (msg ++ rest) addr s
            ≡ some (
              (
                s',
                Effect.gil_ensure ∷ Effect.created_callback o.id ∷ Effect.gil_release ∷ [],
                mesg_processed_ok,
              ),
              c,
            ))
  unfolding expose_message exposed
  expose_arrives server_id id m addr s o rest h e =
      let (body, sent, r) = Reads-expose_body py m h in
      let bs = (id % 256) ∷ (body ++ msg_end ∷ []) in
      let (c, p) =
        process_message-Reads attr_metd_expose server_id addr s bs _
          (Reads-expose _ id m addr s o body r e) rest in
      let is_exposed =
        exposure-IsExposed py (map (entry_of py) m.attributes) (map method_entry_of m.methods) o in
      (
        (msg_code attr_metd_expose * 16 + server_id % 16) ∷ bs,
        rw sent,
        _,
        exposed m o,
        replace_id-ChangesOnly py (id % 256 % 16) o (exposed m o) s e is_exposed.key_stays.0,
        is_exposed,
        c,
        p,
      )
