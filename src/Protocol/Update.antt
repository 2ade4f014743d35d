-- ===== src/Protocol/Update.antt =====
-- The update of an attribute that the wrapper posts, against `ATTR_VALUE_UPDATE` of the stub.
use pyconnect.Wrapper.Messages.{response_message}
use pyconnect.Wrapper.State.{
  Event, Wrapper, module_id_of, post_attr_metd_data, send_attr_metd_response,
}
use pyconnect.Protocol.Handshake.{process_message-Reads}
use pyconnect.Base.{
  Bytes, List, [], ap, append_assoc, arith, drop-append_length, get_elem?, get_elem?-set, length,
  length-append, minus, pos, refl, set, signed32, some, subst, sym, take-append_length, ℕ, ◌%◌, ◌*◌,
  ◌++◌, ◌+◌, ◌<◌, ◌∙◌, ◌∷◌, ◌≡◌,
}
use pyconnect.Common.Types.{
  SockAddr, attr_value_update, codes, mesg_processed_ok, msg_code, msg_end, no_errors,
}
use pyconnect.Common.Reader.{Cursor, Reads, Reads-bind, Reads-map, Reads-next_byte, next_byte}
use pyconnect.Common.Pack.{
  le_number, pack_int_to_str, pack_to_le_number, packed_int_len, unpack_le_number,
}
use pyconnect.Common.RoundTrip.{Reads-pack_int_to_str, length-pack_to_le_number}
use pyconnect.Common.Python.{Python, unpack_str}
use pyconnect.Wrapper.Values.{Value, value_type}
use pyconnect.Stub.Object.{
  PyAttribute, PyObject, get_attr_resp, on_get_attr_resp, set_attr_value, value_arg,
}
use pyconnect.Stub.Changes.{ChangesOnly, replace_id-ChangesOnly}
use pyconnect.Stub.Registry.{Effect, Stub, find_by_id, object_callback, replace_id}
use pyconnect.Stub.Input.{
  dispatch_type, find_and_process, for_module, in_module, index_within, on_response,
  process_message,
}
use pyconnect.Protocol.Exposure.{ValueIsSendable, object_of, value_sent}

-- Four bytes are read as a number, whatever number they were made of.
Reads-le_number : (bs : Bytes) → length bs ≡ 4 → Reads (unpack_le_number 4) bs (le_number bs)
unfolding unpack_le_number
Reads-le_number bs four rest n = (
  minus n 4,
  ground (arith, take-append_length bs rest, drop-append_length bs rest, length-append bs rest),
)

Reads-index_within :
    (datalen index : ℕ)
    → index < 32768
    → Reads (index_within datalen) (pack_int_to_str (pos index)) index
unfolding index_within
Reads-index_within datalen index h rest n = Reads-pack_int_to_str index h rest (signed32 datalen)

module _ (py : Python) (index : ℕ) (v : Value) (a : PyAttribute py) (o : PyObject py)
    (small : index < 32768) (there : get_elem? o.attrs index ≡ some a)
    (typed : a.type ≡ value_type v) where
  -- The object with the new value, and the callback.
  abbrev updated : PyObject py × List (Effect py)
  updated = (
    record o { attrs = set o.attrs index (record a { value = object_of py v }) },
    object_callback o.id (codes "on" ++ (a.name ++ codes "Update")) (value_arg (object_of py v))
        ∷ [],
  )

  Reads-update :
      (datalen raw : Bytes)
      → length datalen ≡ 4
      → Reads (unpack_str py (value_type v)) raw (object_of py v)
      → Reads
          (on_response py (on_get_attr_resp py) o)
          (0 ∷ (datalen ++ (pack_int_to_str (pos index) ++ raw)))
          updated
  unfolding on_response on_get_attr_resp get_attr_resp set_attr_value
  Reads-update datalen raw four value =
      let at_type : Reads (unpack_str py a.type) raw (object_of py v) =
        subst (λ t. Reads (unpack_str py t) raw (object_of py v)) (sym typed) value in
      Reads-bind next_byte _ (0 ∷ []) (datalen ++ (pack_int_to_str (pos index) ++ raw)) 0 _
        (Reads-next_byte 0)
        (Reads-bind (unpack_le_number 4) _ datalen (pack_int_to_str (pos index) ++ raw)
          (le_number datalen) _ (Reads-le_number datalen four)
          (Reads-bind (index_within (le_number datalen)) _ (pack_int_to_str (pos index)) raw index _
            (Reads-index_within (le_number datalen) index small)
            (rw (there, on_get_attr_resp)
              (Reads-map (λ c. get_attr_resp py index a 0 o c) _ raw _
                (Reads-map (unpack_str py a.type) _ raw (object_of py v) at_type)))))

  Reads-module_update :
      (header id : ℕ) (addr : SockAddr) (s : Stub py) (datalen raw : Bytes)
      → length datalen ≡ 4
      → Reads (unpack_str py (value_type v)) raw (object_of py v)
      → find_by_id py (id % 256 % 16) s.modules ≡ some o
      → Reads
          (dispatch_type py header 8 addr s)
          ((id % 256) ∷ ((0 ∷ (datalen ++ (pack_int_to_str (pos index) ++ raw))) ++ (msg_end ∷ [])))
          (
            record s { modules = replace_id py (id % 256 % 16) updated.0 s.modules },
            Effect.gil_ensure ∷ (updated.1 ++ (Effect.gil_release ∷ [])),
            mesg_processed_ok,
          )
  unfolding dispatch_type find_and_process for_module in_module
  Reads-module_update header id addr s datalen raw four value e =
      let body = 0 ∷ (datalen ++ (pack_int_to_str (pos index) ++ raw)) in
      Reads-bind next_byte _ ((id % 256) ∷ []) (body ++ (msg_end ∷ [])) (id % 256) _
        (Reads-next_byte (id % 256))
        (rw (e, find_and_process)
          (Reads-bind (on_response py (on_get_attr_resp py) o) _ body (msg_end ∷ []) updated _
            (Reads-update datalen raw four value)
            (Reads-map next_byte _ (msg_end ∷ []) msg_end (Reads-next_byte msg_end))))

  -- An update that the wrapper posts for an attribute reaches the server: the message is sent, and
  -- processing it gives the attribute at that index of the module's object the Python object for the
  -- new value, changes nothing else in the object and in the registry, and calls the object back under the lock. The value can be sent,
  -- the server's attribute has its type, the index is below 32768, and the server has an object by the
  -- low four bits of the identifier that it assigned.
  pub update_arrives :
      (server_id id : ℕ) (addr : SockAddr) (w : Wrapper) (s : Stub py) (rest : Bytes)
      → ValueIsSendable v
      → module_id_of server_id w ≡ pos id
      → find_by_id py (id % 256 % 16) s.modules ≡ some o
      → (msg : Bytes) × (post_attr_metd_data attr_value_update no_errors index v server_id w
          ≡ some (Event.dispatch msg))
        × (s' : Stub py) × ChangesOnly py (id % 256 % 16) updated.0 s s'
        × (get_elem? updated.0.attrs index ≡ some (record a { value = object_of py v }))
        × (c : Cursor) × (process_message py (msg ++ rest) addr s
            ≡ some (
              (
                s',
                Effect.gil_ensure
                    ∷ object_callback o.id
                        (codes "on" ++ (a.name ++ codes "Update"))
                        (value_arg (object_of py v))
                    ∷ Effect.gil_release
                    ∷ [],
                mesg_processed_ok,
              ),
              c,
            ))
  unfolding post_attr_metd_data send_attr_metd_response response_message
  update_arrives server_id id addr w s rest h assigned e =
      let (raw, sent, value) = value_sent py v h in
      let count = length raw + packed_int_len (pos index) in
      let datalen = pack_to_le_number 4 count in
      let index_bytes = pack_int_to_str (pos index) in
      let bs = (id % 256) ∷ ((0 ∷ (datalen ++ (index_bytes ++ raw))) ++ (msg_end ∷ [])) in
      let (c, r) =
        process_message-Reads py attr_value_update server_id addr s bs _
          (Reads-module_update _ id addr s datalen raw (length-pack_to_le_number 4 count) value e)
          rest in
      let same : datalen ++ (index_bytes ++ (raw ++ (msg_end ∷ [])))
          ≡ (datalen ++ (index_bytes ++ raw)) ++ (msg_end ∷ []) =
        ap (λ l. datalen ++ l) (sym (append_assoc index_bytes raw (msg_end ∷ [])))
        ∙ sym (append_assoc datalen (index_bytes ++ raw) (msg_end ∷ [])) in
      (
        (msg_code attr_value_update * 16 + server_id % 16) ∷ bs,
        rw (sent, post_attr_metd_data) (rw assigned (rw same refl)),
        _,
        replace_id-ChangesOnly py (id % 256 % 16) o updated.0 s e refl,
        get_elem?-set o.attrs index a (record a { value = object_of py v }) there,
        c,
        r,
      )
