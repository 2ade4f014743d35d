-- ===== src/Stub/Messages.antt =====
-- The messages that the server sends, with the sizes that it allocates for them.
use pyconnect.Base.{
  Bytes, [], arith, false, length, length-append, pos, true, ℕ, ◌%◌, ◌*◌, ◌++◌, ◌+◌, ◌∷◌, ◌≡◌,
}
use pyconnect.Common.Types.{
  PyConnectMsg, module_assign_id, module_discovery, msg_code, msg_end, peer_server_msg,
  server_shutdown,
}
use pyconnect.Common.Pack.{pack_int_to_str, pack_string, pack_to_le_number, packed_int_len}
use pyconnect.Common.RoundTrip.{
  length-pack_int_to_str, length-pack_string, length-pack_to_le_number,
}

-- `msgType << 4 | (this->serverID_ & 0xf)`; a server identifier is not negative.
abbrev pub header_byte : PyConnectMsg → ℕ → ℕ
header_byte msg server_id = msg_code msg * 16 + server_id % 16

-- `remoteAttrMethodCall`, for an object with an identifier that is not negative.
unfoldable pub call_message : PyConnectMsg → ℕ → ℕ → ℕ → Bytes → Bytes
call_message msg server_id obj_id index arg_str =
    header_byte msg server_id
    ∷ (obj_id % 256)
    ∷ (pack_to_le_number 4 (packed_int_len (pos index) + length arg_str)
        ++ (pack_int_to_str (pos index) ++ (arg_str ++ msg_end ∷ [])))

unfoldable pub call_size : ℕ → Bytes → ℕ
call_size index arg_str = 3 + 4 + packed_int_len (pos index) + length arg_str

-- `assignModuleID`.
unfoldable pub assign_message : ℕ → Bytes → ℕ → Bytes
assign_message server_id name id =
    header_byte module_assign_id server_id ∷ (id % 256) ∷ (pack_string false name ++ msg_end ∷ [])

-- `sendDiscoveryMsg`.
unfoldable pub discovery_message : ℕ → Bytes
discovery_message server_id = header_byte module_discovery server_id ∷ msg_end ∷ []

-- `sendPeerMessage`.
unfoldable pub peer_message : ℕ → Bytes → Bytes
peer_message server_id mesg =
    header_byte peer_server_msg server_id ∷ (pack_string true mesg ++ msg_end ∷ [])

unfoldable pub peer_size : Bytes → ℕ
peer_size mesg = length mesg + packed_int_len (pos (length mesg)) + 2

-- What `~PyConnectStub` and `shutdownModuleByRef` send to one module.
unfoldable pub server_shutdown_message : ℕ → ℕ → Bytes
server_shutdown_message server_id id =
    header_byte server_shutdown server_id ∷ (id % 256) ∷ msg_end ∷ []

-- `remoteAttrMethodCall` and `sendPeerMessage` allocate exactly the bytes that they write, for a
-- server, an object and an index that are not negative.
pub call_and_peer_size_exact :
    (msg : PyConnectMsg) (server_id obj_id index : ℕ) (text : Bytes)
    → (length (call_message msg server_id obj_id index text) ≡ call_size index text)
      × (length (peer_message server_id text) ≡ peer_size text)
unfolding call_message call_size peer_message peer_size
call_and_peer_size_exact msg server_id obj_id index text =
    let n = pack_to_le_number 4 (packed_int_len (pos index) + length text) in
    let i = pack_int_to_str (pos index) in
    (
      omega (
        arith,
        length-append {0} n (i ++ (text ++ msg_end ∷ [])),
        length-append {0} i (text ++ msg_end ∷ []),
        length-append {0} text (msg_end ∷ []),
        length-pack_to_le_number 4 (packed_int_len (pos index) + length text),
        length-pack_int_to_str index,
      ),
      omega (
        arith,
        length-append {0} (pack_string true text) (msg_end ∷ []),
        length-pack_string text,
      ),
    )
