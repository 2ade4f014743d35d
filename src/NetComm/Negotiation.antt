-- ===== src/NetComm/Negotiation.antt =====
-- The port that a broadcast carries, from `dataPacketSender` to `processUDPInput` of the other side.
use pyconnect.NetComm.Incoming.{ProcessInput, Session, give}
use pyconnect.Common.Cipher.{Evp, EvpLaws, decrypt_message-encrypt_message, done, encrypt_message}
use pyconnect.NetComm.Clients.{NetComm, add_fd_to_client_list, network}
use pyconnect.Base.{
  Bytes, List, [], ap, append_assoc, arith, drop-append_length, false, get_elem?,
  get_elem?-append_length, length, length-append, ltb, refl, some, sym, take, take-append_length,
  true, ℕ, ◌%◌, ◌++◌, ◌-◌, ◌/◌, ◌<◌, ◌^◌, ◌∙◌, ◌∷◌, ◌≡◌,
}
use pyconnect.Common.Types.{MesgProcessResult, SockAddr, msg_end}
use pyconnect.Common.Pack.{le_number, pack_to_le_number}
use pyconnect.Common.RoundTrip.{le_number-pack_to_le_number, length-pack_to_le_number}
use pyconnect.ObjComm.Channels.{ObjectComm, Side, verify_negotiation_msg}
use pyconnect.NetComm.Sending.{
  ConnectResult, Output, append_port, broadcast_both, carries_port, connected, create_tcp_talker,
  data_packet_sender, datagram, negotiation_type, net_broadcast_send,
}
use pyconnect.NetComm.Datagram.{
  connect_back, connects, extract_port, is_to_shutdown, process_negotiation, process_udp_input,
  udp_case,
}

-- A message that ends with its last byte.
abbrev pub ended : Bytes → Bytes
ended body = body ++ (msg_end ∷ [])

append_port-ended :
    (port : ℕ) (body : Bytes)
    → append_port port (ended body)
      ≡ body ++ (pack_to_le_number 2 (port % 2 ^ 16) ++ (msg_end ∷ []))
unfolding append_port
append_port-ended port body =
    ap (λ k. take k (ended body) ++ (pack_to_le_number 2 (port % 2 ^ 16) ++ (msg_end ∷ [])))
      (omega (arith, length-append {0} body (msg_end ∷ [])))
    ∙ ap (λ l. l ++ (pack_to_le_number 2 (port % 2 ^ 16) ++ (msg_end ∷ [])))
        (take-append_length body (msg_end ∷ []))

extract_port-end :
    (body bytes : Bytes)
    → length bytes ≡ 2
    → extract_port (body ++ (bytes ++ (msg_end ∷ []))) ≡ some (le_number bytes, ended body)
unfolding extract_port
extract_port-end body bytes two =
    let rest = bytes ++ (msg_end ∷ []) in
    let size = length-append body rest in
    let more = length-append bytes (msg_end ∷ []) in
    let at : length (body ++ rest) - 3 ≡ length body = omega arith in
    let long : ltb (length (body ++ rest)) 3 ≡ false = ground arith in
    rw long (
      rw at (
        rw (take-append_length body rest) (
          rw (drop-append_length body rest)
            (rw (ap (λ k. take k rest) (sym two) ∙ take-append_length bytes (msg_end ∷ [])) refl))))

-- What a broadcast message is for the receiver: its port, and the message itself.
pub extract_port-append_port :
    (port : ℕ) (body : Bytes)
    → port < 2 ^ 16
    → extract_port (append_port port (ended body)) ≡ some (port, ended body)
extract_port-append_port port body h =
    let same : port % 2 ^ 16 ≡ port = omega arith in
    ap extract_port (append_port-ended port body)
    ∙ extract_port-end body (pack_to_le_number 2 (port % 2 ^ 16)) (length-pack_to_le_number 2 _)
    ∙ ap (λ k. some (k, ended body))
        (le_number-pack_to_le_number 2 (port % 2 ^ 16) (omega arith) ∙ same)

-- A message of more than one byte has the type that its first byte says.
negotiation_type-ended :
    (first : ℕ) (body : Bytes)
    → negotiation_type (first ∷ ended body) ≡ some (some (first / 16 % 16))
unfolding negotiation_type verify_negotiation_msg
negotiation_type-ended first body =
    let size : length (ended body) ≡ length (first ∷ body) =
      omega (arith, length-append {0} body (msg_end ∷ [])) in
    rw
      (ap (get_elem? (first ∷ ended body)) size ∙ get_elem?-append_length (first ∷ body) msg_end [])
      refl

append_port-cons :
    (port first : ℕ) (body : Bytes)
    → append_port port (ended (first ∷ body))
      ≡ first ∷ ended (body ++ pack_to_le_number 2 (port % 2 ^ 16))
append_port-cons port first body =
    append_port-ended port (first ∷ body)
    ∙ ap (◌∷◌ first) (sym (append_assoc body (pack_to_le_number 2 (port % 2 ^ 16)) (msg_end ∷ [])))

net_broadcast_send-done :
    (evp : Evp) (first : ℕ) (rest : Bytes) (s : NetComm) (out : Bytes)
    → s.net_comm_enabled ≡ true
    → encrypt_message evp (first ∷ rest) ≡ done out
    → net_broadcast_send evp (first ∷ rest) s ≡ some (s, datagram out ∷ [])
unfolding net_broadcast_send
net_broadcast_send-done evp first rest s out on e = ground arith

broadcast_both-net :
    (evp : Evp) (connect_ipc : ℕ → NetComm → ConnectResult) (buffer : Bytes) (servers : List ℕ)
    (net_data local_data : Bytes) (s : NetComm) (outputs : List Output)
    → s.net_comm_enabled ≡ true
    → s.ipc_comm_enabled ≡ false
    → net_broadcast_send evp net_data s ≡ some (s, outputs)
    → broadcast_both evp connect_ipc buffer servers net_data local_data s ≡ some (s, outputs ++ [])
unfolding broadcast_both
broadcast_both-net evp connect_ipc buffer servers net_data local_data s outputs on no_ipc e =
    ground arith

module _ (evp : Evp) (side : Side) (connect_ipc : ℕ → NetComm → ConnectResult) (buffer : Bytes)
    (servers : List ℕ) (first : ℕ) (body : Bytes) (s : NetComm) (out : Bytes)
    (encrypted : encrypt_message evp (append_port s.port_in_use (ended (first ∷ body)))
      ≡ done out) where
  -- A discovery or a declaration leaves as one datagram, when only the network is enabled.
  data_packet_sender-datagram :
      carries_port (some (first / 16 % 16)) ≡ true
      → s.net_comm_enabled ≡ true
      → s.ipc_comm_enabled ≡ false
      → data_packet_sender evp side connect_ipc buffer servers (ended (first ∷ body)) true s
        ≡ some (s, datagram out ∷ [])
  unfolding data_packet_sender
  data_packet_sender-datagram carries on no_ipc =
      let bytes = body ++ pack_to_le_number 2 (s.port_in_use % 2 ^ 16) in
      let same = append_port-cons s.port_in_use first body in
      let sent : net_broadcast_send evp (append_port s.port_in_use (ended (first ∷ body))) s
          ≡ some (s, datagram out ∷ []) =
        ap (λ m. net_broadcast_send evp m s) same
        ∙ net_broadcast_send-done evp first (ended bytes) s out on
            (ap (encrypt_message evp) (sym same) ∙ encrypted) in
      rw (negotiation_type-ended first body, data_packet_sender)
        (rw carries (broadcast_both-net evp connect_ipc buffer servers _ _ s _ on no_ipc sent))

  -- The datagram at a program that answers it, with a connection to the port that it names.
  module _ {S : Type 0} (process_input : ProcessInput S) (receiver : Side)
      (connect : SockAddr → ConnectResult) (client_buffer : Bytes) (addr : SockAddr) (fd : ℕ)
      (w : Session S) (t : NetComm) where
    process_udp_input-datagram :
        EvpLaws evp
        → s.port_in_use < 2 ^ 16
        → udp_case receiver (some (first / 16 % 16)) ≡ connects
        → connect (record addr { port = s.port_in_use }) ≡ connected fd
        → add_fd_to_client_list
            (some fd)
            network
            (record addr { port = s.port_in_use })
            0
            client_buffer
            w.net
          ≡ some t
        → process_udp_input evp process_input receiver connect client_buffer out addr w
          ≡ some (
              process_negotiation evp process_input receiver
                (ended (first ∷ body))
                (record addr { port = s.port_in_use })
                (record w { net = t }, true))
    unfolding process_udp_input connect_back create_tcp_talker
    process_udp_input-datagram laws h answers reached added =
        let bytes = body ++ pack_to_le_number 2 (s.port_in_use % 2 ^ 16) in
        let type : negotiation_type (append_port s.port_in_use (ended (first ∷ body)))
            ≡ some (some (first / 16 % 16)) =
          ap negotiation_type (append_port-cons s.port_in_use first body)
          ∙ negotiation_type-ended first bytes in
        rw (decrypt_message-encrypt_message evp _ laws encrypted, process_udp_input)
          (rw (type, process_udp_input)
            (rw (answers, process_udp_input)
              (rw (extract_port-append_port s.port_in_use (first ∷ body) h, connect_back)
                (rw (reached, connect_back) (rw (added, create_tcp_talker) refl)))))

    -- What processing the message comes to, when no connection is to be shut.
    process_negotiation-kept :
        (message : Bytes) (from_addr : SockAddr) (comm : ObjectComm) (p : S)
        (result : MesgProcessResult)
        → process_input message from_addr true t.object_comm w.processor ≡ (comm, p, result)
        → is_to_shutdown result ≡ false
        → process_negotiation evp process_input receiver message from_addr
            (record w { net = t }, true)
          ≡ record { net = record t { object_comm = comm }; processor = p }
    unfolding process_negotiation give
    process_negotiation-kept message from_addr comm p result e keeps =
        rw (e, process_negotiation) (rw keeps refl)

    -- A discovery or a declaration that one program broadcasts over the network, and that a program
    -- of the other kind receives: one datagram goes out, and behind it the receiver connects to the
    -- sender's address at the sender's TCP port and gives its message processor, once, the message as
    -- it was before the port was put in, to be processed without decryption; what the processor makes
    -- of it is the result. The connection succeeds, the port is a 16-bit number, the local sockets are
    -- not enabled, and the processor does not ask for the connection to be shut.
    pub process_udp_input-data_packet_sender :
        (comm : ObjectComm) (p : S) (result : MesgProcessResult)
        → EvpLaws evp
        → s.port_in_use < 2 ^ 16
        → carries_port (some (first / 16 % 16)) ≡ true
        → udp_case receiver (some (first / 16 % 16)) ≡ connects
        → s.net_comm_enabled ≡ true
        → s.ipc_comm_enabled ≡ false
        → connect (record addr { port = s.port_in_use }) ≡ connected fd
        → add_fd_to_client_list
            (some fd)
            network
            (record addr { port = s.port_in_use })
            0
            client_buffer
            w.net
          ≡ some t
        → process_input
            (ended (first ∷ body))
            (record addr { port = s.port_in_use })
            true
            t.object_comm
            w.processor
          ≡ (comm, p, result)
        → is_to_shutdown result ≡ false
        → (data_packet_sender evp side connect_ipc buffer servers (ended (first ∷ body)) true s
            ≡ some (s, datagram out ∷ []))
          × (process_udp_input evp process_input receiver connect client_buffer out addr w
              ≡ some (record { net = record t { object_comm = comm }; processor = p }))
    process_udp_input-data_packet_sender comm p result laws h carries answers on no_ipc reached
          added e keeps =
        (
          data_packet_sender-datagram carries on no_ipc,
          process_udp_input-datagram laws h answers reached added
              ∙ ap some (
                  process_negotiation-kept (ended (first ∷ body))
                    (record addr { port = s.port_in_use }) comm p result e keeps),
        )
