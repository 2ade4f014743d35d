-- ===== src/NetComm/Datagram.antt =====
-- `processUDPInput`: a negotiation message from the network, and the connection that it asks for.
use pyconnect.Base.{
  Bool, Bytes, Option, [], drop, false, if◌then◌else◌, length, ltb, none, some, take, true, ℕ, ◌++◌,
  ◌-◌, ◌==◌, ◌||◌, ◌∷◌,
}
use pyconnect.Common.Types.{
  MesgProcessResult, SockAddr, mesg_processed_failed, mesg_processed_ok, mesg_to_shutdown,
  module_declare, module_discovery, msg_code, msg_end, peer_server_discovery, peer_server_msg,
}
use pyconnect.Common.Pack.{le_number}
use pyconnect.Common.Cipher.{Evp, decrypt_message, done, overrun, refused}
use pyconnect.ObjComm.Channels.{Side, cpp_module, get_last_used, python_server}
use pyconnect.NetComm.Clients.{destroy_client_by_fd}
use pyconnect.NetComm.Incoming.{ProcessInput, Session, give, set_comm, shut_channel}
use pyconnect.NetComm.Sending.{ConnectResult, create_tcp_talker, negotiation_type}

-- The cases of the `switch`, which differ between the two programs.
pub data UdpCase : Type 0 where
  ignored peer_message connects unknown_message : UdpCase

unfoldable pub udp_case : Side → Option ℕ → UdpCase
udp_case side none = unknown_message
udp_case python_server (some header) =
    if header == msg_code module_discovery
    then ignored
    else if header == msg_code peer_server_msg
    then peer_message
    else if header == msg_code module_declare || header == msg_code peer_server_discovery
    then connects
    else unknown_message
udp_case cpp_module (some header) =
    if header == msg_code module_declare
      || (header == msg_code peer_server_discovery || header == msg_code peer_server_msg)
    then ignored
    else if header == msg_code module_discovery
    then connects
    else unknown_message

-- The port in front of the last byte, and the message without it. A message of fewer than three bytes
-- is read in front of its start.
unfoldable pub extract_port : Bytes → Option (ℕ × Bytes)
unfolding le_number
extract_port message =
    let n = length message in
    if ltb n 3
    then none
    else some (le_number (take 2 (drop (n - 3) message)), take (n - 3) message ++ (msg_end ∷ []))

abbrev pub is_to_shutdown : MesgProcessResult → Bool
is_to_shutdown mesg_processed_ok = false
is_to_shutdown mesg_processed_failed = false
is_to_shutdown mesg_to_shutdown = true

module _ {S : Type 0} (evp : Evp) (process_input : ProcessInput S) (side : Side) where
  -- `objCommChannelShutdown(fd)` and `destroyCurrentClient(fd)`.
  abbrev pub shut_client : Option ℕ → Session S → Session S
  shut_client none w = record w { net = destroy_client_by_fd none w.net }
  shut_client (some fd) w =
      let w' = shut_channel process_input side fd false w in
      record w' { net = destroy_client_by_fd (some fd) w'.net }

  -- The same for `getLastUsedCommChannel`.
  unfoldable pub shut_last_used : Session S → Session S
  shut_last_used w = let (c, fd) = get_last_used w.net.object_comm in shut_client fd (set_comm c w)

  -- The restored message is processed without decryption, after the connection is there.
  unfoldable pub process_negotiation : Bytes → SockAddr → Session S × Bool → Session S
  process_negotiation message addr (w, false) = w
  process_negotiation message addr (w, true) =
      let (w', r) = give process_input message addr true w in
      if is_to_shutdown r then shut_last_used w' else w'

  unfoldable pub connect_back :
      (SockAddr → ConnectResult) → Bytes → Bytes → SockAddr → Session S → Option (Session S)
  connect_back connect buffer message addr w = elim (extract_port message) [
    | none ↦ none
    | some (port, restored) ↦
        let addr' : SockAddr = record addr { port = port } in
        elim (create_tcp_talker (connect addr') addr' buffer w.net) [
          | none ↦ none
          | some (t, established) ↦
              some (process_negotiation restored addr' (record w { net = t }, established))
        ]
  ]

  -- The message of a peer server goes to `processInput` without `skipdecrypt`, though it has been
  -- decrypted.
  abbrev pub udp_switch :
      (SockAddr → ConnectResult)
      → Bytes
      → Bytes
      → SockAddr
      → Session S
      → UdpCase
      → Option (Session S)
  udp_switch connect buffer message addr w ignored = some w
  udp_switch connect buffer message addr w peer_message =
      some (give process_input message addr false w).0
  udp_switch connect buffer message addr w connects = connect_back connect buffer message addr w
  udp_switch connect buffer message addr w unknown_message = some w

  -- `processUDPInput`.
  unfoldable pub process_udp_input :
      (SockAddr → ConnectResult) → Bytes → Bytes → SockAddr → Session S → Option (Session S)
  process_udp_input connect buffer received addr w = elim (decrypt_message evp received) [
    | refused ↦ some w
    | overrun ↦ none
    | done message ↦ elim (negotiation_type message) [
      | none ↦ none
      | some msg_type ↦ udp_switch connect buffer message addr w (udp_case side msg_type)
    ]
  ]
