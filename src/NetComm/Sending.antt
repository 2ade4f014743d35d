-- ===== src/NetComm/Sending.antt =====
-- `dataPacketSender` and what it sends through: UDP broadcast, the sockets of other processes on the
-- machine, and the connection of one object.
use pyconnect.Base.{
  Bool, Bytes, List, Option, [], false, if◌then◌else◌, length, none, some, take, true, ℕ, ◌%◌, ◌++◌,
  ◌-◌, ◌==◌, ◌^◌, ◌||◌, ◌∷◌,
}
use pyconnect.Common.Types.{SockAddr, module_declare, module_discovery, msg_code, msg_end}
use pyconnect.Common.Pack.{pack_to_le_number}
use pyconnect.Common.Cipher.{Evp, done, encrypt_message, overrun, refused}
use pyconnect.ObjComm.Channels.{Side, find_or_add, verify_negotiation_msg}
use pyconnect.NetComm.Frame.{dispatch_frame}
use pyconnect.NetComm.Clients.{
  NetComm, add_fd_to_client_list, find_fd_by_proc_id, local_ipc, network, zero_addr,
}

-- What leaves the program: `sendto` on the UDP socket, and `write` or `send` on a descriptor.
pub data Output : Type 0 where
  datagram : Bytes → Output
  stream : ℕ → Bytes → Output

-- `socket` and then `connect`: no descriptor, one whose `connect` failed, or a connection.
pub data ConnectResult : Type 0 where
  no_socket : ConnectResult
  unreachable connected : ℕ → ConnectResult

-- `close` on a descriptor that is in no list.
abbrev pub close_fd : ℕ → NetComm → NetComm
close_fd fd s = record s { closed = fd ∷ s.closed }

-- `createTCPTalker`.
unfoldable pub create_tcp_talker :
    ConnectResult → SockAddr → Bytes → NetComm → Option (NetComm × Bool)
create_tcp_talker no_socket addr buffer s = some (s, false)
create_tcp_talker (unreachable fd) addr buffer s = some (close_fd fd s, false)
create_tcp_talker (connected fd) addr buffer s =
    elim (add_fd_to_client_list (some fd) network addr 0 buffer s) [
      | none ↦ none
      | some t ↦ some (t, true)
    ]

-- The part of `findOrCreateIPCTalker` behind the search. A failed `connect` leaves `INVALID_SOCKET`,
-- which goes into the list of connections all the same.
unfoldable pub create_ipc_talker : ConnectResult → ℕ → Bytes → NetComm → Option (NetComm × Option ℕ)
create_ipc_talker no_socket proc_id buffer s = some (s, none)
create_ipc_talker (unreachable fd) proc_id buffer s =
    elim (add_fd_to_client_list none local_ipc zero_addr proc_id buffer (close_fd fd s)) [
      | none ↦ none
      | some t ↦ some (t, none)
    ]
create_ipc_talker (connected fd) proc_id buffer s =
    elim (add_fd_to_client_list (some fd) local_ipc zero_addr proc_id buffer s) [
      | none ↦ none
      | some t ↦ some (t, some fd)
    ]

abbrev pub ipc_talker :
    (ℕ → NetComm → ConnectResult) → ℕ → Bytes → NetComm × Option ℕ → Option (NetComm × Option ℕ)
ipc_talker connect proc_id buffer (s, some fd) = some (s, some fd)
ipc_talker connect proc_id buffer (s, none) = create_ipc_talker (connect proc_id s) proc_id buffer s

-- `findOrCreateIPCTalker`.
unfoldable pub find_or_create_ipc_talker :
    (ℕ → NetComm → ConnectResult) → ℕ → Bytes → NetComm → Option (NetComm × Option ℕ)
find_or_create_ipc_talker connect proc_id buffer s =
    ipc_talker connect proc_id buffer (find_fd_by_proc_id proc_id s)

-- One `send` for each live server; `bytes` is the frame.
unfoldable pub send_to_servers :
    (ℕ → NetComm → ConnectResult)
    → Bytes
    → Bytes
    → List ℕ
    → NetComm
    → Option (NetComm × List Output)
send_to_servers connect buffer bytes [] s = some (s, [])
send_to_servers connect buffer bytes (proc_id ∷ servers) s =
    elim (find_or_create_ipc_talker connect proc_id buffer s) [
      | none ↦ none
      | some (t, fd) ↦ elim (send_to_servers connect buffer bytes servers t) [
        | none ↦ none
        | some (u, outputs) ↦
            some (u, elim fd [ none ↦ outputs | some index ↦ stream index bytes ∷ outputs ])
      ]
    ]

-- `verifyNegotiationMsg`; a message without bytes is read in front of its start.
unfoldable pub negotiation_type : Bytes → Option (Option ℕ)
negotiation_type [] = none
negotiation_type (first ∷ rest) = some (verify_negotiation_msg first rest)

-- `MODULE_DISCOVERY` and `MODULE_DECLARE`: the messages that carry a TCP port.
abbrev pub carries_port : Option ℕ → Bool
carries_port none = false
carries_port (some header) =
    header == msg_code module_discovery || header == msg_code module_declare

-- The port goes in front of the byte that ends the message.
unfoldable pub append_port : ℕ → Bytes → Bytes
unfolding pack_to_le_number
append_port port message =
    take (length message - 1) message ++ (pack_to_le_number 2 (port % 2 ^ 16) ++ (msg_end ∷ []))

module _ (evp : Evp) where
  -- `netBroadcastSend`.
  unfoldable pub net_broadcast_send : Bytes → NetComm → Option (NetComm × List Output)
  net_broadcast_send [] s = some (s, [])
  net_broadcast_send (first ∷ rest) s = elim (encrypt_message evp (first ∷ rest)) [
    | refused ↦ some (s, [])
    | overrun ↦ none
    | done out ↦ some (s, if s.net_comm_enabled then datagram out ∷ [] else [])
  ]

  -- `localBroadcastSend`; `servers` is what `consolidateIPCSockets` finds.
  unfoldable pub local_broadcast_send :
      (ℕ → NetComm → ConnectResult)
      → Bytes
      → List ℕ
      → Bytes
      → NetComm
      → Option (NetComm × List Output)
  local_broadcast_send connect buffer servers [] s = some (s, [])
  local_broadcast_send connect buffer servers (first ∷ rest) s =
      elim (encrypt_message evp (first ∷ rest)) [
        | refused ↦ some (s, [])
        | overrun ↦ none
        | done out ↦
            let sent : Option (NetComm × List Output) = elim (dispatch_frame out) [
              | none ↦ none
              | some bytes ↦ send_to_servers connect buffer bytes servers s
            ] in
            if s.ipc_comm_enabled then sent else some (s, [])
      ]

  abbrev pub write_frame : Bytes → NetComm → Option ℕ → Option (NetComm × List Output)
  write_frame out s none = some (s, [])
  write_frame out s (some index) = elim (dispatch_frame out) [
    | none ↦ none
    | some bytes ↦ some (s, stream index bytes ∷ [])
  ]

  -- `clientDataSend`, for a message of at least two bytes: the channel is looked up by them.
  unfoldable pub client_data_send : Side → Bytes → NetComm → Option (NetComm × List Output)
  client_data_send side [] s = some (s, [])
  client_data_send side (first ∷ []) s = none
  client_data_send side (first ∷ second ∷ rest) s =
      elim (encrypt_message evp (first ∷ second ∷ rest)) [
        | refused ↦ some (s, [])
        | overrun ↦ none
        | done out ↦
            let (c, mysock) = find_or_add side first second s.object_comm in
            write_frame out (record s { object_comm = c }) mysock
      ]

  -- Two broadcasts, each only if its part of the program is enabled.
  unfoldable pub broadcast_both :
      (ℕ → NetComm → ConnectResult)
      → Bytes
      → List ℕ
      → Bytes
      → Bytes
      → NetComm
      → Option (NetComm × List Output)
  broadcast_both connect buffer servers net_data local_data s =
      let on_net = net_broadcast_send net_data s in
      elim (if s.net_comm_enabled then on_net else some (s, [])) [
        | none ↦ none
        | some (t, outputs) ↦
            let on_machine = local_broadcast_send connect buffer servers local_data t in
            elim (if t.ipc_comm_enabled then on_machine else some (t, [])) [
              | none ↦ none
              | some (u, more) ↦ some (u, outputs ++ more)
            ]
      ]

  -- `dataPacketSender`.
  unfoldable pub data_packet_sender :
      Side
      → (ℕ → NetComm → ConnectResult)
      → Bytes
      → List ℕ
      → Bytes
      → Bool
      → NetComm
      → Option (NetComm × List Output)
  data_packet_sender side connect buffer servers message false s = client_data_send side message s
  data_packet_sender side connect buffer servers message true s = elim (negotiation_type message) [
    | none ↦ none
    | some msg_type ↦
        let with_port = append_port s.port_in_use message in
        broadcast_both connect buffer servers (if carries_port msg_type then with_port else message)
          message s
  ]
