-- ===== src/NetComm/EventLaws.antt =====
-- The event loop keeps the connections valid.
use pyconnect.NetComm.IncomingLaws.{
  ClientsAreValid-SameBut, client_loop-survivors, shut_channel-SameBut,
}
use pyconnect.Common.Types.{SockAddr, msg_buffer_size}
use pyconnect.Common.Cipher.{CipherResult, Evp, decrypt_message, done, overrun, refused}
use pyconnect.ObjComm.Channels.{ObjectComm, Side, get_last_used}
use pyconnect.NetComm.ClientLaws.{
  ClientsAreValid, Unused, add_fd_to_client_list-ClientsAreValid,
  destroy_client_by_fd-ClientsAreValid,
}
use pyconnect.NetComm.Incoming.{ProcessInput, Session, give, set_comm, shut_channel}
use pyconnect.NetComm.Sending.{
  ConnectResult, connected, create_tcp_talker, negotiation_type, no_socket, unreachable,
}
use pyconnect.NetComm.Datagram.{
  UdpCase, connect_back, connects, extract_port, ignored, is_to_shutdown, peer_message,
  process_negotiation, process_udp_input, shut_client, shut_last_used, udp_case, udp_switch,
  unknown_message,
}
use pyconnect.NetComm.EventLoop.{
  AcceptsFresh, IsFresh, System, SystemLaws, add_accepted, and_then, is_ready, on_clients,
  on_datagram, on_ipc_connection, on_network, on_tcp_connection, process_incoming_data, received,
  with_net,
}
use pyconnect.Base.{
  Bool, Bytes, Option, Option-cases, arith, false, if_elim, inl, inr, length, none, refl, some,
  subst, suc, true, ℕ, ◌&&◌, ◌≡◌,
}
use pyconnect.NetComm.Clients.{FdDomain, NetComm, add_fd_to_client_list, local_ipc, network}

-- If the operation gives a result, this has the property.
abbrev pub Afterwards : {A : Type 0} → (A → Type 0) → Option A → Type 0
Afterwards P none = Unit
Afterwards P (some a) = P a

pub Afterwards-some :
    {A : Type 0} (P : A → Type 0) (o : Option A) {a : A} → Afterwards P o → o ≡ some a → P a
Afterwards-some P none h e = absurd (cc)
Afterwards-some P (some b) {a} h e = let same : b ≡ a = cc in subst P same h

abbrev NetIsValid : {S : Type 0} → Session S → Type 0
NetIsValid w = ClientsAreValid w.net

set_comm-ClientsAreValid :
    {S : Type 0} (c : ObjectComm) (w : Session S) → NetIsValid w → NetIsValid (set_comm c w)
set_comm-ClientsAreValid c w v = record { each = v.each; distinct = v.distinct }

give-ClientsAreValid :
    {S : Type 0} (process_input : ProcessInput S) (message : Bytes) (addr : SockAddr)
    (skip_decrypt : Bool) (w : Session S)
    → NetIsValid w
    → NetIsValid (give process_input message addr skip_decrypt w).0
unfolding give
give-ClientsAreValid process_input message addr skip_decrypt w v = record {
  each = v.each;
  distinct = v.distinct;
}

add_fd_to_client_list-Afterwards :
    (fd : ℕ) (domain : FdDomain) (addr : SockAddr) (proc_id : ℕ) (buffer : Bytes) (s : NetComm)
    → ClientsAreValid s
    → Unused fd s.client_fd_list
    → length buffer ≡ msg_buffer_size
    → Afterwards ClientsAreValid (add_fd_to_client_list (some fd) domain addr proc_id buffer s)
add_fd_to_client_list-Afterwards fd domain addr proc_id buffer s v u size =
    let (t, e, valid, _, _) =
      add_fd_to_client_list-ClientsAreValid fd domain addr proc_id buffer s v u size in
    rw e valid

pub create_tcp_talker-Afterwards :
    (r : ConnectResult) (addr : SockAddr) (buffer : Bytes) (s : NetComm)
    → ClientsAreValid s
    → IsFresh s r
    → length buffer ≡ msg_buffer_size
    → Afterwards (λ p. ClientsAreValid p.0) (create_tcp_talker r addr buffer s)
unfolding create_tcp_talker
create_tcp_talker-Afterwards no_socket addr buffer s v f size = v
create_tcp_talker-Afterwards (unreachable fd) addr buffer s v f size = record {
  each = v.each;
  distinct = v.distinct;
}
create_tcp_talker-Afterwards (connected fd) addr buffer s v f size =
    let (t, e, valid, _, _) =
      add_fd_to_client_list-ClientsAreValid fd network addr 0 buffer s v f size in
    rw (e, create_tcp_talker) valid

module _ {S : Type 0} (evp : Evp) (process_input : ProcessInput S) (side : Side) where
  shut_client-ClientsAreValid :
      (fd : Option ℕ) (w : Session S)
      → NetIsValid w
      → NetIsValid (shut_client evp process_input side fd w)
  shut_client-ClientsAreValid none w v = destroy_client_by_fd-ClientsAreValid none w.net v
  shut_client-ClientsAreValid (some fd) w v =
      let w' = shut_channel process_input side fd false w in
      destroy_client_by_fd-ClientsAreValid (some fd) w'.net (
        ClientsAreValid-SameBut process_input w w'
          (shut_channel-SameBut process_input side fd false w) v)

  process_negotiation-ClientsAreValid :
      (message : Bytes) (addr : SockAddr) (w : Session S) (established : Bool)
      → NetIsValid w
      → NetIsValid (process_negotiation evp process_input side message addr (w, established))
  unfolding process_negotiation shut_last_used get_last_used
  process_negotiation-ClientsAreValid message addr w false v = v
  process_negotiation-ClientsAreValid message addr w true v =
      let (w', r) = give process_input message addr true w in
      let valid = give-ClientsAreValid process_input message addr true w v in
      if_elim NetIsValid (is_to_shutdown r) _ _
        (λ _.
          shut_client-ClientsAreValid w'.net.object_comm.active_channel _
            (set_comm-ClientsAreValid _ w' valid))
        (λ _. valid)

  module _ (os : System) (laws : SystemLaws os) where
    connect_back-Afterwards :
        (message : Bytes) (addr : SockAddr) (w : Session S)
        → NetIsValid w
        → Afterwards NetIsValid (
            connect_back evp process_input side
              (λ a. os.connect a w.net)
              os.new_buffer
              message
              addr
              w)
    unfolding connect_back
    connect_back-Afterwards message addr w v = elim (Option-cases (extract_port message)) [
      | inl e ↦ rw (e, connect_back) tt
      | inr ((port, restored), e) ↦
          let addr' : SockAddr = record addr { port = port } in
          let r = os.connect addr' w.net in
          let made =
            create_tcp_talker-Afterwards r addr' os.new_buffer w.net v
              (laws.connect_fresh addr' w.net) laws.buffer_size in
          elim (Option-cases (create_tcp_talker r addr' os.new_buffer w.net)) [
            | inl f ↦ rw (e, connect_back) (rw (f, connect_back) tt)
            | inr ((t, established), f) ↦
                rw (e, connect_back)
                  (rw (f, connect_back)
                    (process_negotiation-ClientsAreValid restored addr' (record w { net = t })
                      established (Afterwards-some (λ p. ClientsAreValid p.0) _ made f)))
          ]
    ]

    udp_switch-Afterwards :
        (c : UdpCase) (message : Bytes) (addr : SockAddr) (w : Session S)
        → NetIsValid w
        → Afterwards NetIsValid (
            udp_switch evp process_input side
              (λ a. os.connect a w.net)
              os.new_buffer
              message
              addr
              w
              c)
    udp_switch-Afterwards ignored message addr w v = v
    udp_switch-Afterwards peer_message message addr w v =
        give-ClientsAreValid process_input message addr false w v
    udp_switch-Afterwards connects message addr w v = connect_back-Afterwards message addr w v
    udp_switch-Afterwards unknown_message message addr w v = v

    process_udp_input-Afterwards :
        (bytes : Bytes) (addr : SockAddr) (w : Session S)
        → NetIsValid w
        → Afterwards NetIsValid (
            process_udp_input evp process_input side
              (λ a. os.connect a w.net)
              os.new_buffer
              bytes
              addr
              w)
    unfolding process_udp_input
    process_udp_input-Afterwards bytes addr w v = decrypted (decrypt_message evp bytes) refl
      where
        decrypted :
            (r : CipherResult)
            → decrypt_message evp bytes ≡ r
            → Afterwards NetIsValid (
                process_udp_input evp process_input side
                  (λ a. os.connect a w.net)
                  os.new_buffer
                  bytes
                  addr
                  w)
        decrypted refused e = rw (e, process_udp_input) v
        decrypted overrun e = rw (e, process_udp_input) tt
        decrypted (done message) e = elim (Option-cases (negotiation_type message)) [
          | inl n ↦ rw (e, process_udp_input) (rw (n, process_udp_input) tt)
          | inr (t, n) ↦
              rw (e, process_udp_input)
                (rw (n, process_udp_input)
                  (udp_switch-Afterwards (udp_case side t) message addr w v))
        ]

    received-Afterwards :
        (o : Option (Bytes × SockAddr)) (w : Session S)
        → NetIsValid w
        → Afterwards NetIsValid (received evp process_input side os o w)
    received-Afterwards none w v = v
    received-Afterwards (some (bytes, addr)) w v = process_udp_input-Afterwards bytes addr w v

    on_datagram-Afterwards :
        (w : Session S)
        → NetIsValid w
        → Afterwards NetIsValid (on_datagram evp process_input side os w)
    unfolding on_datagram
    on_datagram-Afterwards w v =
        if_elim (Afterwards NetIsValid) (is_ready w.net.udp_socket os.ready) _ _
          (λ _. received-Afterwards os.recvfrom w v) (λ _. v)

    accepted-Afterwards :
        (domain : FdDomain) (o : Option (ℕ × SockAddr)) (w : Session S)
        → NetIsValid w
        → AcceptsFresh w.net o
        → Afterwards NetIsValid
            (with_net evp process_input side os w (add_accepted domain os.new_buffer o w.net))
    accepted-Afterwards domain none w v f = v
    accepted-Afterwards domain (some (fd, addr)) w v f =
        let (t, e, valid, _, _) =
          add_fd_to_client_list-ClientsAreValid fd domain addr 0 os.new_buffer w.net v f
            laws.buffer_size in
        rw e valid

    on_tcp_connection-Afterwards :
        (w : Session S)
        → NetIsValid w
        → Afterwards NetIsValid (on_tcp_connection evp process_input side os w)
    unfolding on_tcp_connection
    on_tcp_connection-Afterwards w v =
        if_elim (Afterwards NetIsValid) (is_ready w.net.tcp_socket os.ready) _ _
          (λ _. accepted-Afterwards network (os.accept_tcp w.net) w v (laws.tcp_fresh w.net))
          (λ _. v)

    on_ipc_connection-Afterwards :
        (w : Session S)
        → NetIsValid w
        → Afterwards NetIsValid (on_ipc_connection evp process_input side os w)
    unfolding on_ipc_connection
    on_ipc_connection-Afterwards w v =
        if_elim (Afterwards NetIsValid)
          (w.net.ipc_comm_enabled && is_ready w.net.domain_socket os.ready) _ _
          (λ _. accepted-Afterwards local_ipc (os.accept_ipc w.net) w v (laws.ipc_fresh w.net))
          (λ _. v)

    on_clients-Afterwards :
        (w : Session S)
        → NetIsValid w
        → Afterwards NetIsValid (on_clients evp process_input side os w)
    unfolding on_clients
    on_clients-Afterwards w v =
        let (t, e, valid, _) =
          client_loop-survivors process_input side os.ready os.read
            (suc (length w.net.client_fd_list)) w v (omega arith) in
        rw e valid

    and_then-Afterwards :
        (o : Option (Session S)) (f : Session S → Option (Session S))
        → Afterwards NetIsValid o
        → ((w : Session S) → NetIsValid w → Afterwards NetIsValid (f w))
        → Afterwards NetIsValid (and_then evp process_input side os o f)
    and_then-Afterwards none f h k = tt
    and_then-Afterwards (some w) f h k = k w h

    on_network-Afterwards :
        (w : Session S)
        → NetIsValid w
        → Afterwards NetIsValid (on_network evp process_input side os w)
    unfolding on_network
    on_network-Afterwards w v =
        if_elim (Afterwards NetIsValid) w.net.net_comm_enabled _ _
          (λ _.
            and_then-Afterwards _ (on_tcp_connection evp process_input side os)
              (on_datagram-Afterwards w v) on_tcp_connection-Afterwards)
          (λ _. v)

    pub process_incoming_data-Afterwards :
        (w : Session S)
        → NetIsValid w
        → Afterwards NetIsValid (process_incoming_data evp process_input side os w)
    unfolding process_incoming_data
    process_incoming_data-Afterwards w v =
        and_then-Afterwards _ (on_clients evp process_input side os)
          (and_then-Afterwards _ (on_ipc_connection evp process_input side os)
            (on_network-Afterwards w v) on_ipc_connection-Afterwards)
          on_clients-Afterwards
