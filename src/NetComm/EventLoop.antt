-- ===== src/NetComm/EventLoop.antt =====
-- `processIncomingData` as a whole: a datagram, new connections, and the connections that there are;
-- and the events that change the connections, as steps.
use pyconnect.Base.{
  Bool, Bytes, List, Option, false, if◌then◌else◌, length, none, some, suc, ℕ, ◌&&◌, ◌≡◌,
}
use pyconnect.Common.Types.{SockAddr, msg_buffer_size}
use pyconnect.Common.Cipher.{Evp}
use pyconnect.ObjComm.Channels.{Side}
use pyconnect.NetComm.Clients.{
  FdDomain, NetComm, add_fd_to_client_list, fd_isset, local_ipc, network,
}
use pyconnect.NetComm.ClientLaws.{Unused}
use pyconnect.NetComm.Incoming.{ProcessInput, Reading, Session, client_loop}
use pyconnect.NetComm.Sending.{ConnectResult, connected, no_socket, unreachable}
use pyconnect.NetComm.Datagram.{process_udp_input}

-- What the operating system gives to one round of the event loop: the set that `select` left, and the
-- results of `recvfrom`, `accept`, `socket` with `connect`, `read` and `new`. A new descriptor may
-- depend on those that are open.
pub record System : Type 0 where
  pub ready : List ℕ
  pub recvfrom : Option (Bytes × SockAddr)
  pub accept_tcp : NetComm → Option (ℕ × SockAddr)
  pub accept_ipc : NetComm → Option (ℕ × SockAddr)
  pub connect : SockAddr → NetComm → ConnectResult
  pub connect_ipc : ℕ → NetComm → ConnectResult
  pub read : ℕ → Reading
  pub new_buffer : Bytes

abbrev pub IsFresh : NetComm → ConnectResult → Type 0
IsFresh s no_socket = Unit
IsFresh s (unreachable fd) = Unit
IsFresh s (connected fd) = Unused fd s.client_fd_list

abbrev pub AcceptsFresh : NetComm → Option (ℕ × SockAddr) → Type 0
AcceptsFresh s none = Unit
AcceptsFresh s (some (fd, addr)) = Unused fd s.client_fd_list

-- A new descriptor is not that of an open connection, and a new buffer has the size that was asked
-- for.
pub record SystemLaws (os : System) : Type 0 where
  pub tcp_fresh : (s : NetComm) → AcceptsFresh s (os.accept_tcp s)
  pub ipc_fresh : (s : NetComm) → AcceptsFresh s (os.accept_ipc s)
  pub connect_fresh : (addr : SockAddr) (s : NetComm) → IsFresh s (os.connect addr s)
  pub connect_ipc_fresh : (proc_id : ℕ) (s : NetComm) → IsFresh s (os.connect_ipc proc_id s)
  pub buffer_size : length os.new_buffer ≡ msg_buffer_size

-- `FD_ISSET` on a socket of the program's own.
abbrev pub is_ready : Option ℕ → List ℕ → Bool
is_ready none fds = false
is_ready (some fd) fds = fd_isset fd fds

-- A connection that `accept` gave goes into the list; a failed `accept` is logged.
abbrev pub add_accepted : FdDomain → Bytes → Option (ℕ × SockAddr) → NetComm → Option NetComm
add_accepted domain buffer none s = some s
add_accepted domain buffer (some (fd, addr)) s =
    add_fd_to_client_list (some fd) domain addr 0 buffer s

module _ {S : Type 0} (evp : Evp) (process_input : ProcessInput S) (side : Side) (os : System) where
  abbrev pub with_net : Session S → Option NetComm → Option (Session S)
  with_net w none = none
  with_net w (some s) = some (record w { net = s })

  abbrev pub received : Option (Bytes × SockAddr) → Session S → Option (Session S)
  received none w = some w
  received (some (bytes, addr)) w =
      process_udp_input evp process_input side (λ a. os.connect a w.net) os.new_buffer bytes addr w

  unfoldable pub on_datagram : Session S → Option (Session S)
  on_datagram w =
      let taken = received os.recvfrom w in
      if is_ready w.net.udp_socket os.ready then taken else some w

  unfoldable pub on_tcp_connection : Session S → Option (Session S)
  on_tcp_connection w =
      let taken = with_net w (add_accepted network os.new_buffer (os.accept_tcp w.net) w.net) in
      if is_ready w.net.tcp_socket os.ready then taken else some w

  unfoldable pub on_ipc_connection : Session S → Option (Session S)
  on_ipc_connection w =
      let taken = with_net w (add_accepted local_ipc os.new_buffer (os.accept_ipc w.net) w.net) in
      if w.net.ipc_comm_enabled && is_ready w.net.domain_socket os.ready then taken else some w

  -- The loop over the connections, with a step more than there are connections.
  unfoldable pub on_clients : Session S → Option (Session S)
  on_clients w =
      client_loop process_input side os.ready os.read (suc (length w.net.client_fd_list)) 0 w

  abbrev pub and_then : Option (Session S) → (Session S → Option (Session S)) → Option (Session S)
  and_then none f = none
  and_then (some w) f = f w

  unfoldable pub on_network : Session S → Option (Session S)
  on_network w =
      let both = and_then (on_datagram w) on_tcp_connection in
      if w.net.net_comm_enabled then both else some w

  -- `processIncomingData`.
  unfoldable pub process_incoming_data : Session S → Option (Session S)
  process_incoming_data w = and_then (and_then (on_network w) on_ipc_connection) on_clients
