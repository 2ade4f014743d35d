-- ===== src/NetComm/Closing.antt =====
-- Switching the network off: `disableNetComm`, `disableIPCComm` and `fini`, and what the first two do
-- to the nodes of the list.
use pyconnect.Base.{
  Bool, List, Option, [], false, if◌then◌else◌, map_erase, map_find, none, not, some, suc, true,
  zero, ℕ, ◌∷◌,
}
use pyconnect.ObjComm.Channels.{Side}
use pyconnect.NetComm.Clients.{
  ClientFd, FdDomain, NetComm, clear_fd, fd_clr, is_local_ipc, is_network, tell_owner,
}
use pyconnect.NetComm.Pointers.{Node}
use pyconnect.NetComm.Incoming.{ProcessInput, Session, shut_channel}
use pyconnect.NetComm.Sending.{close_fd}

-- With an owner the descriptor stays in `masterFDSet_`.
abbrev pub forget_fd : ℕ → NetComm → NetComm
forget_fd fd s = record s {
  fd_owner = tell_owner (clear_fd fd) s.fd_owner;
  master_fd_set = elim s.fd_owner [
    | none ↦ fd_clr fd s.master_fd_set
    | some calls ↦ s.master_fd_set
  ];
}

-- `close` on a listening socket, and `clearFD`.
abbrev pub close_listener : Option ℕ → NetComm → NetComm
close_listener none s = s
close_listener (some fd) s = record (close_fd fd s) {
  fd_owner = tell_owner (clear_fd fd) s.fd_owner;
}

module _ {S : Type 0} (process_input : ProcessInput S) (side : Side) where
  -- One connection: its channel is shut, and its descriptor closed and forgotten.
  unfoldable pub close_client : Bool → ℕ → Session S → Session S
  close_client on_exit fd w =
      let w' = shut_channel process_input side fd (not on_exit) w in
      record w' { net = forget_fd fd (close_fd fd w'.net) }

  -- The `while` loop over the connections, for those of one domain.
  unfoldable pub close_domain : (FdDomain → Bool) → Bool → List ClientFd → Session S → Session S
  close_domain in_domain on_exit [] w = w
  close_domain in_domain on_exit (c ∷ clients) w =
      close_domain in_domain on_exit clients
        (if in_domain c.domain then close_client on_exit c.fd w else w)

  -- `disableNetComm`; the nodes that the loop deletes stay in the list, see `delete_domain`.
  unfoldable pub disable_net_comm : Bool → Session S → Session S
  disable_net_comm on_exit w =
      let w' = close_domain is_network on_exit w.net.client_fd_list w in
      let s = close_listener w'.net.tcp_socket (close_listener w'.net.udp_socket w'.net) in
      let off : Session S = record w' { net = record s { net_comm_enabled = false } } in
      if w.net.net_comm_enabled then off else w

  -- `disableIPCComm`, but for `unlink` on the path of the socket.
  unfoldable pub disable_ipc_comm : Bool → Session S → Session S
  disable_ipc_comm on_exit w =
      let w' = close_domain is_local_ipc on_exit w.net.client_fd_list w in
      let s = close_listener w'.net.domain_socket w'.net in
      let off : Session S = record w' { net = record s { ipc_comm_enabled = false } } in
      if w.net.ipc_comm_enabled then off else w

  -- `fini`, but for its buffers and the flag of the main loop.
  unfoldable pub fini : Session S → Session S
  fini w =
      let w' = if w.net.net_comm_enabled then disable_net_comm true w else w in
      if w'.net.ipc_comm_enabled then disable_ipc_comm true w' else w'

-- What the loop does to the nodes: those of the domain are deleted, and nothing is unlinked.
unfoldable pub delete_domain :
    ℕ → (FdDomain → Bool) → List (ℕ × Node) → Option ℕ → Option (List (ℕ × Node))
delete_domain zero in_domain nodes fd_ptr = none
delete_domain (suc fuel) in_domain nodes none = some nodes
delete_domain (suc fuel) in_domain nodes (some fd_ptr) = elim (map_find nodes fd_ptr) [
  | none ↦ none
  | some node ↦
      delete_domain fuel in_domain
        (if in_domain node.client.domain then map_erase nodes fd_ptr else nodes) node.next
]
