-- ===== src/NetComm/Listeners.antt =====
-- Switching the network on: the UDP socket, the search for a free TCP port, and `enableNetComm`;
-- the local socket of `enableIPCComm`. On Linux, without multicast.
use pyconnect.Base.{
  Bool, Bytes, Option, false, if◌then◌else◌, ltb, none, not, some, suc, true, zero, ℕ, ◌%◌, ◌&&◌,
  ◌*◌, ◌+◌, ◌/◌, ◌^◌,
}
use pyconnect.Common.Types.{codes}
use pyconnect.NetComm.Clients.{NetComm, fd_set, max, set_fd, tell_owner}
use pyconnect.NetComm.Sending.{close_fd}

-- `PYCONNECT_NETCOMM_PORT`, `PYCONNECT_COMMPORT_RANGE` and `PYCONNECT_BROADCAST_IP`.
abbrev pub netcomm_port : ℕ
netcomm_port = 37251

abbrev pub commport_range : ℕ
commport_range = 100

abbrev pub default_broadcast_ip : Bytes
default_broadcast_ip = codes "255.255.255.255"

-- `htons` on a little-endian machine; its argument is a `uint16_t`.
unfoldable pub htons : ℕ → ℕ
htons n = (n % 256) * 256 + n / 256 % 256

-- What the system calls that set up a listening socket give: the descriptor, whether each option is
-- set, whether a port (in network order) can be bound, and whether `listen` works.
pub record ListenerCalls : Type 0 where
  pub socket : Option ℕ
  pub broadcast_option : Bool
  pub reuse_option : Bool
  pub bind : ℕ → Bool
  pub listen : Bool

-- A socket of the program's own is watched from now on.
abbrev pub watch : ℕ → NetComm → NetComm
watch fd s = record s {
  max_fd = max s.max_fd fd;
  master_fd_set = fd_set fd s.master_fd_set;
  fd_owner = tell_owner (set_fd fd) s.fd_owner;
}

abbrev pub give_up_udp : ℕ → NetComm → NetComm × Bool
give_up_udp fd s = (record (close_fd fd s) { invalid_udp_sock = true }, false)

abbrev pub udp_from : ListenerCalls → Option ℕ → NetComm → NetComm × Bool
udp_from calls none s = (record s { udp_socket = none; invalid_udp_sock = true }, false)
udp_from calls (some fd) s =
    let opened : NetComm = record s { udp_socket = some fd } in
    if not calls.broadcast_option
    then give_up_udp fd opened
    else if not calls.reuse_option
    then give_up_udp fd opened
    else if not (calls.bind (htons netcomm_port))
    then give_up_udp fd opened
    else (watch fd opened, true)

-- `initUDPListener`.
unfoldable pub init_udp_listener : ListenerCalls → NetComm → NetComm × Bool
init_udp_listener calls s = udp_from calls calls.socket s

-- `while (bindRet < 0 && triedPorts < PYCONNECT_COMMPORT_RANGE)`, with fuel; the result is the last
-- `sin_port` and whether it was bound.
unfoldable pub bind_loop : ℕ → (ℕ → Bool) → ℕ → ℕ → ℕ → Bool → Option (ℕ × Bool)
bind_loop zero bind port tried sin_port bound = none
bind_loop (suc fuel) bind port tried sin_port bound =
    let next_port = htons ((port + (tried + 1)) % 2 ^ 16) in
    let further = bind_loop fuel bind port (tried + 1) next_port (bind next_port) in
    if not bound && ltb tried commport_range then further else some (sin_port, bound)

-- The first `bind` and the loop.
unfoldable pub search_port : ℕ → (ℕ → Bool) → ℕ → Option (ℕ × Bool)
search_port fuel bind port =
    let sin_port = htons port in bind_loop fuel bind port 0 sin_port (bind sin_port)

abbrev pub tcp_bound : ListenerCalls → ℕ → NetComm → ℕ × Bool → NetComm × Bool
tcp_bound calls fd s (sin_port, false) = (close_fd fd s, false)
tcp_bound calls fd s (sin_port, true) =
    let s' : NetComm = record s { port_in_use = sin_port } in
    if not calls.listen then (close_fd fd s', false) else (watch fd s', true)

abbrev pub tcp_from : ℕ → ListenerCalls → Option ℕ → NetComm → Option (NetComm × Bool)
tcp_from fuel calls none s = some (record s { tcp_socket = none }, false)
tcp_from fuel calls (some fd) s =
    let opened : NetComm = record s { tcp_socket = some fd } in
    let searched : Option (NetComm × Bool) = elim (search_port fuel calls.bind s.port_in_use) [
      | none ↦ none
      | some r ↦ some (tcp_bound calls fd opened r)
    ] in
    if not calls.reuse_option then some (close_fd fd opened, false) else searched

-- `initTCPListener`, with fuel for the search; `portInUse_` is in network order afterwards.
unfoldable pub init_tcp_listener : ℕ → ListenerCalls → NetComm → Option (NetComm × Bool)
init_tcp_listener fuel calls s = tcp_from fuel calls calls.socket s

-- `enableNetComm`. Both listeners are set up, whatever becomes of the first one.
unfoldable pub enable_net_comm : ℕ → ListenerCalls → ListenerCalls → NetComm → Option NetComm
enable_net_comm fuel udp_calls tcp_calls s =
    let (t, udp) = init_udp_listener udp_calls (record s { broadcast_ip = default_broadcast_ip }) in
    let set_up : Option NetComm = elim (init_tcp_listener fuel tcp_calls t) [
      | none ↦ none
      | some (u, tcp) ↦ some (record u { net_comm_enabled = udp && tcp })
    ] in
    if s.net_comm_enabled then some s else set_up

abbrev pub ipc_from : ListenerCalls → Option ℕ → NetComm → NetComm
ipc_from calls none s = record s { domain_socket = none }
ipc_from calls (some fd) s =
    let opened : NetComm = record s { domain_socket = some fd } in
    if not (calls.bind 0)
    then close_fd fd opened
    else if not calls.listen
    then close_fd fd opened
    else record (watch fd opened) { ipc_comm_enabled = true }

-- `enableIPCComm`; `bind` stands for the binding to the path, which has no port. The search for live
-- servers, which is in LocalServers, and the unlinking of the path are left out.
unfoldable pub enable_ipc_comm : ListenerCalls → NetComm → NetComm
enable_ipc_comm calls s = if s.ipc_comm_enabled then s else ipc_from calls calls.socket s
