-- ===== src/NetComm/Startup.antt =====
-- What `init` does, the main loop, and the identifier that a server takes from its address.
use pyconnect.Base.{
  Bool, Bool-cases, IsByte, List, Option, [], arith, false, if◌then◌else◌, inl, inr, none, not,
  some, ℕ, ◌%◌, ◌&&◌, ◌*◌, ◌+◌, ◌/◌, ◌^◌, ◌∷◌, ◌≡◌,
}
use pyconnect.Common.Cipher.{Evp}
use pyconnect.ObjComm.Channels.{Side, cpp_module, python_server}
use pyconnect.NetComm.Clients.{NetComm, OwnerCall}
use pyconnect.NetComm.Incoming.{ProcessInput, Session}
use pyconnect.NetComm.Listeners.{ListenerCalls, enable_ipc_comm, enable_net_comm, netcomm_port}
use pyconnect.NetComm.EventLoop.{System, process_incoming_data}

-- The fields after the constructor.
abbrev pub new_net_comm : Option (List OwnerCall) → NetComm
new_net_comm fd_owner = record {
  object_comm = record { obj_comm_map = []; active_channel = none };
  client_fd_list = [];
  master_fd_set = [];
  max_fd = 0;
  fd_owner = fd_owner;
  closed = [];
  udp_socket = none;
  tcp_socket = none;
  domain_socket = none;
  net_comm_enabled = false;
  ipc_comm_enabled = false;
  invalid_udp_sock = false;
  port_in_use = netcomm_port;
  broadcast_ip = [];
}

-- `init`: the watched set is emptied, and a server enables the network and the local socket.
unfoldable pub init :
    Side
    → ListenerCalls
    → ListenerCalls
    → ListenerCalls
    → Option (List OwnerCall)
    → NetComm
    → Option NetComm
init cpp_module udp tcp ipc fd_owner s = some (record s { fd_owner = fd_owner; master_fd_set = [] })
init python_server udp tcp ipc fd_owner s =
    elim (enable_net_comm 101 udp tcp (record s { fd_owner = fd_owner; master_fd_set = [] })) [
      | none ↦ none
      | some t ↦ some (enable_ipc_comm ipc t)
    ]

-- `continuousProcessing`, for the rounds until `keepRunning_` is cleared.
unfoldable pub continuous_processing :
    {S : Type 0} → Evp → ProcessInput S → Side → List System → Session S → Option (Session S)
continuous_processing evp process_input side [] w = some w
continuous_processing evp process_input side (os ∷ rounds) w =
    elim (process_incoming_data evp process_input side os w) [
      | none ↦ none
      | some w' ↦ continuous_processing evp process_input side rounds w'
    ]

-- An interface as `ioctl` gives it: whether it is up and whether it is a loopback, unless its flags
-- cannot be read, and its address, in network order, as the machine reads it.
pub record Interface : Type 0 where
  pub flags : Option (Bool × Bool)
  pub s_addr : ℕ

-- `htonl` on a little-endian machine.
unfoldable pub htonl : ℕ → ℕ
htonl n = n % 256 * 2 ^ 24 + n / 2 ^ 8 % 256 * 2 ^ 16 + n / 2 ^ 16 % 256 * 2 ^ 8 + n / 2 ^ 24 % 256

abbrev pub is_live : Option (Bool × Bool) → Bool
is_live none = false
is_live (some (up, loopback)) = up && not loopback

-- `getIDFromIP` on Linux; the list is what `SIOCGIFCONF` gives, `none` if that fails.
unfoldable pub get_id_from_ip : Option (List Interface) → Option ℕ
get_id_from_ip none = none
get_id_from_ip (some []) = none
get_id_from_ip (some (i ∷ interfaces)) =
    let rest = get_id_from_ip (some interfaces) in
    if is_live i.flags then some (htonl i.s_addr % 256) else rest

-- The identifier of a server is a byte.
pub get_id_from_ip-IsByte :
    (interfaces : List Interface) {id : ℕ} → get_id_from_ip (some interfaces) ≡ some id → IsByte id
unfolding get_id_from_ip
get_id_from_ip-IsByte [] e = absurd (cc)
get_id_from_ip-IsByte (i ∷ interfaces) {id} e = elim (Bool-cases (is_live i.flags)) [
  | inl live ↦ let same : htonl i.s_addr % 256 ≡ id = ground arith in omega (arith, same)
  | inr dead ↦ get_id_from_ip-IsByte interfaces (ground arith)
]
