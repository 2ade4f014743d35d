-- ===== src/NetComm/Clients.antt =====
-- The client connections of `PyConnectNetComm`: `ClientFD`, the fields of the class that the
-- connections share, `addFdToClientList`, the two forms of `destroyCurrentClient` and
-- `findFdFromClientListByProcID`. Here the linked list is a list; Pointers has its nodes.
use mathlib.Core.Option
use pyconnect.Base.{
  Bool, Bytes, List, Option, [], false, get_elem?, if◌then◌else◌, ltb, none, some, suc, true, zero,
  ℕ, ◌&&◌, ◌++◌, ◌==◌, ◌||◌, ◌∷◌,
}
use pyconnect.ObjComm.Channels.{ObjectComm, set_last_used}
use pyconnect.NetComm.Stream.{DataInfo}
use pyconnect.Common.Types.{SockAddr, codes}

pub data FdDomain : Type 0 where
  unknown network local_ipc : FdDomain

abbrev pub is_network : FdDomain → Bool
is_network unknown = false
is_network network = true
is_network local_ipc = false

abbrev pub is_local_ipc : FdDomain → Bool
is_local_ipc unknown = false
is_local_ipc network = false
is_local_ipc local_ipc = true

pub record ClientFd : Type 0 where
  pub fd : ℕ
  pub domain : FdDomain
  pub client_addr : SockAddr
  pub local_proc_id : ℕ
  pub data_info : DataInfo

-- `FDSetOwner`: an object of another part of the program, which is told of the descriptors.
pub data OwnerCall : Type 0 where
  set_fd clear_fd : ℕ → OwnerCall

-- The fields of `PyConnectNetComm`. `fd_owner` is what was said to the owner, if there is one, the
-- latest first; `closed` holds the descriptors that were given to `close`.
pub record NetComm : Type 0 where
  pub object_comm : ObjectComm
  pub client_fd_list : List ClientFd
  pub master_fd_set : List ℕ
  pub max_fd : ℕ
  pub fd_owner : Option (List OwnerCall)
  pub closed : List ℕ
  pub udp_socket : Option ℕ
  pub tcp_socket : Option ℕ
  pub domain_socket : Option ℕ
  pub net_comm_enabled : Bool
  pub ipc_comm_enabled : Bool
  pub invalid_udp_sock : Bool
  pub port_in_use : ℕ
  pub broadcast_ip : Bytes

-- `FD_ISSET`, `FD_SET` and `FD_CLR`.
unfoldable pub fd_isset : ℕ → List ℕ → Bool
fd_isset fd [] = false
fd_isset fd (x ∷ fds) = x == fd || fd_isset fd fds

-- The set is a list; `FD_SETSIZE`, above which `FD_SET` writes past the set, is left out.
abbrev pub fd_set : ℕ → List ℕ → List ℕ
fd_set fd fds = fd ∷ fds

unfoldable pub fd_clr : ℕ → List ℕ → List ℕ
fd_clr fd [] = []
fd_clr fd (x ∷ fds) = let rest = fd_clr fd fds in if x == fd then rest else x ∷ rest

-- `if (pFDOwner_) pFDOwner_->setFD(fd)`, and the same for `clearFD`.
abbrev pub tell_owner : OwnerCall → Option (List OwnerCall) → Option (List OwnerCall)
tell_owner call none = none
tell_owner call (some calls) = some (call ∷ calls)

-- `max(a, b)`.
abbrev pub max : ℕ → ℕ → ℕ
max a b = if ltb a b then b else a

-- `sockaddr_in` with all bytes zero.
abbrev pub zero_addr : SockAddr
zero_addr = record { is_inet = false; port = 0; ip = codes "0.0.0.0" }

-- A new `ClientFD`; its buffer is allocated and nothing is cached in it.
abbrev pub new_client : ℕ → FdDomain → SockAddr → ℕ → Bytes → ClientFd
new_client fd domain client_addr proc_id buffer = record {
  fd = fd;
  domain = domain;
  client_addr = client_addr;
  local_proc_id = proc_id;
  data_info = record { buffered_data = buffer; expected_data_length = 0; buffered_data_length = 0 };
}

-- `addFdToClientList`; `buffer` is what `new unsigned char[PYCONNECT_MSG_BUFFER_SIZE]` gives. `none`
-- is an abort, and what `FD_SET` does with `INVALID_SOCKET`.
unfoldable pub add_fd_to_client_list :
    Option ℕ → FdDomain → SockAddr → ℕ → Bytes → NetComm → Option NetComm
add_fd_to_client_list none domain client_addr proc_id buffer s = none
add_fd_to_client_list (some fd) domain client_addr proc_id buffer s =
    elim (set_last_used (some fd) s.object_comm) [
      | none ↦ none
      | some c ↦ some (record s {
        object_comm = c;
        client_fd_list = s.client_fd_list ++ (new_client fd domain client_addr proc_id buffer ∷ []);
        master_fd_set = fd_set fd s.master_fd_set;
        max_fd = max fd s.max_fd;
        fd_owner = tell_owner (set_fd fd) s.fd_owner;
      })
    ]

-- The tail of both forms of `destroyCurrentClient`: the descriptor leaves the sets and is closed. The
-- two forms do these steps in different orders, which the state afterwards does not show.
abbrev pub release_fd : ℕ → NetComm → NetComm
release_fd fd s = record s {
  master_fd_set = fd_clr fd s.master_fd_set;
  fd_owner = tell_owner (clear_fd fd) s.fd_owner;
  closed = fd ∷ s.closed;
}

-- The list without the node at a position.
unfoldable pub remove_at : List ClientFd → ℕ → List ClientFd
remove_at [] position = []
remove_at (c ∷ clients) zero = clients
remove_at (c ∷ clients) (suc position) = c ∷ remove_at clients position

-- `destroyCurrentClient(FDPtr, prevFDPtr)` for the node at a position.
unfoldable pub destroy_current_client : ℕ → NetComm → NetComm
destroy_current_client position s = elim (get_elem? s.client_fd_list position) [
  | none ↦ s
  | some c ↦ release_fd c.fd (record s { client_fd_list = remove_at s.client_fd_list position })
]

-- The position at which the search for a descriptor stops.
unfoldable pub client_position : ℕ → List ClientFd → Option ℕ
client_position fd [] = none
client_position fd (c ∷ clients) =
    let rest = Option.map suc (client_position fd clients) in if c.fd == fd then some 0 else rest

-- `destroyCurrentClient(fd)`.
unfoldable pub destroy_client_by_fd : Option ℕ → NetComm → NetComm
destroy_client_by_fd none s = s
destroy_client_by_fd (some fd) s = elim (client_position fd s.client_fd_list) [
  | none ↦ s
  | some position ↦
      release_fd fd (record s { client_fd_list = remove_at s.client_fd_list position })
]

-- The loop of `findFdFromClientListByProcID`.
unfoldable pub ipc_client : ℕ → List ClientFd → Option ℕ
ipc_client proc_id [] = none
ipc_client proc_id (c ∷ clients) =
    let rest = ipc_client proc_id clients in
    if is_local_ipc c.domain && c.local_proc_id == proc_id then some c.fd else rest

-- `findFdFromClientListByProcID`: a client that is found becomes the last used channel.
unfoldable pub find_fd_by_proc_id : ℕ → NetComm → NetComm × Option ℕ
find_fd_by_proc_id proc_id s = elim (ipc_client proc_id s.client_fd_list) [
  | none ↦ (s, none)
  | some fd ↦
      (record s { object_comm = record s.object_comm { active_channel = some fd } }, some fd)
]
