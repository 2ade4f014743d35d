-- ===== src/NetComm/Talkers.antt =====
-- `PyConnectNetComm::createTalker` and `setBroadcastAddr`: what the user asks for by name.
use pyconnect.Base.{
  Bool, Bytes, Option, arith, false, if◌then◌else◌, ltb, none, not, some, true, ℕ, ◌+◌, ◌==◌, ◌||◌,
  ◌≡◌, ◌≤◌,
}
use pyconnect.Common.Types.{SockAddr}
use pyconnect.ObjComm.Processor.{
  CommObjectStat, comm_failed, comm_success, invalid_addr_port, not_supported,
}
use pyconnect.NetComm.Clients.{NetComm}
use pyconnect.NetComm.Sending.{ConnectResult, create_tcp_talker}
use pyconnect.NetComm.Listeners.{commport_range, htons, netcomm_port}

-- `inet_pton` and `gethostbyname`: a printed address, or nothing.
pub record Resolver : Type 0 where
  pub inet_pton : Bytes → Option Bytes
  pub gethostbyname : Bytes → Option Bytes

-- The port 0 stands for the default one; `none` is a port out of range. Ports are not negative here.
unfoldable pub talker_port : ℕ → Option ℕ
talker_port port =
    if port == 0
    then some netcomm_port
    else if ltb port 1000 || ltb (netcomm_port + commport_range) port
    then none
    else some port

abbrev pub resolve : Resolver → Bytes → Option Bytes
resolve names host = elim (names.gethostbyname host) [
  | none ↦ names.inet_pton host
  | some ip ↦ some ip
]

abbrev pub stat_of : NetComm × Bool → NetComm × CommObjectStat
stat_of (s, true) = (s, comm_success)
stat_of (s, false) = (s, comm_failed)

-- `createTalker`; `none` is an abort in `addFdToClientList`.
unfoldable pub create_talker :
    Resolver
    → (SockAddr → NetComm → ConnectResult)
    → Bytes
    → Bytes
    → ℕ
    → NetComm
    → Option (NetComm × CommObjectStat)
create_talker names connect buffer host port s = elim (resolve names host) [
  | none ↦ some (s, invalid_addr_port)
  | some ip ↦ elim (talker_port port) [
    | none ↦ some (s, invalid_addr_port)
    | some p ↦
        let addr : SockAddr = record { is_inet = true; port = htons p; ip = ip } in
        elim (create_tcp_talker (connect addr s) addr buffer s) [
          | none ↦ none
          | some made ↦ some (stat_of made)
        ]
  ]
]

-- `setBroadcastAddr`, without multicast.
unfoldable pub set_broadcast_addr : Resolver → Bytes → NetComm → NetComm × CommObjectStat
set_broadcast_addr names addr s =
    let parsed : NetComm × CommObjectStat = elim (names.inet_pton addr) [
      | none ↦ (s, invalid_addr_port)
      | some ip ↦ (record s { broadcast_ip = ip }, comm_success)
    ] in
    if not s.net_comm_enabled then (s, not_supported) else parsed

-- The port of a talker, in any outcome, lies in the range that the listeners use or that the user may
-- name.
pub talker_port-bounds :
    (port : ℕ) {p : ℕ}
    → talker_port port ≡ some p
    → (1000 ≤ p) × (p ≤ netcomm_port + commport_range)
unfolding talker_port
talker_port-bounds port e = ground arith
