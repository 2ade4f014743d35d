-- ===== src/NetComm/Enabling.antt =====
-- What `enableNetComm` owes to the network when it reports success: `initUDPListener` and
-- `initTCPListener` together.
use pyconnect.Base.{
  Bool, Bool-cases, Option, ap, arith, false, if◌then◌else◌, inl, inr, none, refl, some, subst, sym,
  true, ℕ, ◌&&◌, ◌<◌, ◌^◌, ◌∙◌, ◌≡◌, ◌≤◌,
}
use pyconnect.NetComm.Clients.{NetComm, fd_isset}
use pyconnect.NetComm.Sending.{close_fd}
use pyconnect.NetComm.Listeners.{
  ListenerCalls, default_broadcast_ip, enable_net_comm, init_tcp_listener, init_udp_listener,
  tcp_bound, tcp_from, udp_from, watch,
}
use pyconnect.NetComm.PortSearch.{Searched, search_port-Searched}

-- Both sockets are open, kept and watched, and the TCP port is the first free one.
pub record IsListening (udp_calls tcp_calls : ListenerCalls) (s t : NetComm) : Type 0 where
  pub udp_fd : ℕ
  pub tcp_fd : ℕ
  pub udp_opened : udp_calls.socket ≡ some udp_fd
  pub tcp_opened : tcp_calls.socket ≡ some tcp_fd
  pub udp_kept : t.udp_socket ≡ some udp_fd
  pub tcp_kept : t.tcp_socket ≡ some tcp_fd
  pub udp_watched : fd_isset udp_fd t.master_fd_set ≡ true
  pub tcp_watched : fd_isset tcp_fd t.master_fd_set ≡ true
  pub udp_below : udp_fd ≤ t.max_fd
  pub tcp_below : tcp_fd ≤ t.max_fd
  pub port_found : Searched tcp_calls.bind s.port_in_use 0 (t.port_in_use, true)
  pub clients_stay : t.client_fd_list ≡ s.client_fd_list
  pub none_closed : t.closed ≡ s.closed

abbrev udp_ready : ℕ → NetComm → NetComm
udp_ready fd s = watch fd (record s { udp_socket = some fd })

udp_from-up :
    (calls : ListenerCalls) (socket : Option ℕ) (s : NetComm)
    → (udp_from calls socket s).1 ≡ true
    → (fd : ℕ) × (socket ≡ some fd) × ((udp_from calls socket s).0 ≡ udp_ready fd s)
udp_from-up calls none s h = absurd (cc)
udp_from-up calls (some fd) s h = (fd, refl, ground arith)

abbrev tcp_ready : ℕ → ℕ → NetComm → NetComm
tcp_ready fd sin_port s = watch fd (record s { tcp_socket = some fd; port_in_use = sin_port })

tcp_bound-up :
    (calls : ListenerCalls) (fd sin_port : ℕ) (bound : Bool) (s : NetComm)
    → (tcp_bound calls fd (record s { tcp_socket = some fd }) (sin_port, bound)).1 ≡ true
    → (bound ≡ true)
      × ((tcp_bound calls fd (record s { tcp_socket = some fd }) (sin_port, bound)).0
          ≡ tcp_ready fd sin_port s)
tcp_bound-up calls fd sin_port false s h = absurd (cc)
tcp_bound-up calls fd sin_port true s h = (refl, ground arith)

tcp_from-up :
    (fuel : ℕ) (calls : ListenerCalls) (socket : Option ℕ) (s : NetComm)
    → s.port_in_use < 2 ^ 16
    → 100 < fuel
    → (r : NetComm × Bool) × (tcp_from fuel calls socket s ≡ some r)
      × (r.1 ≡ true
          → (fd : ℕ) × (sin_port : ℕ) × (socket ≡ some fd)
            × (r.0 ≡ tcp_ready fd sin_port s)
            × Searched calls.bind s.port_in_use 0 (sin_port, true))
tcp_from-up fuel calls none s h f =
    ((record s { tcp_socket = none }, false), refl, λ u. absurd (cc))
tcp_from-up fuel calls (some fd) s h f =
    let ((sin_port, bound), e, found) = search_port-Searched fuel calls.bind s.port_in_use h f in
    elim (Bool-cases calls.reuse_option) [
      | inr refused ↦ (
        (close_fd fd (record s { tcp_socket = some fd }), false),
        rw refused refl,
        λ u. absurd (cc),
      )
      | inl reuse ↦ (
        tcp_bound calls fd (record s { tcp_socket = some fd }) (sin_port, bound),
        rw reuse (rw e refl),
        λ up.
            let (is_bound, ready) = tcp_bound-up calls fd sin_port bound s up in
            (
              fd,
              sin_port,
              refl,
              ready,
              subst (λ b. Searched calls.bind s.port_in_use 0 (sin_port, b)) is_bound found,
            ),
      )
    ]

udp_from-port :
    (calls : ListenerCalls) (socket : Option ℕ) (s : NetComm)
    → (udp_from calls socket s).0.port_in_use ≡ s.port_in_use
udp_from-port calls none s = refl
udp_from-port calls (some fd) s = ground arith

-- Both watched, one after the other.
both_ready :
    (udp_calls tcp_calls : ListenerCalls) (udp_fd tcp_fd sin_port : ℕ) (s : NetComm)
    → udp_calls.socket ≡ some udp_fd
    → tcp_calls.socket ≡ some tcp_fd
    → Searched tcp_calls.bind s.port_in_use 0 (sin_port, true)
    → IsListening udp_calls tcp_calls s
        (record (tcp_ready tcp_fd sin_port
          (udp_ready udp_fd (record s { broadcast_ip = default_broadcast_ip }))) {
            net_comm_enabled = true;
          })
unfolding fd_isset
both_ready udp_calls tcp_calls udp_fd tcp_fd sin_port s u t found = record {
  udp_fd = udp_fd;
  tcp_fd = tcp_fd;
  udp_opened = u;
  tcp_opened = t;
  udp_kept = refl;
  tcp_kept = refl;
  udp_watched = ground arith;
  tcp_watched = ground arith;
  udp_below = ground arith;
  tcp_below = ground arith;
  port_found = found;
  clients_stay = refl;
  none_closed = refl;
}

-- Two listeners that are ready when they say so.
IsListening-from :
    (udp_calls tcp_calls : ListenerCalls) (s : NetComm) (udp tcp : NetComm × Bool)
    → (udp.1 ≡ true
        → (fd : ℕ) × (udp_calls.socket ≡ some fd)
          × (udp.0 ≡ udp_ready fd (record s { broadcast_ip = default_broadcast_ip })))
    → (tcp.1 ≡ true
        → (fd : ℕ) × (sin_port : ℕ) × (tcp_calls.socket ≡ some fd)
          × (tcp.0 ≡ tcp_ready fd sin_port udp.0)
          × Searched tcp_calls.bind udp.0.port_in_use 0 (sin_port, true))
    → udp.0.port_in_use ≡ s.port_in_use
    → (udp.1 && tcp.1) ≡ true
    → IsListening udp_calls tcp_calls s (record tcp.0 { net_comm_enabled = udp.1 && tcp.1 })
IsListening-from udp_calls tcp_calls s (t, a) (u, b) udp_up tcp_up port enabled =
    let (udp_fd, o, ready) = udp_up (ground (arith, enabled)) in
    let (tcp_fd, sin_port, o', ready', found) = tcp_up (ground (arith, enabled)) in
    let both : u
        ≡ tcp_ready tcp_fd sin_port
            (udp_ready udp_fd (record s { broadcast_ip = default_broadcast_ip })) =
      ready' ∙ ap (tcp_ready tcp_fd sin_port) ready in
    let on : NetComm → Bool → NetComm = λ v e. record v { net_comm_enabled = e } in
    subst (IsListening udp_calls tcp_calls s)
      (ap (λ v. on v true) (sym both) ∙ ap (on u) (sym enabled))
      (both_ready udp_calls tcp_calls udp_fd tcp_fd sin_port s o o'
        (subst (λ p. Searched tcp_calls.bind p 0 (sin_port, true)) port found))

-- The end of `enableNetComm`.
abbrev finish_up : Option (NetComm × Bool) → Bool → Option NetComm
finish_up r udp = elim r [
  | none ↦ none
  | some (u, tcp) ↦ some (record u { net_comm_enabled = udp && tcp })
]

-- `enableNetComm` on a disabled network comes to an end, and when the network is enabled
-- afterwards, the UDP and the TCP socket are open, kept and watched, within the bound of `select`, the
-- port in use, in network order, is the first of the 101 ports that can be bound, and the connections
-- and the closed descriptors are as before.
pub enable_net_comm-IsListening :
    (fuel : ℕ) (udp_calls tcp_calls : ListenerCalls) (s : NetComm)
    → s.net_comm_enabled ≡ false
    → s.port_in_use < 2 ^ 16
    → 100 < fuel
    → (t : NetComm) × (enable_net_comm fuel udp_calls tcp_calls s ≡ some t)
      × (t.net_comm_enabled ≡ true → IsListening udp_calls tcp_calls s t)
unfolding enable_net_comm init_udp_listener init_tcp_listener
enable_net_comm-IsListening fuel udp_calls tcp_calls s off h f =
    let start : NetComm = record s { broadcast_ip = default_broadcast_ip } in
    let udp = init_udp_listener udp_calls start in
    let port : udp.0.port_in_use ≡ s.port_in_use = udp_from-port udp_calls udp_calls.socket start in
    let (r, e, up) = tcp_from-up fuel tcp_calls tcp_calls.socket udp.0 (omega (arith, port)) f in
    (
      record r.0 { net_comm_enabled = udp.1 && r.1 },
      ap
            (λ on.
              if on
              then some s
              else finish_up (tcp_from fuel tcp_calls tcp_calls.socket udp.0) udp.1)
            off
          ∙ ap (λ r. finish_up r udp.1) e,
      IsListening-from udp_calls tcp_calls s udp r (udp_from-up udp_calls udp_calls.socket start) up
          port,
    )
