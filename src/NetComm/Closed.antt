-- ===== src/NetComm/Closed.antt =====
-- Which descriptors are closed when the network is switched off.
use pyconnect.Base.{
  Bool, Bool-cases, List, Option, [], ap, arith, false, if◌then◌else◌, inl, inr, none, not, refl,
  some, subst, sym, true, ℕ, ◌&&◌, ◌==◌, ◌||◌, ◌∙◌, ◌∷◌, ◌≡◌,
}
use pyconnect.ObjComm.Channels.{Side}
use pyconnect.NetComm.Clients.{
  ClientFd, FdDomain, NetComm, OwnerCall, clear_fd, fd_clr, fd_isset, is_network, tell_owner,
}
use pyconnect.NetComm.ClientLaws.{fd_isset-fd_clr}
use pyconnect.NetComm.Incoming.{ProcessInput, Session, shut_channel}
use pyconnect.NetComm.IncomingLaws.{shut_channel-SameBut}
use pyconnect.NetComm.Closing.{close_client, close_domain, close_listener, disable_net_comm}

-- A descriptor of a connection of the domain.
abbrev pub closes : (FdDomain → Bool) → ℕ → List ClientFd → Bool
closes in_domain fd [] = false
closes in_domain fd (c ∷ clients) =
    (in_domain c.domain && c.fd == fd) || closes in_domain fd clients

-- The descriptor of a socket that is there.
abbrev pub is_fd : ℕ → Option ℕ → Bool
is_fd a none = false
is_fd a (some fd) = fd == a

module _ {S : Type 0} (process_input : ProcessInput S) (side : Side) where
  -- Closing one connection, without an owner.
  close_client_lem :
      (on_exit : Bool) (fd a : ℕ) (w : Session S)
      → w.net.fd_owner ≡ none
      → (let t = close_client process_input side on_exit fd w in
          (t.net.fd_owner ≡ none)
          × (t.net.udp_socket ≡ w.net.udp_socket)
          × (t.net.tcp_socket ≡ w.net.tcp_socket)
          × (fd_isset a t.net.master_fd_set
              ≡ (if a == fd then false else fd_isset a w.net.master_fd_set))
          × (fd_isset a t.net.closed ≡ (fd == a || fd_isset a w.net.closed)))
  unfolding close_client fd_isset
  close_client_lem on_exit fd a w alone =
      let w' = shut_channel process_input side fd (not on_exit) w in
      let same = shut_channel-SameBut process_input side fd (not on_exit) w in
      let owner : w'.net.fd_owner ≡ none = ap (λ n. n.fd_owner) same ∙ alone in
      let fds : w'.net.master_fd_set ≡ w.net.master_fd_set = ap (λ n. n.master_fd_set) same in
      let closed : w'.net.closed ≡ w.net.closed = ap (λ n. n.closed) same in
      (
        ap (tell_owner (clear_fd fd)) owner,
        ap (λ n. n.udp_socket) same,
        ap (λ n. n.tcp_socket) same,
        ap
              (λ (o : Option (List OwnerCall)). fd_isset a (elim o as (λ _. List ℕ) [
                | none ↦ fd_clr fd w'.net.master_fd_set
                | some calls ↦ w'.net.master_fd_set
              ]))
              owner
            ∙ fd_isset-fd_clr a fd w'.net.master_fd_set
            ∙ ap (λ l. if a == fd then false else fd_isset a l) fds,
        ap (λ l. fd == a || fd_isset a l) closed,
      )

  close_domain_lem :
      (in_domain : FdDomain → Bool) (on_exit : Bool) (clients : List ClientFd) (a : ℕ)
      (w : Session S)
      → w.net.fd_owner ≡ none
      → (let t = close_domain process_input side in_domain on_exit clients w in
          (t.net.fd_owner ≡ none)
          × (t.net.udp_socket ≡ w.net.udp_socket)
          × (t.net.tcp_socket ≡ w.net.tcp_socket)
          × (fd_isset a t.net.master_fd_set
              ≡ (if closes in_domain a clients then false else fd_isset a w.net.master_fd_set))
          × (fd_isset a t.net.closed ≡ (closes in_domain a clients || fd_isset a w.net.closed)))
  unfolding close_domain
  close_domain_lem in_domain on_exit [] a w alone = (alone, refl, refl, refl, refl)
  close_domain_lem in_domain on_exit (c ∷ clients) a w alone =
      elim (Bool-cases (in_domain c.domain)) [
        | inl d ↦
            let w' = close_client process_input side on_exit c.fd w in
            let (o, u, v, m, k) = close_client_lem on_exit c.fd a w alone in
            let (p, x, y, n, l) = close_domain_lem in_domain on_exit clients a w' o in
            rw (d, close_domain) (p, x ∙ u, y ∙ v, ground (arith, n, m), ground (arith, l, k))
        | inr d ↦ rw (d, close_domain) (close_domain_lem in_domain on_exit clients a w alone)
      ]

  close_listener_lem :
      (o : Option ℕ) (a : ℕ) (s : NetComm)
      → s.fd_owner ≡ none
      → ((close_listener o s).fd_owner ≡ none)
        × ((close_listener o s).master_fd_set ≡ s.master_fd_set)
        × (fd_isset a (close_listener o s).closed ≡ (is_fd a o || fd_isset a s.closed))
  unfolding fd_isset
  close_listener_lem none a s alone = (alone, refl, refl)
  close_listener_lem (some fd) a s alone = (ap (tell_owner (clear_fd fd)) alone, refl, refl)

  -- When the network is enabled and the program watches its descriptors itself, without an owner,
  -- `disableNetComm` closes the descriptors of the network connections and the UDP and the TCP socket
  -- and no others, takes those of the network connections and no others out of the watched set, and
  -- disables the network.
  pub disable_net_comm-closes :
      (on_exit : Bool) (fd : ℕ) (w : Session S)
      → w.net.net_comm_enabled ≡ true
      → w.net.fd_owner ≡ none
      → (let t = disable_net_comm process_input side on_exit w in
          let closing = closes is_network fd w.net.client_fd_list in
          (t.net.net_comm_enabled ≡ false)
          × (fd_isset fd t.net.master_fd_set
              ≡ (if closing then false else fd_isset fd w.net.master_fd_set))
          × (fd_isset fd t.net.closed ≡ (
              is_fd fd w.net.tcp_socket
              || (is_fd fd w.net.udp_socket || (closing || fd_isset fd w.net.closed)))))
  unfolding disable_net_comm
  disable_net_comm-closes on_exit fd w on alone =
      let w' = close_domain process_input side is_network on_exit w.net.client_fd_list w in
      let (o, u, v, m, k) = close_domain_lem is_network on_exit w.net.client_fd_list fd w alone in
      let s = close_listener w'.net.udp_socket w'.net in
      let (o', m', k') = close_listener_lem w'.net.udp_socket fd w'.net o in
      let (o'', m'', k'') = close_listener_lem w'.net.tcp_socket fd s o' in
      let closing = closes is_network fd w.net.client_fd_list in
      subst
        (λ b.
          let off : Session S = record w' {
            net = record (close_listener w'.net.tcp_socket s) { net_comm_enabled = false };
          } in
          let t = if b then off else w in
          (t.net.net_comm_enabled ≡ false)
          × (fd_isset fd t.net.master_fd_set
              ≡ (if closing then false else fd_isset fd w.net.master_fd_set))
          × (fd_isset fd t.net.closed ≡ (
              is_fd fd w.net.tcp_socket
              || (is_fd fd w.net.udp_socket || (closing || fd_isset fd w.net.closed)))))
        (sym on)
        (
          refl,
          ap (fd_isset fd) (m'' ∙ m') ∙ m,
          k''
              ∙ ap (λ x. is_fd fd x || fd_isset fd s.closed) v
              ∙ ap (λ x. is_fd fd w.net.tcp_socket || x)
                  (k'
                    ∙ ap (λ x. is_fd fd x || fd_isset fd w'.net.closed) u
                    ∙ ap (λ x. is_fd fd w.net.udp_socket || x) k),
        )
