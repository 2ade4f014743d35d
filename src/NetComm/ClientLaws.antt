-- ===== src/NetComm/ClientLaws.antt =====
-- The list of connections and the descriptor set: what the operations of the list keep true.
use pyconnect.ObjComm.Channels.{set_last_used}
use pyconnect.Common.Types.{SockAddr, msg_buffer_size}
use pyconnect.Base.{
  ==→eq, All, All-both, All-get_elem?, All-imp, All-snoc, Bool-cases, Bytes, List, Option,
  Option-cases, [], ap, arith, false, get_elem?, if◌then◌else◌, inl, inr, length, ne→==, none, refl,
  some, subst, suc, sym, true, zero, ℕ, ◌++◌, ◌==◌, ◌∙◌, ◌∷◌, ◌≡◌, ◌≢◌, ◌≤◌,
}
use pyconnect.NetComm.StreamSafety.{IsValid}
use pyconnect.NetComm.Clients.{
  ClientFd, FdDomain, NetComm, add_fd_to_client_list, client_position, destroy_client_by_fd,
  destroy_current_client, fd_clr, fd_isset, fd_set, max, new_client, remove_at,
}

-- What a connection owes to the descriptor set and to its own buffer.
pub record ClientIsValid (fds : List ℕ) (bound : ℕ) (c : ClientFd) : Type 0 where
  pub watched : fd_isset c.fd fds ≡ true
  pub below : c.fd ≤ bound
  pub buffer_valid : IsValid c.data_info

abbrev pub Unused : ℕ → List ClientFd → Type 0
Unused fd clients = All (λ c. c.fd ≢ fd) clients

abbrev pub Distinct : List ClientFd → Type 0
Distinct [] = Unit
Distinct (c ∷ clients) = Unused c.fd clients × Distinct clients

-- Every connection is watched by `select`, within its bound, and has a valid buffer; no two
-- connections share a descriptor.
pub record ClientsAreValid (s : NetComm) : Type 0 where
  pub each : All (ClientIsValid s.master_fd_set s.max_fd) s.client_fd_list
  pub distinct : Distinct s.client_fd_list

pub fd_isset-fd_clr :
    (a b : ℕ) (fds : List ℕ)
    → fd_isset a (fd_clr b fds) ≡ (if a == b then false else fd_isset a fds)
unfolding fd_isset fd_clr
fd_isset-fd_clr a b [] = ground arith
fd_isset-fd_clr a b (x ∷ fds) = ground (arith, fd_isset-fd_clr a b fds)

pub All-remove_at {κ} :
    (P : ClientFd → Type κ) (clients : List ClientFd) (i : ℕ)
    → All P clients
    → All P (remove_at clients i)
unfolding remove_at
All-remove_at P [] i h = h
All-remove_at P (c ∷ clients) zero (h, hs) = hs
All-remove_at P (c ∷ clients) (suc i) (h, hs) = (h, All-remove_at P clients i hs)

Distinct-remove_at :
    (clients : List ClientFd) (i : ℕ) → Distinct clients → Distinct (remove_at clients i)
unfolding remove_at
Distinct-remove_at [] i h = h
Distinct-remove_at (c ∷ clients) zero (h, hs) = hs
Distinct-remove_at (c ∷ clients) (suc i) (h, hs) =
    (All-remove_at (λ d. d.fd ≢ c.fd) clients i h, Distinct-remove_at clients i hs)

Distinct-snoc :
    (clients : List ClientFd) (c : ClientFd)
    → Distinct clients
    → Unused c.fd clients
    → Distinct (clients ++ (c ∷ []))
Distinct-snoc [] c h u = (tt, tt)
Distinct-snoc (d ∷ clients) c (h, hs) (u, us) =
    (All-snoc (λ x. x.fd ≢ d.fd) clients c h (λ e. u (sym e)), Distinct-snoc clients c hs us)

-- The descriptor of a removed connection is not that of any other.
pub Unused-remove_at :
    (clients : List ClientFd) (i : ℕ) {c : ClientFd}
    → Distinct clients
    → get_elem? clients i ≡ some c
    → Unused c.fd (remove_at clients i)
unfolding remove_at
Unused-remove_at [] i d e = absurd (cc)
Unused-remove_at (d ∷ clients) zero {c} (u, us) e =
    let same : d ≡ c = cc in subst (λ fd. Unused fd clients) (ap (λ x. x.fd) same) u
Unused-remove_at (c ∷ clients) (suc i) (u, us) e = (
  λ same. All-get_elem? (λ x. x.fd ≢ c.fd) clients i u e (sym same),
  Unused-remove_at clients i us e,
)

ClientIsValid-fd_set :
    (fd bound : ℕ) (fds : List ℕ) (c : ClientFd)
    → ClientIsValid fds bound c
    → ClientIsValid (fd_set fd fds) (max fd bound) c
unfolding fd_isset
ClientIsValid-fd_set fd bound fds c v = record {
  watched = ground (arith, v.watched);
  below = ground (arith, v.below);
  buffer_valid = v.buffer_valid;
}

ClientIsValid-fd_clr :
    (fd bound : ℕ) (fds : List ℕ) (c : ClientFd)
    → ClientIsValid fds bound c
    → c.fd ≢ fd
    → ClientIsValid (fd_clr fd fds) bound c
ClientIsValid-fd_clr fd bound fds c v ne = record {
  watched = fd_isset-fd_clr c.fd fd fds ∙ ground (arith, v.watched, ne);
  below = v.below;
  buffer_valid = v.buffer_valid;
}

-- A new connection on a descriptor that no other connection has, with a buffer of the right size,
-- leaves the connections valid: it is watched and within the bound, and it is the channel that was
-- used last.
pub add_fd_to_client_list-ClientsAreValid :
    (fd : ℕ) (domain : FdDomain) (client_addr : SockAddr) (proc_id : ℕ) (buffer : Bytes)
    (s : NetComm)
    → ClientsAreValid s
    → Unused fd s.client_fd_list
    → length buffer ≡ msg_buffer_size
    → (t : NetComm) × (add_fd_to_client_list (some fd) domain client_addr proc_id buffer s ≡ some t)
      × ClientsAreValid t
      × (t.object_comm.active_channel ≡ some fd)
      × (t.client_fd_list
          ≡ s.client_fd_list ++ (new_client fd domain client_addr proc_id buffer ∷ []))
unfolding add_fd_to_client_list set_last_used fd_isset
add_fd_to_client_list-ClientsAreValid fd domain client_addr proc_id buffer s v u size =
    let c = new_client fd domain client_addr proc_id buffer in
    let old = ClientIsValid s.master_fd_set s.max_fd in
    let valid = ClientIsValid (fd_set fd s.master_fd_set) (max fd s.max_fd) in
    let new_is_valid : valid c = record {
      watched = ground arith;
      below = ground arith;
      buffer_valid = record { allocated = size; fits = omega arith };
    } in
    (
      _,
      refl,
      record {
        each =
            All-snoc valid s.client_fd_list c
              (All-imp old valid s.client_fd_list (ClientIsValid-fd_set fd s.max_fd s.master_fd_set)
                v.each)
              new_is_valid;
        distinct = Distinct-snoc s.client_fd_list c v.distinct u;
      },
      refl,
      refl,
    )

-- A connection that is destroyed leaves the others valid.
pub destroy_current_client-ClientsAreValid :
    (position : ℕ) (s : NetComm)
    → ClientsAreValid s
    → ClientsAreValid (destroy_current_client position s)
unfolding destroy_current_client
destroy_current_client-ClientsAreValid position s v =
    elim (Option-cases (get_elem? s.client_fd_list position)) [
      | inl e ↦ rw (e, destroy_current_client) v
      | inr (c, e) ↦
          rw (e, destroy_current_client)
            (record {
              each =
                  All-both (ClientIsValid s.master_fd_set s.max_fd) (λ d. d.fd ≢ c.fd)
                    (ClientIsValid (fd_clr c.fd s.master_fd_set) s.max_fd)
                    (remove_at s.client_fd_list position)
                    (ClientIsValid-fd_clr c.fd s.max_fd s.master_fd_set)
                    (All-remove_at _ s.client_fd_list position v.each)
                    (Unused-remove_at s.client_fd_list position v.distinct e);
              distinct = Distinct-remove_at s.client_fd_list position v.distinct;
            })
    ]

pub client_position_of_get :
    (clients : List ClientFd) (i : ℕ) {c : ClientFd}
    → Distinct clients
    → get_elem? clients i ≡ some c
    → client_position c.fd clients ≡ some i
unfolding client_position
client_position_of_get [] i d e = absurd (cc)
client_position_of_get (b ∷ clients) zero (u, us) e = ground arith
client_position_of_get (b ∷ clients) (suc i) {c} (u, us) e =
    let other : c.fd ≢ b.fd = All-get_elem? (λ x. x.fd ≢ b.fd) clients i u e in
    rw (ne→== b.fd c.fd (λ same. other (sym same)))
      (rw (client_position_of_get clients i us e) refl)

-- For a connection that is in the list, the two forms of `destroyCurrentClient`, by the node and by
-- the descriptor, have the same effect: on the list, on the descriptor set, on what the owner is told
-- and on what is closed.
pub destroy_client_by_fd-destroy_current_client :
    (position : ℕ) (s : NetComm) {c : ClientFd}
    → ClientsAreValid s
    → get_elem? s.client_fd_list position ≡ some c
    → destroy_client_by_fd (some c.fd) s ≡ destroy_current_client position s
unfolding destroy_client_by_fd destroy_current_client
destroy_client_by_fd-destroy_current_client position s v e =
    rw (client_position_of_get s.client_fd_list position v.distinct e, destroy_client_by_fd)
      (rw (e, destroy_current_client) refl)

client_position_sound :
    (fd : ℕ) (clients : List ClientFd) (i : ℕ)
    → client_position fd clients ≡ some i
    → (c : ClientFd) × (get_elem? clients i ≡ some c) × (c.fd ≡ fd)
unfolding client_position
client_position_sound fd [] i e = absurd (cc)
client_position_sound fd (c ∷ clients) zero e = (
  c,
  refl,
  elim (Bool-cases (c.fd == fd)) [
    | inl same ↦ ==→eq c.fd fd same
    | inr other ↦ elim (Option-cases (client_position fd clients)) [
      | inl n ↦ absurd (ground arith)
      | inr (j, s) ↦ absurd (ground arith)
    ]
  ],
)
client_position_sound fd (c ∷ clients) (suc i) e =
    client_position_sound fd clients i (elim (Option-cases (client_position fd clients)) [
      | inl n ↦ absurd (ground arith)
      | inr (j, s) ↦ ground arith
    ])

-- `destroyCurrentClient(fd)` leaves the other connections valid.
pub destroy_client_by_fd-ClientsAreValid :
    (fd : Option ℕ) (s : NetComm) → ClientsAreValid s → ClientsAreValid (destroy_client_by_fd fd s)
unfolding destroy_client_by_fd
destroy_client_by_fd-ClientsAreValid none s v = v
destroy_client_by_fd-ClientsAreValid (some fd) s v =
    elim (Option-cases (client_position fd s.client_fd_list)) [
      | inl e ↦ rw (e, destroy_client_by_fd) v
      | inr (i, e) ↦
          let (c, here, same) = client_position_sound fd s.client_fd_list i e in
          subst (λ k. ClientsAreValid (destroy_client_by_fd (some k) s)) same
            (subst ClientsAreValid (sym (destroy_client_by_fd-destroy_current_client i s v here))
              (destroy_current_client-ClientsAreValid i s v))
    ]
