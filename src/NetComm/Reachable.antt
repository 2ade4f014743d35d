-- ===== src/NetComm/Reachable.antt =====
-- The events that change the connections, as steps: a round of the event loop, a message that is sent
-- and a connection that is asked for. What they keep true holds after any sequence of them.
use pyconnect.Common.Types.{SockAddr}
use pyconnect.Common.Cipher.{CipherResult, Evp, done, encrypt_message, overrun, refused}
use pyconnect.ObjComm.Channels.{Side, find_or_add}
use pyconnect.NetComm.Frame.{dispatch_frame}
use pyconnect.NetComm.Incoming.{ProcessInput, Session}
use pyconnect.Base.{
  Bool, Bytes, List, Option, Option-cases, [], false, if_elim, if◌then◌else◌, inl, inr, none, refl,
  some, true, ℕ, ◌++◌, ◌∷◌, ◌≡◌,
}
use pyconnect.NetComm.Clients.{
  NetComm, add_fd_to_client_list, find_fd_by_proc_id, ipc_client, local_ipc, zero_addr,
}
use pyconnect.NetComm.ClientLaws.{ClientsAreValid, add_fd_to_client_list-ClientsAreValid}
use pyconnect.NetComm.Sending.{
  ConnectResult, Output, broadcast_both, client_data_send, connected, create_ipc_talker,
  create_tcp_talker, data_packet_sender, find_or_create_ipc_talker, ipc_talker,
  local_broadcast_send, negotiation_type, net_broadcast_send, no_socket, send_to_servers,
  unreachable, write_frame,
}
use pyconnect.NetComm.EventLoop.{IsFresh, System, SystemLaws, process_incoming_data}
use pyconnect.NetComm.EventLaws.{
  Afterwards, Afterwards-some, create_tcp_talker-Afterwards, process_incoming_data-Afterwards,
}

abbrev SentValid : NetComm × List Output → Type 0
SentValid p = ClientsAreValid p.0

module _ (os : System) (laws : SystemLaws os) where
  create_ipc_talker-Afterwards :
      (r : ConnectResult) (proc_id : ℕ) (s : NetComm)
      → ClientsAreValid s
      → IsFresh s r
      → Afterwards (λ p. ClientsAreValid p.0) (create_ipc_talker r proc_id os.new_buffer s)
  unfolding create_ipc_talker add_fd_to_client_list
  create_ipc_talker-Afterwards no_socket proc_id s v f = v
  create_ipc_talker-Afterwards (unreachable fd) proc_id s v f = tt
  create_ipc_talker-Afterwards (connected fd) proc_id s v f =
      let (t, e, valid, _, _) =
        add_fd_to_client_list-ClientsAreValid fd local_ipc zero_addr proc_id os.new_buffer s v f
          laws.buffer_size in
      rw (e, create_ipc_talker) valid

  ipc_talker-Afterwards :
      (proc_id : ℕ) (found : NetComm × Option ℕ)
      → ClientsAreValid found.0
      → Afterwards
          (λ p. ClientsAreValid p.0)
          (ipc_talker os.connect_ipc proc_id os.new_buffer found)
  ipc_talker-Afterwards proc_id (s, some fd) v = v
  ipc_talker-Afterwards proc_id (s, none) v =
      create_ipc_talker-Afterwards (os.connect_ipc proc_id s) proc_id s v
        (laws.connect_ipc_fresh proc_id s)

  find_fd_by_proc_id-ClientsAreValid :
      (proc_id : ℕ) (s : NetComm)
      → ClientsAreValid s
      → ClientsAreValid (find_fd_by_proc_id proc_id s).0
  unfolding find_fd_by_proc_id
  find_fd_by_proc_id-ClientsAreValid proc_id s v =
      elim (Option-cases (ipc_client proc_id s.client_fd_list)) [
        | inl e ↦ rw (e, find_fd_by_proc_id) v
        | inr (fd, e) ↦ rw (e, find_fd_by_proc_id) (record { each = v.each; distinct = v.distinct })
      ]

  send_to_servers-Afterwards :
      (bytes : Bytes) (servers : List ℕ) (s : NetComm)
      → ClientsAreValid s
      → Afterwards SentValid (send_to_servers os.connect_ipc os.new_buffer bytes servers s)
  unfolding send_to_servers find_or_create_ipc_talker
  send_to_servers-Afterwards bytes [] s v = v
  send_to_servers-Afterwards bytes (proc_id ∷ servers) s v =
      let found = find_fd_by_proc_id proc_id s in
      let made =
        ipc_talker-Afterwards proc_id found (find_fd_by_proc_id-ClientsAreValid proc_id s v) in
      elim (Option-cases (ipc_talker os.connect_ipc proc_id os.new_buffer found)) [
        | inl e ↦ rw (e, send_to_servers) tt
        | inr ((t, fd), e) ↦
            let valid = Afterwards-some (λ p. ClientsAreValid p.0) _ made e in
            elim (Option-cases (send_to_servers os.connect_ipc os.new_buffer bytes servers t)) [
              | inl f ↦ rw (e, send_to_servers) (rw (f, send_to_servers) tt)
              | inr ((u, outputs), f) ↦
                  rw (e, send_to_servers)
                    (rw (f, send_to_servers)
                      (Afterwards-some SentValid _
                        (send_to_servers-Afterwards bytes servers t valid) f))
            ]
      ]

  module _ (evp : Evp) where
    net_broadcast_send-Afterwards :
        (message : Bytes) (s : NetComm)
        → ClientsAreValid s
        → Afterwards SentValid (net_broadcast_send evp message s)
    unfolding net_broadcast_send
    net_broadcast_send-Afterwards [] s v = v
    net_broadcast_send-Afterwards (first ∷ rest) s v =
        at_result (encrypt_message evp (first ∷ rest)) refl
      where
        at_result :
            (r : CipherResult)
            → encrypt_message evp (first ∷ rest) ≡ r
            → Afterwards SentValid (net_broadcast_send evp (first ∷ rest) s)
        at_result refused e = rw (e, net_broadcast_send) v
        at_result overrun e = rw (e, net_broadcast_send) tt
        at_result (done out) e = rw (e, net_broadcast_send) v

    dispatched-Afterwards :
        (out : Bytes) (servers : List ℕ) (s : NetComm)
        → ClientsAreValid s
        → Afterwards SentValid (elim (dispatch_frame out) as (λ _. Option (NetComm × List Output)) [
          | none ↦ none
          | some bytes ↦ send_to_servers os.connect_ipc os.new_buffer bytes servers s
        ])
    dispatched-Afterwards out servers s v = elim (Option-cases (dispatch_frame out)) [
      | inl e ↦ rw e tt
      | inr (bytes, e) ↦ rw e (send_to_servers-Afterwards bytes servers s v)
    ]

    local_broadcast_send-Afterwards :
        (servers : List ℕ) (message : Bytes) (s : NetComm)
        → ClientsAreValid s
        → Afterwards SentValid
            (local_broadcast_send evp os.connect_ipc os.new_buffer servers message s)
    unfolding local_broadcast_send
    local_broadcast_send-Afterwards servers [] s v = v
    local_broadcast_send-Afterwards servers (first ∷ rest) s v =
        at_result (encrypt_message evp (first ∷ rest)) refl
      where
        at_result :
            (r : CipherResult)
            → encrypt_message evp (first ∷ rest) ≡ r
            → Afterwards SentValid
                (local_broadcast_send evp os.connect_ipc os.new_buffer servers (first ∷ rest) s)
        at_result refused e = rw (e, local_broadcast_send) v
        at_result overrun e = rw (e, local_broadcast_send) tt
        at_result (done out) e =
            rw (e, local_broadcast_send)
              (if_elim (Afterwards SentValid) s.ipc_comm_enabled _ _
                (λ _. dispatched-Afterwards out servers s v) (λ _. v))

    write_frame-Afterwards :
        (out : Bytes) (s : NetComm) (fd : Option ℕ)
        → ClientsAreValid s
        → Afterwards SentValid (write_frame evp out s fd)
    write_frame-Afterwards out s none v = v
    write_frame-Afterwards out s (some fd) v = elim (Option-cases (dispatch_frame out)) [
      | inl e ↦ rw (e, write_frame) tt
      | inr (bytes, e) ↦ rw (e, write_frame) v
    ]

    client_data_send-Afterwards :
        (side : Side) (message : Bytes) (s : NetComm)
        → ClientsAreValid s
        → Afterwards SentValid (client_data_send evp side message s)
    unfolding client_data_send
    client_data_send-Afterwards side [] s v = v
    client_data_send-Afterwards side (first ∷ []) s v = tt
    client_data_send-Afterwards side (first ∷ second ∷ rest) s v =
        at_result (encrypt_message evp (first ∷ second ∷ rest)) refl
      where
        at_result :
            (r : CipherResult)
            → encrypt_message evp (first ∷ second ∷ rest) ≡ r
            → Afterwards SentValid (client_data_send evp side (first ∷ second ∷ rest) s)
        at_result refused e = rw (e, client_data_send) v
        at_result overrun e = rw (e, client_data_send) tt
        at_result (done out) e =
            let (c, fd) = find_or_add side first second s.object_comm in
            rw (e, client_data_send)
              (write_frame-Afterwards out (record s { object_comm = c }) fd
                (record { each = v.each; distinct = v.distinct }))

    broadcast_both-Afterwards :
        (servers : List ℕ) (net_data local_data : Bytes) (s : NetComm)
        → ClientsAreValid s
        → Afterwards SentValid
            (broadcast_both evp os.connect_ipc os.new_buffer servers net_data local_data s)
    unfolding broadcast_both
    broadcast_both-Afterwards servers net_data local_data s v =
        let on_net = net_broadcast_send evp net_data s in
        let chosen : Option (NetComm × List Output) =
          if s.net_comm_enabled then on_net else some (s, []) in
        let sent : Afterwards SentValid chosen =
          if_elim (Afterwards SentValid) s.net_comm_enabled on_net (some (s, []))
            (λ _. net_broadcast_send-Afterwards net_data s v) (λ _. v) in
        elim (Option-cases chosen) [
          | inl e ↦ rw (e, broadcast_both) tt
          | inr ((t, outputs), e) ↦
              rw (e, broadcast_both)
                (then_local t outputs (Afterwards-some SentValid chosen sent e))
        ]
      where
        then_local :
            (t : NetComm) (outputs : List Output)
            → ClientsAreValid t
            → Afterwards SentValid
                (elim (if t.ipc_comm_enabled
                    then local_broadcast_send evp os.connect_ipc os.new_buffer servers local_data t
                    else some (t, []))
                  as (λ _. Option (NetComm × List Output)) [
                    | none ↦ none
                    | some (u, more) ↦ some (u, outputs ++ more)
                  ])
        then_local t outputs w =
            let on_machine =
              local_broadcast_send evp os.connect_ipc os.new_buffer servers local_data t in
            let chosen : Option (NetComm × List Output) =
              if t.ipc_comm_enabled then on_machine else some (t, []) in
            let sent : Afterwards SentValid chosen =
              if_elim (Afterwards SentValid) t.ipc_comm_enabled on_machine (some (t, []))
                (λ _. local_broadcast_send-Afterwards servers local_data t w) (λ _. w) in
            elim (Option-cases chosen) [
              | inl e ↦ rw e tt
              | inr ((u, more), e) ↦ rw e (Afterwards-some SentValid chosen sent e)
            ]

    data_packet_sender-Afterwards :
        (side : Side) (servers : List ℕ) (message : Bytes) (broadcast : Bool) (s : NetComm)
        → ClientsAreValid s
        → Afterwards SentValid
            (data_packet_sender evp side os.connect_ipc os.new_buffer servers message broadcast s)
    unfolding data_packet_sender
    data_packet_sender-Afterwards side servers message false s v =
        client_data_send-Afterwards side message s v
    data_packet_sender-Afterwards side servers message true s v =
        elim (Option-cases (negotiation_type message)) [
          | inl e ↦ rw (e, data_packet_sender) tt
          | inr (t, e) ↦
              rw (e, data_packet_sender) (broadcast_both-Afterwards servers _ message s v)
        ]

-- One event of the program; the system may behave differently each time, within its laws.
pub data Step {S : Type 0} (evp : Evp) (process_input : ProcessInput S) (side : Side)
    : Session S → Session S → Type 0 where
  -- a round of `continuousProcessing`
  incoming :
      {w t : Session S} (os : System)
      → SystemLaws os
      → process_incoming_data evp process_input side os w ≡ some t
      → Step evp process_input side w t
  -- `dataPacketSender`
  sending :
      {w : Session S} {s : NetComm} {outputs : List Output} (os : System) (servers : List ℕ)
      (message : Bytes) (broadcast : Bool)
      → SystemLaws os
      → data_packet_sender evp side os.connect_ipc os.new_buffer servers message broadcast w.net
        ≡ some (s, outputs)
      → Step evp process_input side w (record w { net = s })
  -- `createTCPTalker`, on behalf of `createTalker`
  connecting :
      {w : Session S} {s : NetComm} {established : Bool} (os : System) (addr : SockAddr)
      → SystemLaws os
      → create_tcp_talker (os.connect addr w.net) addr os.new_buffer w.net ≡ some (s, established)
      → Step evp process_input side w (record w { net = s })

pub data Reach {S : Type 0} (evp : Evp) (process_input : ProcessInput S) (side : Side)
    (w : Session S) : Session S → Type 0 where
  here : Reach evp process_input side w w
  next :
      {t u : Session S}
      → Reach evp process_input side w t
      → Step evp process_input side t u
      → Reach evp process_input side w u

Step-ClientsAreValid :
    {S : Type 0} (evp : Evp) (process_input : ProcessInput S) (side : Side) {w t : Session S}
    → Step evp process_input side w t
    → ClientsAreValid w.net
    → ClientsAreValid t.net
Step-ClientsAreValid evp process_input side {w} (incoming os laws e) v =
    Afterwards-some (λ u. ClientsAreValid u.net) _
      (process_incoming_data-Afterwards evp process_input side os laws w v) e
Step-ClientsAreValid evp process_input side {w} (sending os servers message broadcast laws e) v =
    Afterwards-some SentValid _
      (data_packet_sender-Afterwards os laws evp side servers message broadcast w.net v) e
Step-ClientsAreValid evp process_input side {w} (connecting os addr laws e) v =
    Afterwards-some (λ p. ClientsAreValid p.0) _
      (create_tcp_talker-Afterwards (os.connect addr w.net) addr os.new_buffer w.net v
        (laws.connect_fresh addr w.net) laws.buffer_size)
      e

-- After any sequence of rounds of the event loop, sent messages and new connections, whatever the
-- peers and the cipher do, and whatever the message processor does in a round to the channels and to
-- its own state (it adds no connections): each connection is in the set that `select` watches
-- and within its bound, its buffer is valid, and no two connections have the same descriptor. New
-- descriptors are not those of open connections.
pub Reach-ClientsAreValid :
    {S : Type 0} (evp : Evp) (process_input : ProcessInput S) (side : Side) {w t : Session S}
    → Reach evp process_input side w t
    → ClientsAreValid w.net
    → ClientsAreValid t.net
Reach-ClientsAreValid evp process_input side here v = v
Reach-ClientsAreValid evp process_input side (next r st) v =
    Step-ClientsAreValid evp process_input side st
      (Reach-ClientsAreValid evp process_input side r v)
