-- ===== src/NetComm/IncomingLaws.antt =====
-- The loop over the connections: it ends, it keeps the connections valid, and it drops exactly the
-- connections whose read failed.
use pyconnect.NetComm.Stream.{DataInfo, Outcome, faulted, finished, out_of_fuel, receive}
use pyconnect.NetComm.StreamSafety.{Finishes, IsValid, receive-Finishes}
use pyconnect.Base.{
  All-get_elem?, All-set, Bool, Bytes, List, Option, Option-cases, [], ap, arith, false, get_elem?,
  get_elem?-lt, if_elim, if◌then◌else◌, inl, inr, length, length-set, map_erase, none, refl, some,
  subst, suc, sym, true, zero, ℕ, ◌&&◌, ◌+◌, ◌<◌, ◌∙◌, ◌∷◌, ◌≡◌, ◌≤◌,
}
use pyconnect.ObjComm.Channels.{Side, find_channel, set_last_used, shutdown_notice}
use pyconnect.Common.Types.{SockAddr}
use pyconnect.NetComm.Clients.{
  ClientFd, NetComm, destroy_current_client, fd_isset, remove_at, zero_addr,
}
use pyconnect.NetComm.ClientLaws.{
  ClientIsValid, ClientsAreValid, destroy_current_client-ClientsAreValid,
}
use pyconnect.NetComm.Survivors.{
  Distinct-set, fails, fds_of, fds_of-set, kept, kept-end, kept-remove_at, kept-suc,
  length-remove_at, survivors,
}
use pyconnect.NetComm.Incoming.{
  ProcessInput, Reading, Session, client_loop, closed_by_peer, drop_client, failed, give, give_all,
  got, serve_client, set_comm, set_data_info, shut_channel,
}

module _ {S : Type 0} (process_input : ProcessInput S) where
  -- What processing messages leaves as it was: everything but the channels of the objects.
  abbrev pub SameBut : Session S → Session S → Type 0
  SameBut w w' = w'.net ≡ record w.net { object_comm = w'.net.object_comm }

  pub shut_channel-SameBut :
      (side : Side) (chan : ℕ) (notify : Bool) (w : Session S)
      → SameBut w (shut_channel process_input side chan notify w)
  unfolding shut_channel give
  shut_channel-SameBut side chan notify w =
      elim (Option-cases (find_channel chan w.net.object_comm.obj_comm_map)) [
        | inl e ↦ rw (e, shut_channel) refl
        | inr (id, e) ↦
            rw (e, shut_channel)
              (elim notify
                as (λ b. SameBut w (
                  let w' =
                    if b
                    then (give process_input (shutdown_notice side id) zero_addr true w).0
                    else w in
                  set_comm
                    (record w'.net.object_comm {
                      obj_comm_map = map_erase w'.net.object_comm.obj_comm_map id;
                    })
                    w')) [ true ↦ refl | false ↦ refl ])
      ]

  give_all-SameBut :
      (messages : List Bytes) (addr : SockAddr) (w : Session S)
      → SameBut w (give_all process_input messages addr w)
  unfolding give_all give
  give_all-SameBut [] addr w = refl
  give_all-SameBut (m ∷ messages) addr w = give_all-SameBut messages addr _

  pub ClientsAreValid-SameBut :
      (w w' : Session S) → SameBut w w' → ClientsAreValid w.net → ClientsAreValid w'.net
  ClientsAreValid-SameBut w w' e v =
      subst ClientsAreValid (sym e) (record { each = v.each; distinct = v.distinct })

  client_fd_list-destroy_current_client :
      (position : ℕ) (s : NetComm) {c : ClientFd}
      → get_elem? s.client_fd_list position ≡ some c
      → (destroy_current_client position s).client_fd_list ≡ remove_at s.client_fd_list position
  unfolding destroy_current_client
  client_fd_list-destroy_current_client position s e = rw (e, destroy_current_client) refl

  drop_client_lem :
      (side : Side) (position : ℕ) (c : ClientFd) (w : Session S)
      → ClientsAreValid w.net
      → get_elem? w.net.client_fd_list position ≡ some c
      → ClientsAreValid (drop_client process_input side position c w).net
        × ((drop_client process_input side position c w).net.client_fd_list
            ≡ remove_at w.net.client_fd_list position)
  unfolding drop_client
  drop_client_lem side position c w v e =
      let w' = shut_channel process_input side c.fd true w in
      let same = shut_channel-SameBut side c.fd true w in
      let list : w'.net.client_fd_list ≡ w.net.client_fd_list = ap (λ n. n.client_fd_list) same in
      let here : get_elem? w'.net.client_fd_list position ≡ some c =
        ap (λ l. get_elem? l position) list ∙ e in
      (
        destroy_current_client-ClientsAreValid position w'.net
            (ClientsAreValid-SameBut w w' same v),
        client_fd_list-destroy_current_client position w'.net here
            ∙ ap (λ l. remove_at l position) list,
      )

  set_data_info-ClientsAreValid :
      (position : ℕ) (c : ClientFd) (info : DataInfo) (s : NetComm)
      → ClientsAreValid s
      → get_elem? s.client_fd_list position ≡ some c
      → IsValid info
      → ClientsAreValid (set_data_info process_input position c info s)
  set_data_info-ClientsAreValid position c info s v e i =
      let P = ClientIsValid s.master_fd_set s.max_fd in
      let d : ClientFd = record c { data_info = info } in
      let old : P c = All-get_elem? P s.client_fd_list position v.each e in
      let new : P d = record { watched = old.watched; below = old.below; buffer_valid = i } in
      record {
        each = All-set P s.client_fd_list position d v.each new;
        distinct = Distinct-set s.client_fd_list position d e refl v.distinct;
      }

  serve_client_lem :
      (position : ℕ) (c : ClientFd) (chunk : Bytes) (w : Session S)
      → ClientsAreValid w.net
      → get_elem? w.net.client_fd_list position ≡ some c
      → 0 < length chunk
      → (t : Session S) × (serve_client process_input position c chunk w ≡ some t)
        × ClientsAreValid t.net
        × (fds_of t.net.client_fd_list ≡ fds_of w.net.client_fd_list)
        × (length t.net.client_fd_list ≡ length w.net.client_fd_list)
  unfolding serve_client set_last_used
  serve_client_lem position c chunk w v e p = step (receive c.data_info chunk) refl (
      receive-Finishes c.data_info chunk
        (All-get_elem? (ClientIsValid w.net.master_fd_set w.net.max_fd) w.net.client_fd_list
          position v.each e).buffer_valid
        p)
    where
      step :
          (o : Outcome)
          → receive c.data_info chunk ≡ o
          → Finishes o
          → (t : Session S) × (serve_client process_input position c chunk w ≡ some t)
            × ClientsAreValid t.net
            × (fds_of t.net.client_fd_list ≡ fds_of w.net.client_fd_list)
            × (length t.net.client_fd_list ≡ length w.net.client_fd_list)
      step (finished info messages) r i =
          let before = set_comm (record w.net.object_comm { active_channel = some c.fd }) w in
          let w' = give_all process_input messages c.client_addr before in
          let same = give_all-SameBut messages c.client_addr before in
          let list : w'.net.client_fd_list ≡ w.net.client_fd_list =
            ap (λ n. n.client_fd_list) same in
          let here : get_elem? w'.net.client_fd_list position ≡ some c =
            ap (λ l. get_elem? l position) list ∙ e in
          let valid : ClientsAreValid before.net = record {
            each = v.each;
            distinct = v.distinct;
          } in
          let d : ClientFd = record c { data_info = info } in
          (
            record w' { net = set_data_info process_input position c info w'.net },
            rw (r, serve_client) refl,
            set_data_info-ClientsAreValid position c info w'.net
                (ClientsAreValid-SameBut before w' same valid) here i,
            fds_of-set w'.net.client_fd_list position d here refl ∙ ap fds_of list,
            length-set w'.net.client_fd_list position d ∙ ap length list,
          )
      step faulted r i = absurd i
      step out_of_fuel r i = absurd i

  -- The loop ends with a valid list, in which the descriptors from the position on are the survivors.
  abbrev LoopEnds : List ℕ → (ℕ → Reading) → ℕ → Session S → Option (Session S) → Type 0
  LoopEnds ready read position w o =
      (t : Session S) × (o ≡ some t)
      × ClientsAreValid t.net
      × (fds_of t.net.client_fd_list ≡ kept ready read position (fds_of w.net.client_fd_list))

  LoopEnds-via :
      (ready : List ℕ) (read : ℕ → Reading) (p q : ℕ) (w w' : Session S) (o : Option (Session S))
      → kept ready read q (fds_of w'.net.client_fd_list)
        ≡ kept ready read p (fds_of w.net.client_fd_list)
      → LoopEnds ready read q w' o
      → LoopEnds ready read p w o
  LoopEnds-via ready read p q w w' o e (t, done, v, fds) = (t, done, v, fds ∙ e)

  -- The loop with some fuel, from any position for which the fuel is enough.
  abbrev LoopsEnd : Side → List ℕ → (ℕ → Reading) → ℕ → Type 0
  LoopsEnd side ready read fuel =
      (position : ℕ) (w : Session S)
      → ClientsAreValid w.net
      → position ≤ length w.net.client_fd_list
      → length w.net.client_fd_list < fuel + position
      → LoopEnds ready read position w (client_loop process_input side ready read fuel position w)

  module _ (side : Side) (ready : List ℕ) (read : ℕ → Reading) (fuel position : ℕ) (w : Session S)
      (c : ClientFd) (ih : LoopsEnd side ready read fuel) (v : ClientsAreValid w.net)
      (e : get_elem? w.net.client_fd_list position ≡ some c)
      (h : length w.net.client_fd_list < suc fuel + position) where
    drop_client-LoopEnds :
        (fd_isset c.fd ready && fails (read c.fd)) ≡ true
        → LoopEnds ready read position w (
            client_loop process_input side ready read fuel position
              (drop_client process_input side position c w))
    drop_client-LoopEnds gone =
        let clients = w.net.client_fd_list in
        let w' = drop_client process_input side position c w in
        let (valid, list) = drop_client_lem side position c w v e in
        let shorter = length-remove_at clients position e in
        let size = ap length list in
        let inside = get_elem?-lt clients position e in
        LoopEnds-via ready read position position w w' _
          (ap (λ l. kept ready read position (fds_of l)) list
            ∙ kept-remove_at ready read clients position e gone)
          (ih position w' valid (omega arith) (omega arith))

    serve_client-LoopEnds :
        (b : ℕ) (bytes : Bytes)
        → (fd_isset c.fd ready && fails (read c.fd)) ≡ false
        → LoopEnds ready read position w
            (elim (serve_client process_input position c (b ∷ bytes) w)
              as (λ _. Option (Session S)) [
                | none ↦ none
                | some w' ↦ client_loop process_input side ready read fuel (suc position) w'
              ])
    serve_client-LoopEnds b bytes stays =
        let clients = w.net.client_fd_list in
        let (w', done, valid, fds, size) =
          serve_client_lem position c (b ∷ bytes) w v e (omega arith) in
        let inside = get_elem?-lt clients position e in
        rw done (
          LoopEnds-via ready read position (suc position) w w' _
            (ap (kept ready read (suc position)) fds ∙ kept-suc ready read clients position e stays)
            (ih (suc position) w' valid (omega arith) (omega arith)))

    read-LoopEnds :
        (r : Reading)
        → read c.fd ≡ r
        → fd_isset c.fd ready ≡ true
        → LoopEnds ready read position w (elim (read c.fd) as (λ _. Option (Session S)) [
          | closed_by_peer ↦
              client_loop process_input side ready read fuel position
                (drop_client process_input side position c w)
          | failed ↦
              client_loop process_input side ready read fuel position
                (drop_client process_input side position c w)
          | got b bytes ↦ elim (serve_client process_input position c (b ∷ bytes) w) [
            | none ↦ none
            | some w' ↦ client_loop process_input side ready read fuel (suc position) w'
          ]
        ])
    read-LoopEnds closed_by_peer r is_ready = rw r (drop_client-LoopEnds (rw (is_ready, r) refl))
    read-LoopEnds failed r is_ready = rw r (drop_client-LoopEnds (rw (is_ready, r) refl))
    read-LoopEnds (got b bytes) r is_ready =
        rw r (serve_client-LoopEnds b bytes (rw (is_ready, r) refl))

  client_loop-LoopEnds :
      (side : Side) (ready : List ℕ) (read : ℕ → Reading) (fuel : ℕ) → LoopsEnd side ready read fuel
  unfolding client_loop
  client_loop-LoopEnds side ready read zero position w v l h = absurd (omega arith)
  client_loop-LoopEnds side ready read (suc fuel) position w v l h =
      let clients = w.net.client_fd_list in
      let ih = client_loop-LoopEnds side ready read fuel in
      elim (Option-cases (get_elem? clients position)) [
        | inl e ↦ rw (e, client_loop) (w, refl, v, sym (kept-end ready read clients position e))
        | inr (c, e) ↦
            rw (e, client_loop)
              (if_elim (LoopEnds ready read position w) (fd_isset c.fd ready) _ _
                (read-LoopEnds side ready read fuel position w c ih v e h (read c.fd) refl)
                (λ not_ready.
                  LoopEnds-via ready read position (suc position) w w _
                    (kept-suc ready read clients position e (rw not_ready refl))
                    (ih (suc position) w v (get_elem?-lt clients position e) (omega arith))))
      ]

  -- The loop over the connections, from the first one, comes to its end with one step more than there
  -- are connections, whatever the reads give and whatever the message processor does to the channels
  -- and to its own state (it adds no connections): no buffer is left, the connections stay valid, and the descriptors that remain are, in their order, those that
  -- were not ready and those that gave bytes.
  pub client_loop-survivors :
      (side : Side) (ready : List ℕ) (read : ℕ → Reading) (fuel : ℕ) (w : Session S)
      → ClientsAreValid w.net
      → length w.net.client_fd_list < fuel
      → (t : Session S) × (client_loop process_input side ready read fuel 0 w ≡ some t)
        × ClientsAreValid t.net
        × (fds_of t.net.client_fd_list ≡ survivors ready read (fds_of w.net.client_fd_list))
  client_loop-survivors side ready read fuel w v h =
      client_loop-LoopEnds side ready read fuel 0 w v (omega arith) (omega arith)
