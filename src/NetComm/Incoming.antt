-- ===== src/NetComm/Incoming.antt =====
-- The part of `processIncomingData` that serves the connections: every connection that `select` named
-- is read, and is closed when the read fails. The inner loop is in Stream.
use pyconnect.Base.{
  Bool, Bytes, List, Option, [], false, get_elem?, if◌then◌else◌, map_erase, none, set, some, suc,
  true, zero, ℕ, ◌∷◌,
}
use pyconnect.ObjComm.Channels.{ObjectComm, Side, find_channel, set_last_used, shutdown_notice}
use pyconnect.Common.Types.{MesgProcessResult, SockAddr}
use pyconnect.NetComm.Clients.{ClientFd, NetComm, destroy_current_client, fd_isset, zero_addr}
use pyconnect.NetComm.Stream.{DataInfo, faulted, finished, out_of_fuel, receive}

-- What one `read` gives: 0, a negative number, or at least one byte. That it gives at most `kTCPMSS`
-- bytes is not used.
pub data Reading : Type 0 where
  closed_by_peer failed : Reading
  got : ℕ → Bytes → Reading

-- The network side and the state of the `MessageProcessor`.
pub record Session (S : Type 0) : Type 0 where
  pub net : NetComm
  pub processor : S

-- `MessageProcessor::processInput(data, size, cAddr, skipdecrypt)`. Its answers go through
-- `clientDataSend`, which may change the channels of the objects. A callback of a script that connects
-- to another program within the call, and so adds a connection, is left out.
abbrev pub ProcessInput : Type 0 → Type 0
ProcessInput S = Bytes → SockAddr → Bool → ObjectComm → S → ObjectComm × S × MesgProcessResult

abbrev pub set_comm : {S : Type 0} → ObjectComm → Session S → Session S
set_comm c w = record w { net = record w.net { object_comm = c } }

module _ {S : Type 0} (process_input : ProcessInput S) where
  -- One call of `processInput`; the result is returned.
  unfoldable pub give : Bytes → SockAddr → Bool → Session S → Session S × MesgProcessResult
  give message addr skip_decrypt w =
      let (c, p, r) = process_input message addr skip_decrypt w.net.object_comm w.processor in
      (record { net = record w.net { object_comm = c }; processor = p }, r)

  -- `objCommChannelShutdown(chanID, notify)`: the notice is processed before the channel is erased.
  unfoldable pub shut_channel : Side → ℕ → Bool → Session S → Session S
  shut_channel side chan notify w = elim (find_channel chan w.net.object_comm.obj_comm_map) [
    | none ↦ w
    | some id ↦
        let w' = if notify then (give (shutdown_notice side id) zero_addr true w).0 else w in
        set_comm
          (record w'.net.object_comm {
            obj_comm_map = map_erase w'.net.object_comm.obj_comm_map id;
          })
          w'
  ]

  -- The messages of one read, in order; the result of `processInput` is dropped.
  unfoldable pub give_all : List Bytes → SockAddr → Session S → Session S
  give_all [] addr w = w
  give_all (message ∷ messages) addr w = give_all messages addr (give message addr false w).0

  -- A connection whose `read` failed.
  unfoldable pub drop_client : Side → ℕ → ClientFd → Session S → Session S
  drop_client side position c w =
      let w' = shut_channel side c.fd true w in
      record w' { net = destroy_current_client position w'.net }

  -- The new `dataInfo` of the connection at a position.
  abbrev pub set_data_info : ℕ → ClientFd → DataInfo → NetComm → NetComm
  set_data_info position c info s = record s {
    client_fd_list = set s.client_fd_list position (record c { data_info = info });
  }

  -- A connection that gave bytes. `none` is an access outside of a buffer, or a loop that does not
  -- end.
  unfoldable pub serve_client : ℕ → ClientFd → Bytes → Session S → Option (Session S)
  serve_client position c chunk w = elim (set_last_used (some c.fd) w.net.object_comm) [
    | none ↦ none
    | some comm ↦ elim (receive c.data_info chunk) [
      | finished info messages ↦
          let w' = give_all messages c.client_addr (set_comm comm w) in
          some (record w' { net = set_data_info position c info w'.net })
      | faulted ↦ none
      | out_of_fuel ↦ none
    ]
  ]

  -- `while (FDPtr)`: `ready` is what `select` left in the set, `read` is what each descriptor gives.
  -- The loop stays at its position when the connection there is destroyed.
  unfoldable pub client_loop :
      Side → List ℕ → (ℕ → Reading) → ℕ → ℕ → Session S → Option (Session S)
  client_loop side ready read zero position w = none
  client_loop side ready read (suc fuel) position w =
      elim (get_elem? w.net.client_fd_list position) [
        | none ↦ some w
        | some c ↦
            let skipped = client_loop side ready read fuel (suc position) w in
            let served : Option (Session S) = elim (read c.fd) [
              | closed_by_peer ↦
                  client_loop side ready read fuel position (drop_client side position c w)
              | failed ↦ client_loop side ready read fuel position (drop_client side position c w)
              | got b bytes ↦ elim (serve_client position c (b ∷ bytes) w) [
                | none ↦ none
                | some w' ↦ client_loop side ready read fuel (suc position) w'
              ]
            ] in
            if fd_isset c.fd ready then served else skipped
      ]
