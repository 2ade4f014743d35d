-- ===== src/NetComm/Arrival.antt =====
-- A message on its way over one connection: from `clientDataSend` through the event loop of the other
-- program to its message processor.
use pyconnect.NetComm.Incoming.{
  ProcessInput, Reading, Session, client_loop, give, give_all, got, serve_client, set_comm,
  set_data_info,
}
use pyconnect.Base.{
  Bytes, List, Option, [], ap, append-nil, arith, false, get_elem?, length, none, refl, set, some,
  sym, true, ℕ, ◌∙◌, ◌∷◌, ◌≡◌, ◌≤◌,
}
use pyconnect.Common.Cipher.{
  Evp, EvpLaws, decrypt_message, decrypt_message-encrypt_message, done, encrypt_message,
}
use pyconnect.ObjComm.Channels.{ObjectComm, Side, find_or_add, set_last_used}
use pyconnect.NetComm.Frame.{dispatch_frame, dispatch_frame_iff, frame, length-frame}
use pyconnect.NetComm.Stream.{DataInfo, finished, receive}
use pyconnect.NetComm.Caching.{FitsBuffer, Holds}
use pyconnect.NetComm.Delivery.{Cut, receive-Cut}
use pyconnect.NetComm.Clients.{ClientFd, NetComm, fd_isset}
use pyconnect.NetComm.Sending.{client_data_send, stream, write_frame}

-- An encrypted message whose channel is known leaves as one frame on it.
client_data_send-frame :
    (evp : Evp) (side : Side) (first second : ℕ) (rest out : Bytes) (s : NetComm) (c : ObjectComm)
    (index : ℕ)
    → encrypt_message evp (first ∷ second ∷ rest) ≡ done out
    → find_or_add side first second s.object_comm ≡ (c, some index)
    → length out ≤ 10236
    → client_data_send evp side (first ∷ second ∷ rest) s
      ≡ some (record s { object_comm = c }, stream index (frame out) ∷ [])
unfolding client_data_send
client_data_send-frame evp side first second rest out s c index e f h =
    let fits : dispatch_frame out ≡ some (frame out) = (dispatch_frame_iff out).1 h in
    rw (e, client_data_send)
      (rw (f, write_frame)
        (rw (fits, write_frame)
          (ap
            (λ (r : ObjectComm × Option ℕ).
              some (record s { object_comm = r.0 }, stream index (frame out) ∷ []))
            f)))

-- A read that brings a whole frame to an idle connection gives its message.
receive-frame :
    (info : DataInfo) (out : Bytes)
    → Holds info [] []
    → FitsBuffer out
    → (info' : DataInfo) × (receive info (frame out) ≡ finished info' (out ∷ []))
      × Holds info' [] []
receive-frame info out h fits =
    receive-Cut info (omega (arith, length-frame out))
      (Cut.whole out fits (sym (append-nil (frame out))) Cut.nothing) h

module _ {S : Type 0} (process_input : ProcessInput S) (side : Side) (ready : List ℕ)
    (readings : ℕ → Reading) (w : Session S) (c : ClientFd) (out : Bytes)
    (only : w.net.client_fd_list ≡ c ∷ []) (idle : Holds c.data_info [] []) (fits : FitsBuffer out)
    (b : ℕ) (bytes : Bytes) (framed : b ∷ bytes ≡ frame out) (is_ready : fd_isset c.fd ready ≡ true)
    (brings : readings c.fd ≡ got b bytes) where
  abbrev before : Session S
  before = set_comm (record w.net.object_comm { active_channel = some c.fd }) w

  serve_client-frame :
      (info : DataInfo) × Holds info [] []
      × (serve_client process_input 0 c (b ∷ bytes) w
          ≡ some (record (give process_input out c.client_addr false before).0 {
            net =
                set_data_info process_input 0 c info
                  (give process_input out c.client_addr false before).0.net;
          }))
  unfolding serve_client set_last_used give_all
  serve_client-frame =
      let (info, e, h) = receive-frame c.data_info out idle fits in
      (info, h, rw (ap (receive c.data_info) framed ∙ e, serve_client) refl)

  client_loop-frame :
      (t : Session S) (info : DataInfo)
      → serve_client process_input 0 c (b ∷ bytes) w ≡ some t
      → t.net.client_fd_list ≡ record c { data_info = info } ∷ []
      → client_loop process_input side ready readings 2 0 w ≡ some t
  unfolding client_loop
  client_loop-frame t info served list =
      let here : get_elem? w.net.client_fd_list 0 ≡ some c = ap (λ l. get_elem? l 0) only in
      let over : get_elem? t.net.client_fd_list 1 ≡ none = ap (λ l. get_elem? l 1) list in
      rw (here, client_loop)
        (rw is_ready
          (rw (brings, client_loop) (rw (served, client_loop) (rw (over, client_loop) refl))))

  -- The event loop gives the message of the frame to the processor, once, and the connection is idle
  -- again.
  client_loop-arrives :
      (t : Session S) × (client_loop process_input side ready readings 2 0 w ≡ some t)
      × (t.processor
          ≡ (process_input out c.client_addr false
              (record w.net.object_comm { active_channel = some c.fd })
              w.processor).1)
      × (info : DataInfo) × (t.net.client_fd_list ≡ record c { data_info = info } ∷ [])
      × Holds info [] []
  unfolding give
  client_loop-arrives =
      let (info, h, served) = serve_client-frame in
      let list = ap (λ l. set l 0 (record c { data_info = info })) only in
      (_, client_loop-frame _ info served list, refl, info, list, h)

-- A message that one program sends reaches the message processor of the other: when it was encrypted
-- to at most 10236 bytes and its channel is known, it leaves as one frame; and when the frame is
-- read at once from the other program's only connection, which is idle, two steps of the event loop's
-- walk over the connections give the processor the encrypted message, once, with the address of the
-- connection, where it decrypts to the message that was sent; then the connection is idle again.
pub message_arrives :
    {S : Type 0} (evp : Evp) (sender side : Side) (first second : ℕ) (rest out : Bytes)
    (s : NetComm) (comm : ObjectComm) (index : ℕ) (process_input : ProcessInput S) (ready : List ℕ)
    (readings : ℕ → Reading) (w : Session S) (c : ClientFd) (b : ℕ) (bytes : Bytes)
    → EvpLaws evp
    → encrypt_message evp (first ∷ second ∷ rest) ≡ done out
    → length out ≤ 10236
    → find_or_add sender first second s.object_comm ≡ (comm, some index)
    → b ∷ bytes ≡ frame out
    → w.net.client_fd_list ≡ c ∷ []
    → Holds c.data_info [] []
    → fd_isset c.fd ready ≡ true
    → readings c.fd ≡ got b bytes
    → (client_data_send evp sender (first ∷ second ∷ rest) s
        ≡ some (record s { object_comm = comm }, stream index (b ∷ bytes) ∷ []))
      × (decrypt_message evp out ≡ done (first ∷ second ∷ rest))
      × (t : Session S) × (client_loop process_input side ready readings 2 0 w ≡ some t)
      × (t.processor
          ≡ (process_input out c.client_addr false
              (record w.net.object_comm { active_channel = some c.fd })
              w.processor).1)
      × (info : DataInfo) × (t.net.client_fd_list ≡ record c { data_info = info } ∷ [])
      × Holds info [] []
message_arrives evp sender side first second rest out s comm index process_input ready readings w c
      b bytes laws e h f framed only idle is_ready brings =
    let (t, looped, state, info, list, idle') =
      client_loop-arrives process_input side ready readings w c out only idle (omega arith) b bytes
        framed is_ready brings in
    (
      client_data_send-frame evp sender first second rest out s comm index e f h
          ∙ ap (λ l. some (record s { object_comm = comm }, stream index l ∷ [])) (sym framed),
      decrypt_message-encrypt_message evp (first ∷ second ∷ rest) laws e,
      t,
      looped,
      state,
      info,
      list,
      idle',
    )
