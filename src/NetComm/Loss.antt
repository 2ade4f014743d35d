-- ===== src/NetComm/Loss.antt =====
-- Reads that end at the wrong place lose a message.
use pyconnect.NetComm.StreamSafety.{rounds_step}
use pyconnect.NetComm.Delivery.{round-header, round-idle}
use pyconnect.NetComm.Caching.{FitsBuffer, Holds, header, start_caching-Holds}
use pyconnect.Base.{
  Bytes, [], arith, length, none, refl, suc, ℕ, ◌++◌, ◌+◌, ◌<◌, ◌∙◌, ◌∷◌, ◌≡◌, ◌≢◌,
}
use pyconnect.Common.Types.{msg_buffer_size, msg_end, msg_init}
use pyconnect.NetComm.Stream.{
  DataInfo, finished, go_on, leave, new_message, receive, receive_all, receive_all_step, reset,
  round, sized_message, start_caching,
}

receive-leave :
    (info : DataInfo) (b : ℕ) (chunk : Bytes) {info' : DataInfo}
    → round info (b ∷ chunk) (suc (length chunk)) ≡ leave info'
    → receive info (b ∷ chunk) ≡ finished info' []
unfolding receive
receive-leave info b chunk e =
    rw (rounds_step (length chunk) info (b ∷ chunk) (suc (length chunk)), e)

receive_all_two :
    (info : DataInfo) (first second : Bytes) {info' info'' : DataInfo}
    → receive info first ≡ finished info' []
    → receive info' second ≡ finished info'' []
    → receive_all info (first ∷ second ∷ []) ≡ finished info'' []
receive_all_two info first second {info'} {info''} e e' =
    receive_all_step info first (second ∷ []) e
    ∙ rw (receive_all_step info' second [] e') (unfold receive_all in refl)

reset-Holds :
    (info : DataInfo) → length info.buffered_data ≡ msg_buffer_size → Holds (reset info) [] []
reset-Holds info e = record {
  allocated = e;
  fits = omega arith;
  cached = refl;
  cached_length = refl;
  expected = refl;
}

-- Nothing is expected, and the read does not begin with `#`.
round-unexpected :
    (info : DataInfo) (b : ℕ) (chunk : Bytes) (n : ℕ)
    → info.expected_data_length ≡ 0
    → b ≢ msg_init
    → round info (b ∷ chunk) n ≡ leave (reset info)
unfolding round
round-unexpected info b chunk n e h = ground arith

-- Caching a message up to its last byte leaves nothing to expect.
sized_message-all :
    (info : DataInfo) (message : Bytes)
    → FitsBuffer message
    → 0 < length message
    → sized_message info message (length message) (length message)
      ≡ start_caching info message (length message) (length message + 0)
unfolding sized_message
sized_message-all info message f p = ground arith

round-all :
    (info : DataInfo) (message : Bytes)
    → Holds info [] []
    → FitsBuffer message
    → 0 < length message
    → (info' : DataInfo) × (round info
          (header message ++ message)
          (length (header message ++ message))
        ≡ go_on info' message 0 none)
      × Holds info' message []
round-all info message h f p =
    let (info', e, k) = start_caching-Holds info message [] h (omega arith) in
    (info', round-header info message message h f p ∙ sized_message-all info message f p ∙ e, k)

-- On a connection that holds nothing: if one read ends in front of the byte that ends a message,
-- and the next one brings that byte, the message is not handed on and the connection holds nothing,
-- for every message that is not empty and fits the buffer.
pub receive_all_loses_last :
    (info : DataInfo) (message : Bytes)
    → Holds info [] []
    → FitsBuffer message
    → 0 < length message
    → (info' : DataInfo) × (receive_all info ((header message ++ message) ∷ (msg_end ∷ []) ∷ [])
        ≡ finished info' [])
      × Holds info' [] []
receive_all_loses_last info message h f p =
    let (cached, r, k) = round-all info message h f p in
    let first : receive info (header message ++ message) ≡ finished cached [] =
      unfold receive in
      rw (
        rounds_step (suc (suc (length message))) info (header message ++ message)
            (length (header message ++ message)),
        r,
      ) in
    let second =
      receive-leave cached msg_end []
        (round-unexpected cached msg_end [] 1 k.expected (omega arith)) in
    (reset cached, receive_all_two info _ _ first second, reset-Holds cached k.allocated)

new_message-short :
    (info : DataInfo) (lo hi : ℕ) → new_message info (msg_init ∷ lo ∷ hi ∷ []) 3 ≡ leave info
unfolding new_message
new_message-short info lo hi = refl

-- On a connection that holds nothing: if one read brings only the first three bytes of a frame, the
-- header, and the message does not begin with `#`, then the next read with the rest of the frame is
-- thrown away, and nothing is handed on.
pub receive_all_loses_header :
    (info : DataInfo) (lo hi b : ℕ) (message : Bytes)
    → Holds info [] []
    → b ≢ msg_init
    → (info' : DataInfo) × (receive_all info
          ((msg_init ∷ lo ∷ hi ∷ []) ∷ (b ∷ (message ++ (msg_end ∷ []))) ∷ [])
        ≡ finished info' [])
      × Holds info' [] []
receive_all_loses_header info lo hi b message h n =
    let tail = message ++ (msg_end ∷ []) in
    let first =
      receive-leave info msg_init (lo ∷ hi ∷ [])
        (round-idle info (lo ∷ hi ∷ []) 3 h ∙ new_message-short info lo hi) in
    let second =
      receive-leave info b tail (round-unexpected info b tail (suc (length tail)) h.expected n) in
    (reset info, receive_all_two info _ _ first second, reset-Holds info h.allocated)
