-- ===== src/NetComm/Delivery.antt =====
-- Which messages come out of a stream of frames, when the reads do not cut it inside a header or in
-- front of the byte that ends a message.
use pyconnect.Base.{
  Bytes, List, [], ap, arith, if◌then◌else◌, length, length-append, ltb, lt→ltb, none, refl, some,
  subst, suc, zero, ℕ, ◌++◌, ◌+◌, ◌<◌, ◌∙◌, ◌∷◌, ◌≡◌, ◌≤◌,
}
use pyconnect.Common.Types.{msg_end, msg_init}
use pyconnect.NetComm.Frame.{frame, length-frame}
use pyconnect.NetComm.Stream.{
  DataInfo, Outcome, Round, continue_message, deliver, finished, go_on, new_message, receive,
  receive_all, receive_all_step, round, rounds, sized_message,
}
use pyconnect.NetComm.StreamSafety.{after_round, rounds_step}
use pyconnect.NetComm.Caching.{
  FitsBuffer, Holds, complete_message-Holds, frame_lem, header, keep_caching-Holds,
  new_message-header, sized_message-part, sized_message-whole, start_caching-Holds,
}

-- `Cut part missing chunk messages part' missing'`: after `part` of a message, of which `missing`
-- is still to come, the bytes `chunk` bring the ends of `messages`, and leave `part'` of a message of
-- which `missing'` is still to come. A message that is not begun has no part and misses nothing.
pub data Cut : Bytes → Bytes → Bytes → List Bytes → Bytes → Bytes → Type 0 where
  -- the read ends between two frames
  nothing : Cut [] [] [] [] [] []
  -- a whole frame
  whole :
      {chunk rest p q : Bytes} {ms : List Bytes} (m : Bytes)
      → FitsBuffer m
      → chunk ≡ frame m ++ rest
      → Cut [] [] rest ms p q
      → Cut [] [] chunk (m ∷ ms) p q
  -- the header and the first bytes of a message
  begin :
      {chunk part missing : Bytes}
      → FitsBuffer (part ++ missing)
      → 0 < length part
      → 0 < length missing
      → chunk ≡ header (part ++ missing) ++ part
      → Cut [] [] chunk [] part missing
  -- bytes from the middle of a message
  middle :
      {part missing chunk part' missing' : Bytes}
      → 0 < length chunk
      → 0 < length missing'
      → missing ≡ chunk ++ missing'
      → part' ≡ part ++ chunk
      → Cut part missing chunk [] part' missing'
  -- the rest of a message and the byte that ends it
  end :
      {part missing chunk rest p q m : Bytes} {ms : List Bytes}
      → 0 < length missing
      → chunk ≡ missing ++ (msg_end ∷ rest)
      → m ≡ part ++ missing
      → Cut [] [] rest ms p q
      → Cut part missing chunk (m ∷ ms) p q

pub round-idle :
    (info : DataInfo) (tail : Bytes) (n : ℕ)
    → Holds info [] []
    → round info (msg_init ∷ tail) n ≡ new_message info (msg_init ∷ tail) n
unfolding round
round-idle info tail n h = ground (arith, h.expected)

round-caching :
    (info : DataInfo) (chunk : Bytes) (n : ℕ)
    → 0 < info.expected_data_length
    → 0 < length chunk
    → round info chunk n ≡ continue_message info chunk n
unfolding round
round-caching info [] n h p = absurd (omega arith)
round-caching info (b ∷ chunk) n h p = ground arith

pub round-header :
    (info : DataInfo) (m tail : Bytes)
    → Holds info [] []
    → FitsBuffer m
    → 0 < length tail
    → round info (header m ++ tail) (length (header m ++ tail))
      ≡ sized_message info tail (length tail) (length m)
round-header info m tail h f p =
    round-idle info _ _ h
    ∙ ap (new_message info (header m ++ tail)) size
    ∙ new_message-header info m tail f p
  where
    size : length (header m ++ tail) ≡ length tail + 3
    size = omega arith

round-whole :
    (info : DataInfo) (m rest : Bytes)
    → Holds info [] []
    → FitsBuffer m
    → round info (frame m ++ rest) (length (frame m ++ rest))
      ≡ go_on info rest (length rest) (some m)
round-whole info m rest h f = rw (frame_lem m rest) (
    round-header info m (m ++ (msg_end ∷ rest)) h f (omega (arith, size))
    ∙ ap (λ n. sized_message info (m ++ (msg_end ∷ rest)) n (length m)) size
    ∙ sized_message-whole info m rest f)
  where
    size : length (m ++ (msg_end ∷ rest)) ≡ length m + (1 + length rest)
    size = omega (arith, length-append {0} m (msg_end ∷ rest))

round-begin :
    (info : DataInfo) (part missing : Bytes)
    → Holds info [] []
    → FitsBuffer (part ++ missing)
    → 0 < length part
    → 0 < length missing
    → (info' : DataInfo) × (round info
          (header (part ++ missing) ++ part)
          (length (header (part ++ missing) ++ part))
        ≡ go_on info' part 0 none)
      × Holds info' part missing
round-begin info part missing h f p q =
    let both = length-append part missing in
    let (info', e, k) = start_caching-Holds info part missing h (omega (arith, f, both)) in
    (
      info',
      round-header info (part ++ missing) part h f p
          ∙ ap (sized_message info part (length part)) both
          ∙ sized_message-part info part missing (omega (arith, f, both)) p q
          ∙ e,
      k,
    )

-- The rounds behind a round that went on.
abbrev pub rest_rounds : ℕ → DataInfo → Bytes → Outcome
rest_rounds fuel info chunk =
    let more = rounds fuel info chunk (length chunk) in
    if ltb 0 (length chunk) then more else finished info []

abbrev pub Delivered : Outcome → List Bytes → Bytes → Bytes → Type 0
Delivered o ms p q = (info : DataInfo) × (o ≡ finished info ms) × Holds info p q

pub one_round :
    (fuel : ℕ) (info : DataInfo) (chunk : Bytes) (r : Round)
    → 0 < length chunk
    → round info chunk (length chunk) ≡ r
    → rest_rounds (suc fuel) info chunk ≡ after_round fuel r
one_round fuel info chunk r p e =
    rw (lt→ltb 0 (length chunk) p, rounds_step fuel info chunk (length chunk), e) refl

step-Delivered :
    (fuel : ℕ) (info info' : DataInfo) (chunk rest m p q : Bytes) (ms : List Bytes)
    → 0 < length chunk
    → round info chunk (length chunk) ≡ go_on info' rest (length rest) (some m)
    → Delivered (rest_rounds fuel info' rest) ms p q
    → Delivered (rest_rounds (suc fuel) info chunk) (m ∷ ms) p q
step-Delivered fuel info info' chunk rest m p q ms n e (last, d, h) =
    (last, one_round fuel info chunk _ n e ∙ ap (deliver (some m)) d, h)

pub stop-Delivered :
    (fuel : ℕ) (info info' : DataInfo) (chunk rest p q : Bytes)
    → 0 < length chunk
    → round info chunk (length chunk) ≡ go_on info' rest 0 none
    → Holds info' p q
    → Delivered (rest_rounds (suc fuel) info chunk) [] p q
stop-Delivered fuel info info' chunk rest p q n e h = (info', one_round fuel info chunk _ n e, h)

length-whole :
    (chunk rest m : Bytes) → chunk ≡ frame m ++ rest → length chunk ≡ length m + 4 + length rest
length-whole chunk rest m e =
    omega (arith, ap length e, length-append {0} (frame m) rest, length-frame m)

length-end :
    (chunk rest missing : Bytes)
    → chunk ≡ missing ++ (msg_end ∷ rest)
    → length chunk ≡ length missing + (1 + length rest)
length-end chunk rest missing e =
    omega (arith, ap length e, length-append {0} missing (msg_end ∷ rest))

middle-Delivered :
    (fuel : ℕ) (info : DataInfo) (part chunk missing : Bytes)
    → Holds info part (chunk ++ missing)
    → 0 < length chunk
    → 0 < length missing
    → Delivered (rest_rounds (suc fuel) info chunk) [] (part ++ chunk) missing
middle-Delivered fuel info part chunk missing h p q =
    let (info', e, k) = keep_caching-Holds info part chunk missing h p in
    stop-Delivered fuel info info' chunk chunk (part ++ chunk) missing p
      (round-caching info chunk (length chunk)
          (omega (arith, h.expected, length-append {0} chunk missing)) p
        ∙ e)
      k

rest_rounds-Cut :
    (fuel : ℕ) (info : DataInfo) {part missing chunk p q : Bytes} {ms : List Bytes}
    → Cut part missing chunk ms p q
    → Holds info part missing
    → length chunk ≤ fuel
    → Delivered (rest_rounds fuel info chunk) ms p q
rest_rounds-Cut fuel info nothing h k = (info, refl, h)
rest_rounds-Cut zero info (whole {chunk = chunk} {rest = rest} m f e c) h k =
    absurd (omega (arith, length-whole chunk rest m e))
rest_rounds-Cut (suc fuel) info
      (whole {chunk = chunk} {rest = rest} {p = p} {q = q} {ms = ms} m f e c) h k =
    let size = length-whole chunk rest m e in
    step-Delivered fuel info info chunk rest m p q ms (omega arith)
      (rw e (round-whole info m rest h f)) (rest_rounds-Cut fuel info c h (omega arith))
rest_rounds-Cut zero info (begin {part = part} f p q e) h k = absurd (omega (arith, ap length e))
rest_rounds-Cut (suc fuel) info (begin {chunk = chunk} {part = part} {missing = missing} f p q e) h
      k =
    let (info', r, w) = round-begin info part missing h f p q in
    stop-Delivered fuel info info' chunk part part missing (omega (arith, ap length e)) (rw e r) w
rest_rounds-Cut zero info (middle p q e e') h k = absurd (omega arith)
rest_rounds-Cut (suc fuel) info
      (middle {part = part} {chunk = chunk} {missing' = missing'} p q e e') h k =
    rw e' (middle-Delivered fuel info part chunk missing' (subst (Holds info part) e h) p q)
rest_rounds-Cut zero info (end {missing = missing} {chunk = chunk} {rest = rest} p e e' c) h k =
    absurd (omega (arith, length-end chunk rest missing e))
rest_rounds-Cut (suc fuel) info
      (end {part = part} {missing = missing} {chunk = chunk} {rest = rest} {p = p'} {q = q'}
        {ms = ms} p e e' c)
      h k =
    let size = length-end chunk rest missing e in
    let (info', r, w) = complete_message-Holds info part missing rest h in
    let finishing : round info chunk (length chunk)
        ≡ go_on info' rest (length rest) (some (part ++ missing)) =
      round-caching info chunk (length chunk) (omega (arith, h.expected)) (omega arith)
      ∙ rw (size, e) r in
    rw e' (
      step-Delivered fuel info info' chunk rest (part ++ missing) p' q' ms (omega arith) finishing
        (rest_rounds-Cut fuel info' c w (omega arith)))

pub receive-Cut :
    (info : DataInfo) {part missing chunk p q : Bytes} {ms : List Bytes}
    → 0 < length chunk
    → Cut part missing chunk ms p q
    → Holds info part missing
    → Delivered (receive info chunk) ms p q
unfolding receive
receive-Cut info {chunk = chunk} n c h =
    rw (lt→ltb 0 (length chunk) n) at (rest_rounds-Cut (length chunk) info c h (omega arith))

-- The reads on a connection, each of them not empty, and the messages that they complete.
pub data Cuts : Bytes → Bytes → List Bytes → List Bytes → Bytes → Bytes → Type 0 where
  no_more : {part missing : Bytes} → Cuts part missing [] [] part missing
  read :
      {part missing chunk p q p' q' : Bytes} {chunks ms ms' all : List Bytes}
      → 0 < length chunk
      → Cut part missing chunk ms p q
      → Cuts p q chunks ms' p' q'
      → all ≡ ms ++ ms'
      → Cuts part missing (chunk ∷ chunks) all p' q'

-- A connection that holds a part of a message, or nothing, and whose reads cut the stream of frames
-- only between frames or inside messages, hands on exactly the messages that were sent, whole and in
-- order, and ends up holding what the last read began.
pub receive_all-Cuts :
    (info : DataInfo) (part missing : Bytes) (chunks ms : List Bytes) (p q : Bytes)
    → Holds info part missing
    → Cuts part missing chunks ms p q
    → (info' : DataInfo) × (receive_all info chunks ≡ finished info' ms) × Holds info' p q
receive_all-Cuts info part missing chunks ms p q h c = go info c h
  where
    go :
        (info : DataInfo) {part missing p q : Bytes} {chunks ms : List Bytes}
        → Cuts part missing chunks ms p q
        → Holds info part missing
        → (info' : DataInfo) × (receive_all info chunks ≡ finished info' ms) × Holds info' p q
    go info no_more h = (info, unfold receive_all in refl, h)
    go info (read {chunk = chunk} {chunks = chunks} {ms = ms} n c cs e) h =
        let (info', d, h') = receive-Cut info n c h in
        let (info'', d', h'') = go info' cs h' in
        (info'', receive_all_step info chunk chunks d ∙ rw (d', e), h'')
