-- ===== src/NetComm/StreamSafety.antt =====
-- The receiving loop stays inside its buffers and ends, on any input.
use pyconnect.Base.{
  All, Bytes, List, Option, [], arith, drop, get_elem?-total, if_elim, if◌then◌else◌, inl, inr, leb,
  length, length-drop, length-take, ltb, ltb→le, none, refl, some, subst, suc, take, tests, true,
  write_at_lem, zero, ℕ, ◌&&◌, ◌++◌, ◌+◌, ◌-◌, ◌<◌, ◌==◌, ◌^◌, ◌∷◌, ◌≡◌, ◌≤◌, ◌⊎◌,
}
use pyconnect.Common.Types.{msg_buffer_size, msg_end, msg_init}
use pyconnect.Common.Pack.{le_number}
use pyconnect.NetComm.Stream.{
  DataInfo, Outcome, Round, cache, complete_message, continue_message, deliver, fault, faulted,
  finished, go_on, keep_caching, leave, new_message, out_of_fuel, preceded_by, receive, receive_all,
  receive_all_step, reset, round, rounds, sized_message, start_caching, whole_message,
}

-- The buffer has its size, and what is cached and still expected fits it.
pub record IsValid (info : DataInfo) : Type 0 where
  pub allocated : length info.buffered_data ≡ msg_buffer_size
  pub fits : info.buffered_data_length + info.expected_data_length ≤ msg_buffer_size

-- `cache` succeeds inside the bounds, and puts the new bytes behind the cached ones.
pub cache_lem :
    (info : DataInfo) (at : ℕ) (from : Bytes) (n : ℕ)
    → n ≤ length from
    → at + n ≤ length info.buffered_data
    → (buffer : Bytes) × (cache info at from n ≡ some buffer)
      × (length buffer ≡ length info.buffered_data)
      × (take (at + n) buffer ≡ take at info.buffered_data ++ take n from)
unfolding cache
cache_lem info at from n h k =
    let size = length-take n from h in
    let (buffer, e, l, front) =
      write_at_lem at (take n from) info.buffered_data (omega (arith, size)) in
    (
      buffer,
      rw (unfold-leb n from h) e,
      l,
      subst (λ k. take (at + k) buffer ≡ take at info.buffered_data ++ take n from) size front,
    )
  where
    unfold-leb : (n : ℕ) (from : Bytes) → n ≤ length from → leb n (length from) ≡ true
    unfold-leb n from h = ground arith

-- What a round leaves behind when `read_len` bytes were there.
abbrev RoundIsSafe : ℕ → Round → Type 0
RoundIsSafe read_len (go_on info rest left message) =
    IsValid info × (left < read_len) × ((left ≡ 0) ⊎ (left ≡ length rest))
RoundIsSafe read_len (leave info) = IsValid info
RoundIsSafe read_len fault = ⊥

start_caching-IsSafe :
    (info : DataInfo) (data_ptr : Bytes) (left count : ℕ)
    → IsValid info
    → left ≡ length data_ptr
    → left ≤ count
    → count ≤ msg_buffer_size
    → RoundIsSafe (left + 3) (start_caching info data_ptr left count)
unfolding start_caching
start_caching-IsSafe info data_ptr left count v e h k =
    let (buffer, c, l, _) = cache_lem info 0 data_ptr left (omega arith) (omega arith) in
    rw (c, start_caching)
      (record { allocated = omega arith; fits = omega arith }, omega arith, inl refl)

whole_message-IsSafe :
    (info : DataInfo) (data_ptr : Bytes) (left count : ℕ)
    → IsValid info
    → left ≡ length data_ptr
    → count < left
    → RoundIsSafe (left + 3) (whole_message info data_ptr left count)
unfolding whole_message
whole_message-IsSafe info data_ptr left count v e h =
    let (b, found) = get_elem?-total data_ptr count (omega arith) in
    rw (found, whole_message)
      (if_elim (RoundIsSafe (left + 3)) (b == msg_end) _ _
        (λ _. (v, omega arith, inr (omega (arith, length-drop (count + 1) data_ptr)))) (λ _. v))

sized_message-IsSafe :
    (info : DataInfo) (data_ptr : Bytes) (left count : ℕ)
    → IsValid info
    → left ≡ length data_ptr
    → 0 < left
    → RoundIsSafe (left + 3) (sized_message info data_ptr left count)
unfolding sized_message
sized_message-IsSafe info data_ptr left count v e p =
    if_elim Safe (leb (2 ^ 15) count) _ _ (λ _. v)
      λ _.
        if_elim Safe (ltb msg_buffer_size count) _ _ (λ _. v)
          λ small.
            if_elim Safe (ltb (left - 1) count) _ _
              (λ part.
                start_caching-IsSafe info data_ptr left count v e (omega tests) (omega tests))
              (λ whole. whole_message-IsSafe info data_ptr left count v e (omega tests))
  where
    Safe : Round → Type 0
    Safe = RoundIsSafe (left + 3)

new_message-IsSafe :
    (info : DataInfo) (data_ptr : Bytes) (read_len : ℕ)
    → IsValid info
    → read_len ≡ length data_ptr
    → RoundIsSafe read_len (new_message info data_ptr read_len)
unfolding new_message
new_message-IsSafe info data_ptr read_len v e =
    if_elim (RoundIsSafe read_len) (ltb read_len 4) _ _ (λ _. v)
      λ enough.
        if_elim (RoundIsSafe read_len) (ltb (length data_ptr) 3) _ _ (λ short. absurd (omega tests))
          λ _.
            subst (λ n. RoundIsSafe n (sized_message info (drop 3 data_ptr) (read_len - 3) count))
              (restore (ltb→le read_len 4 enough))
              (sized_message-IsSafe info (drop 3 data_ptr) (read_len - 3) count v
                (omega (arith, length-drop 3 data_ptr)) (omega tests))
  where
    count : ℕ
    count = le_number (take 2 (drop 1 data_ptr))

    restore : 4 ≤ read_len → read_len - 3 + 3 ≡ read_len
    restore h = omega arith

keep_caching-IsSafe :
    (info : DataInfo) (data_ptr : Bytes) (read_len : ℕ)
    → IsValid info
    → read_len ≡ length data_ptr
    → 0 < read_len
    → read_len ≤ info.expected_data_length
    → RoundIsSafe read_len (keep_caching info data_ptr read_len)
unfolding keep_caching
keep_caching-IsSafe info data_ptr read_len v e p h =
    let at = info.buffered_data_length in
    let (buffer, c, l, _) = cache_lem info at data_ptr read_len (omega arith) (omega arith) in
    rw (c, keep_caching)
      (record { allocated = omega arith; fits = omega arith }, omega arith, inl refl)

complete_message-IsSafe :
    (info : DataInfo) (data_ptr : Bytes) (read_len : ℕ)
    → IsValid info
    → read_len ≡ length data_ptr
    → info.expected_data_length < read_len
    → RoundIsSafe read_len (complete_message info data_ptr read_len)
unfolding complete_message
complete_message-IsSafe info data_ptr read_len v e h =
    let at = info.buffered_data_length in
    let n = info.expected_data_length in
    let (buffer, c, l, _) = cache_lem info at data_ptr n (omega arith) (omega arith) in
    rw (c, complete_message)
      (
        record { allocated = omega arith; fits = omega arith },
        omega arith,
        inr (omega (arith, length-drop (n + 1) data_ptr)),
      )

reset-IsValid : (info : DataInfo) → IsValid info → IsValid (reset info)
reset-IsValid info v = record { allocated = v.allocated; fits = omega arith }

continue_message-IsSafe :
    (info : DataInfo) (data_ptr : Bytes) (read_len : ℕ)
    → IsValid info
    → read_len ≡ length data_ptr
    → 0 < read_len
    → RoundIsSafe read_len (continue_message info data_ptr read_len)
unfolding continue_message
continue_message-IsSafe info data_ptr read_len v e p =
    if_elim (RoundIsSafe read_len) (ltb (read_len - 1) info.expected_data_length) _ _
      (λ part. keep_caching-IsSafe info data_ptr read_len v e p (omega tests))
      (λ whole.
        let inside = ltb→le (read_len - 1) info.expected_data_length whole in
        let (b, found) = get_elem?-total data_ptr info.expected_data_length (omega arith) in
        rw (found, continue_message)
          (if_elim (RoundIsSafe read_len) (b == msg_end) _ _
            (λ _. complete_message-IsSafe info data_ptr read_len v e (omega arith))
            (λ _. reset-IsValid info v)))

round-IsSafe :
    (info : DataInfo) (data_ptr : Bytes) (read_len : ℕ)
    → IsValid info
    → read_len ≡ length data_ptr
    → 0 < read_len
    → RoundIsSafe read_len (round info data_ptr read_len)
unfolding round
round-IsSafe info [] read_len v e p = absurd (omega arith)
round-IsSafe info (b ∷ data_ptr) read_len v e p =
    if_elim (RoundIsSafe read_len) (b == msg_init && info.expected_data_length == 0) _ _
      (λ _. new_message-IsSafe info (b ∷ data_ptr) read_len v e)
      λ _.
        if_elim (RoundIsSafe read_len) (ltb 0 info.expected_data_length) _ _
          (λ _. continue_message-IsSafe info (b ∷ data_ptr) read_len v e p)
          (λ _. reset-IsValid info v)

-- The run ended by itself, inside the buffers, with a valid buffer.
abbrev pub Finishes : Outcome → Type 0
Finishes (finished info messages) = IsValid info
Finishes faulted = ⊥
Finishes out_of_fuel = ⊥

Finishes-deliver :
    (message : Option Bytes) (o : Outcome) → Finishes o → Finishes (deliver message o)
Finishes-deliver none o h = h
Finishes-deliver (some m) (finished info messages) h = h
Finishes-deliver (some m) faulted h = h
Finishes-deliver (some m) out_of_fuel h = h

-- One round from what `round` is known to give, and the rounds behind it.
abbrev pub after_round : ℕ → Round → Outcome
after_round fuel (go_on info rest left message) =
    let more = rounds fuel info rest left in
    deliver message (if ltb 0 left then more else finished info [])
after_round fuel (leave info) = finished info []
after_round fuel fault = faulted

pub rounds_step :
    (fuel : ℕ) (info : DataInfo) (data_ptr : Bytes) (n : ℕ)
    → rounds (suc fuel) info data_ptr n ≡ after_round fuel (round info data_ptr n)
unfolding rounds
rounds_step fuel info data_ptr n = refl

after_round-Finishes :
    (fuel n : ℕ) (r : Round)
    → RoundIsSafe n r
    → n ≤ suc fuel
    → ((info : DataInfo) (rest : Bytes) (left : ℕ)
        → IsValid info
        → left ≡ length rest
        → 0 < left
        → left ≤ fuel
        → Finishes (rounds fuel info rest left))
    → Finishes (after_round fuel r)
after_round-Finishes fuel n (go_on info rest left message) (v, lt, here) h ih =
    Finishes-deliver message _ (
      if_elim Finishes (ltb 0 left) _ _
        (λ some_left. ih info rest left v (there here some_left) (omega tests) (omega tests))
        (λ _. v))
  where
    there : (left ≡ 0) ⊎ (left ≡ length rest) → ltb 0 left ≡ true → left ≡ length rest
    there here t = omega tests
after_round-Finishes fuel n (leave info) v h ih = v
after_round-Finishes fuel n fault v h ih = v

rounds-Finishes :
    (fuel : ℕ) (info : DataInfo) (data_ptr : Bytes) (n : ℕ)
    → IsValid info
    → n ≡ length data_ptr
    → 0 < n
    → n ≤ fuel
    → Finishes (rounds fuel info data_ptr n)
rounds-Finishes zero info data_ptr n v e p h = absurd (omega arith)
rounds-Finishes (suc fuel) info data_ptr n v e p h =
    rw (rounds_step fuel info data_ptr n)
      (after_round-Finishes fuel n _ (round-IsSafe info data_ptr n v e p) h (rounds-Finishes fuel))

pub receive-Finishes :
    (info : DataInfo) (chunk : Bytes)
    → IsValid info
    → 0 < length chunk
    → Finishes (receive info chunk)
unfolding receive
receive-Finishes info chunk v p =
    rounds-Finishes (length chunk) info chunk (length chunk) v refl p (omega arith)

Finishes-preceded_by :
    (messages : List Bytes) (o : Outcome) → Finishes o → Finishes (preceded_by messages o)
Finishes-preceded_by messages (finished info more) h = h
Finishes-preceded_by messages faulted h = h
Finishes-preceded_by messages out_of_fuel h = h

-- Any sequence of reads on a valid connection buffer, none of them empty, is processed to its end:
-- the loop stops by itself, no read leaves the received bytes, no write leaves the buffer, and the
-- buffer is valid afterwards.
pub receive_all-Finishes :
    (chunks : List Bytes) (info : DataInfo)
    → IsValid info
    → All (λ c. 0 < length c) chunks
    → Finishes (receive_all info chunks)
receive_all-Finishes [] info v ps = unfold receive_all in v
receive_all-Finishes (c ∷ chunks) info v (p, ps) =
    step (receive info c) refl (receive-Finishes info c v p)
      (λ info' w. receive_all-Finishes chunks info' w ps)
  where
    step :
        (o : Outcome)
        → receive info c ≡ o
        → Finishes o
        → ((i : DataInfo) → IsValid i → Finishes (receive_all i chunks))
        → Finishes (receive_all info (c ∷ chunks))
    step (finished info' messages) e w ih =
        rw (receive_all_step info c chunks e) (Finishes-preceded_by messages _ (ih info' w))
    step faulted e w ih = absurd w
    step out_of_fuel e w ih = absurd w
