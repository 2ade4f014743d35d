-- ===== src/NetComm/Stream.antt =====
-- The inner loop of `processIncomingData`: the bytes of one `read` on a connection are cut into
-- messages, and an unfinished message is kept in the connection's buffer.
use pyconnect.Base.{
  Bytes, List, Option, [], drop, get_elem?, if◌then◌else◌, leb, length, ltb, none, some, suc, take,
  write_at, zero, ℕ, ◌&&◌, ◌++◌, ◌+◌, ◌-◌, ◌==◌, ◌^◌, ◌∷◌, ◌≡◌,
}
use pyconnect.Common.Types.{msg_buffer_size, msg_end, msg_init}
use pyconnect.Common.Pack.{le_number}

-- `SocketDataBufferInfo`; `buffered_data` is the whole buffer of `msg_buffer_size` bytes.
pub record DataInfo : Type 0 where
  pub buffered_data : Bytes
  pub expected_data_length : ℕ
  pub buffered_data_length : ℕ

-- One round of the `do` loop: it goes on behind `rest` with the new `readLen` and perhaps a message
-- for `processInput`, or leaves by `break`; `fault` is a read or write outside of a buffer.
pub data Round : Type 0 where
  go_on : DataInfo → Bytes → ℕ → Option Bytes → Round
  leave : DataInfo → Round
  fault : Round

-- `expectedDataLength = bufferedDataLength = 0`.
abbrev pub reset : DataInfo → DataInfo
reset info = record info { expected_data_length = 0; buffered_data_length = 0 }

-- `memcpy(bufferedData + at, from, n)`, both ends checked.
unfoldable pub cache : DataInfo → ℕ → Bytes → ℕ → Option Bytes
cache info at from n =
    if leb n (length from) then write_at at (take n from) info.buffered_data else none

-- The header is `#` and the length at `data`; `left` bytes are behind it.
unfoldable pub start_caching : DataInfo → Bytes → ℕ → ℕ → Round
start_caching info data_ptr left count = elim (cache info 0 data_ptr left) [
  | none ↦ fault
  | some buffer ↦
      go_on
        (record {
          buffered_data = buffer;
          expected_data_length = count - left;
          buffered_data_length = left;
        })
        data_ptr 0 none
]

unfoldable pub whole_message : DataInfo → Bytes → ℕ → ℕ → Round
whole_message info data_ptr left count = elim (get_elem? data_ptr count) [
  | none ↦ fault
  | some end ↦
      if end == msg_end
      then go_on info (drop (count + 1) data_ptr) (left - (count + 1)) (some (take count data_ptr))
      else leave info
]

-- `dataCount` is a `short`: from 2 ^ 15 on it is negative.
unfoldable pub sized_message : DataInfo → Bytes → ℕ → ℕ → Round
sized_message info data_ptr left count =
    if leb (2 ^ 15) count
    then leave info
    else if ltb msg_buffer_size count
    then leave info
    else if ltb (left - 1) count
    then start_caching info data_ptr left count
    else whole_message info data_ptr left count

unfoldable pub new_message : DataInfo → Bytes → ℕ → Round
new_message info data_ptr read_len =
    if ltb read_len 4
    then leave info
    else if ltb (length data_ptr) 3
    then fault
    else sized_message info (drop 3 data_ptr) (read_len - 3) (le_number (take 2 (drop 1 data_ptr)))

unfoldable pub keep_caching : DataInfo → Bytes → ℕ → Round
keep_caching info data_ptr read_len =
    elim (cache info info.buffered_data_length data_ptr read_len) [
      | none ↦ fault
      | some buffer ↦
          go_on
            (record {
              buffered_data = buffer;
              expected_data_length = info.expected_data_length - read_len;
              buffered_data_length = info.buffered_data_length + read_len;
            })
            data_ptr 0 none
    ]

unfoldable pub complete_message : DataInfo → Bytes → ℕ → Round
complete_message info data_ptr read_len =
    let expected = info.expected_data_length in
    elim (cache info info.buffered_data_length data_ptr expected) [
      | none ↦ fault
      | some buffer ↦
          go_on (reset (record info { buffered_data = buffer })) (drop (expected + 1) data_ptr)
            (read_len - (expected + 1)) (some (take (info.buffered_data_length + expected) buffer))
    ]

unfoldable pub continue_message : DataInfo → Bytes → ℕ → Round
continue_message info data_ptr read_len =
    if ltb (read_len - 1) info.expected_data_length
    then keep_caching info data_ptr read_len
    else elim (get_elem? data_ptr info.expected_data_length) [
      | none ↦ fault
      | some end ↦
          if end == msg_end then complete_message info data_ptr read_len else leave (reset info)
    ]

unfoldable pub round : DataInfo → Bytes → ℕ → Round
round info [] read_len = fault
round info (b ∷ data_ptr) read_len =
    if b == msg_init && info.expected_data_length == 0
    then new_message info (b ∷ data_ptr) read_len
    else if ltb 0 info.expected_data_length
    then continue_message info (b ∷ data_ptr) read_len
    else leave (reset info)

-- What one `read` does: the messages that go to `processInput`, in order, and the new buffer.
pub data Outcome : Type 0 where
  finished : DataInfo → List Bytes → Outcome
  faulted : Outcome
  out_of_fuel : Outcome

abbrev pub deliver : Option Bytes → Outcome → Outcome
deliver none o = o
deliver (some message) (finished info messages) = finished info (message ∷ messages)
deliver (some message) faulted = faulted
deliver (some message) out_of_fuel = out_of_fuel

-- `do ... while (readLen > 0)`.
unfoldable pub rounds : ℕ → DataInfo → Bytes → ℕ → Outcome
rounds zero info data_ptr read_len = out_of_fuel
rounds (suc fuel) info data_ptr read_len = elim (round info data_ptr read_len) [
  | go_on info' rest left message ↦
      let more = rounds fuel info' rest left in
      deliver message (if ltb 0 left then more else finished info' [])
  | leave info' ↦ finished info' []
  | fault ↦ faulted
]

-- One successful `read` of `chunk`, which is not empty. Every round that goes on takes a byte.
unfoldable pub receive : DataInfo → Bytes → Outcome
receive info chunk = rounds (length chunk) info chunk (length chunk)

-- Messages that came before.
abbrev pub preceded_by : List Bytes → Outcome → Outcome
preceded_by messages (finished info more) = finished info (messages ++ more)
preceded_by messages faulted = faulted
preceded_by messages out_of_fuel = out_of_fuel

-- The reads on one connection, one after the other.
unfoldable pub receive_all : DataInfo → List Bytes → Outcome
receive_all info [] = finished info []
receive_all info (chunk ∷ chunks) = elim (receive info chunk) [
  | finished info' messages ↦ preceded_by messages (receive_all info' chunks)
  | faulted ↦ faulted
  | out_of_fuel ↦ out_of_fuel
]

pub receive_all_step :
    (info : DataInfo) (chunk : Bytes) (chunks : List Bytes) {info' : DataInfo}
    {messages : List Bytes}
    → receive info chunk ≡ finished info' messages
    → receive_all info (chunk ∷ chunks) ≡ preceded_by messages (receive_all info' chunks)
unfolding receive_all
receive_all_step info chunk chunks e = rw (e, receive_all)
