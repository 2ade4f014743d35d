-- ===== src/NetComm/Caching.antt =====
-- What one round of the receiving loop does with a frame, or with a part of one, in the buffer.
use pyconnect.Base.{
  Bytes, [], ap, append_assoc, arith, drop-append_suc, get_elem?-append_length, length,
  length-append, none, refl, some, take, take-all, take-append_length, ◌%◌, ◌++◌, ◌+◌, ◌-◌, ◌/◌,
  ◌<◌, ◌^◌, ◌∙◌, ◌∷◌, ◌≡◌, ◌≤◌,
}
use pyconnect.Common.Types.{msg_buffer_size, msg_end, msg_init}
use pyconnect.Common.Pack.{le_number}
use mathlib.Core.Path.{ap₂}
use pyconnect.NetComm.Frame.{frame}
use pyconnect.NetComm.Stream.{
  DataInfo, complete_message, continue_message, go_on, keep_caching, new_message, reset,
  sized_message, start_caching, whole_message,
}
use pyconnect.NetComm.StreamSafety.{IsValid, cache_lem}

abbrev pub FitsBuffer : Bytes → Type 0
FitsBuffer message = length message ≤ msg_buffer_size

-- The connection has cached `part` of a message, and `missing` is still to come.
pub record Holds (info : DataInfo) (part missing : Bytes) : Type 0 where
  pub allocated : length info.buffered_data ≡ msg_buffer_size
  pub fits : length part + length missing ≤ msg_buffer_size
  pub cached : take info.buffered_data_length info.buffered_data ≡ part
  pub cached_length : info.buffered_data_length ≡ length part
  pub expected : info.expected_data_length ≡ length missing

pub Holds-IsValid :
    {info : DataInfo} {part missing : Bytes} → Holds info part missing → IsValid info
Holds-IsValid h = record { allocated = h.allocated; fits = omega arith }

-- The first three bytes of a frame.
abbrev pub header : Bytes → Bytes
header message =
    msg_init ∷ (length message % 2 ^ 16 % 256) ∷ (length message % 2 ^ 16 / 256 % 256) ∷ []

pub frame_lem :
    (message rest : Bytes) → frame message ++ rest ≡ header message ++ (message ++ (msg_end ∷ rest))
unfolding frame
frame_lem message rest = ap (λ t. header message ++ t) (append_assoc message (msg_end ∷ []) rest)

pub header_length :
    (message : Bytes)
    → FitsBuffer message
    → le_number ((length message % 2 ^ 16 % 256) ∷ (length message % 2 ^ 16 / 256 % 256) ∷ [])
      ≡ length message
unfolding le_number
header_length message h = omega arith

-- `new_message` reads the length of the frame that the header announces.
pub new_message-header :
    (info : DataInfo) (message tail : Bytes)
    → FitsBuffer message
    → 0 < length tail
    → new_message info (header message ++ tail) (length tail + 3)
      ≡ sized_message info tail (length tail) (length message)
unfolding new_message
new_message-header info message tail h p = ground (arith, header_length message h)

pub sized_message-whole :
    (info : DataInfo) (message rest : Bytes)
    → FitsBuffer message
    → sized_message info
        (message ++ (msg_end ∷ rest))
        (length message + (1 + length rest))
        (length message)
      ≡ go_on info rest (length rest) (some message)
unfolding sized_message whole_message
sized_message-whole info message rest h = ground (
  arith,
  get_elem?-append_length message msg_end rest,
  take-append_length message (msg_end ∷ rest),
  drop-append_suc message msg_end rest,
)

pub start_caching-Holds :
    (info : DataInfo) (part missing : Bytes)
    → Holds info [] []
    → length part + length missing ≤ msg_buffer_size
    → (info' : DataInfo) × (start_caching info part (length part) (length part + length missing)
        ≡ go_on info' part 0 none)
      × Holds info' part missing
unfolding start_caching
start_caching-Holds info part missing h k =
    let (buffer, c, l, front) =
      cache_lem info 0 part (length part) (omega arith) (omega (arith, h.allocated)) in
    let at_zero : take (length part) buffer ≡ take (0 + length part) buffer =
      ap (λ k. take k buffer) (omega arith) in
    (
      record {
        buffered_data = buffer;
        expected_data_length = length part + length missing - length part;
        buffered_data_length = length part;
      },
      rw (c, start_caching),
      record {
        allocated = l ∙ h.allocated;
        fits = k;
        cached = at_zero ∙ (front ∙ take-all part);
        cached_length = refl;
        expected = omega arith;
      },
    )

pub sized_message-part :
    (info : DataInfo) (part missing : Bytes)
    → length part + length missing ≤ msg_buffer_size
    → 0 < length part
    → 0 < length missing
    → sized_message info part (length part) (length part + length missing)
      ≡ start_caching info part (length part) (length part + length missing)
unfolding sized_message
sized_message-part info part missing h p q = ground arith

pub keep_caching-Holds :
    (info : DataInfo) (part chunk missing : Bytes)
    → Holds info part (chunk ++ missing)
    → 0 < length chunk
    → (info' : DataInfo) × (continue_message info chunk (length chunk) ≡ go_on info' chunk 0 none)
      × Holds info' (part ++ chunk) missing
unfolding continue_message keep_caching
keep_caching-Holds info part chunk missing h p =
    let at = info.buffered_data_length in
    let both = length-append chunk missing in
    let (buffer, c, l, front) =
      cache_lem info at chunk (length chunk) (omega arith)
        (omega (arith, h.allocated, h.fits, h.cached_length, both)) in
    (
      record {
        buffered_data = buffer;
        expected_data_length = info.expected_data_length - length chunk;
        buffered_data_length = at + length chunk;
      },
      ground (arith, c, h.expected, both),
      record {
        allocated = l ∙ h.allocated;
        fits = omega (arith, h.fits, both, length-append part chunk);
        cached = front ∙ ap₂ (◌++◌) h.cached (take-all chunk);
        cached_length = omega (arith, h.cached_length, length-append part chunk);
        expected = omega (arith, h.expected, both);
      },
    )

pub complete_message-Holds :
    (info : DataInfo) (part missing rest : Bytes)
    → Holds info part missing
    → (info' : DataInfo) × (continue_message info
          (missing ++ (msg_end ∷ rest))
          (length missing + (1 + length rest))
        ≡ go_on info' rest (length rest) (some (part ++ missing)))
      × Holds info' [] []
unfolding continue_message complete_message
complete_message-Holds info part missing rest h =
    let at = info.buffered_data_length in
    let n = info.expected_data_length in
    let bytes = missing ++ (msg_end ∷ rest) in
    let size = length-append missing (msg_end ∷ rest) in
    let (buffer, c, l, front) =
      cache_lem info at bytes n (omega (arith, h.expected, size))
        (omega (arith, h.allocated, h.fits, h.cached_length, h.expected)) in
    (
      reset (record info { buffered_data = buffer }),
      ground (
        arith,
        c,
        h.expected,
        h.cached,
        front,
        get_elem?-append_length missing msg_end rest,
        take-append_length missing (msg_end ∷ rest),
        drop-append_suc missing msg_end rest,
      ),
      record {
        allocated = l ∙ h.allocated;
        fits = omega arith;
        cached = refl;
        cached_length = refl;
        expected = refl;
      },
    )
