-- ===== src/NetComm/Frame.antt =====
-- `clientDataSend` and `localBroadcastSend`: an encrypted message goes out behind `#` and a 16-bit
-- length, with `@` behind it.
use pyconnect.Base.{
  Bytes, Option, [], arith, if◌then◌else◌, leb, length, length-append, none, some, ◌%◌, ◌++◌, ◌+◌,
  ◌^◌, ◌↔◌, ◌∷◌, ◌≡◌, ◌≤◌,
}
use pyconnect.Common.Types.{msg_buffer_size, msg_end, msg_init}
use pyconnect.Common.Pack.{pack_to_le_number}

-- The bytes of a frame. `(short)outputLength` keeps the low 16 bits.
unfoldable pub frame : Bytes → Bytes
unfolding pack_to_le_number
frame message =
    msg_init ∷ (pack_to_le_number 2 (length message % 2 ^ 16) ++ (message ++ msg_end ∷ []))

-- Writing the frame into `dispatchDataBuffer_`, `msg_buffer_size` bytes that nothing checks: `none`
-- is a write past the end of that buffer.
unfoldable pub dispatch_frame : Bytes → Option Bytes
dispatch_frame message =
    let bytes = frame message in if leb (length bytes) msg_buffer_size then some bytes else none

pub length-frame : (message : Bytes) → length (frame message) ≡ length message + 4
unfolding frame
length-frame message = omega (arith, length-append {0} message (msg_end ∷ []))

-- A frame fits the dispatch buffer exactly when the encrypted message has at most 10236 bytes: four
-- less than the decoder takes.
pub dispatch_frame_iff :
    (message : Bytes) → (dispatch_frame message ≡ some (frame message)) ↔ (length message ≤ 10236)
unfolding dispatch_frame
dispatch_frame_iff message =
    (λ h. ground (arith, length-frame message), λ h. ground (arith, length-frame message))
