-- ===== src/Protocol/Calls.antt =====
-- A call of a method, from `pyCall` of the stub through `processInput` of the wrapper to the program.
use pyconnect.Common.Python.{Python}
use pyconnect.Common.Types.{
  PyConnectMsg, SockAddr, call_attr_metd, call_attr_metd_nocb, mesg_processed_ok, msg_code, msg_end,
}
use pyconnect.Wrapper.Values.{Value}
use pyconnect.Wrapper.Module.{Method, PyConnectModule}
use pyconnect.Wrapper.State.{Handled, Program, ServerInfo, Wrapper, void_events}
use pyconnect.Protocol.Arguments.{Spends-int}
use pyconnect.Base.{
  ==_self, Bool, Bytes, List, ap, arith, false, if◌then◌else◌, length, map_find, pos, signed32,
  some, true, ℕ, ℤ, ◌++◌, ◌+◌, ◌<◌, ◌^◌, ◌∙◌, ◌∷◌, ◌≡◌,
}
use pyconnect.Common.Reader.{Cursor, Reader, bind, next_byte, pure, ◌>>=◌}
use pyconnect.Common.Pack.{pack_int_to_str, pack_to_le_number, packed_int_len}
use pyconnect.Common.RoundTrip.{Reads-pack_to_le_number, length-pack_int_to_str}
use pyconnect.Wrapper.Input.{
  assigned, dispatch_type, ended, for_known_server, for_server, is_assigned, on_call, read_index,
}

-- The memory and the count that a reader is at.
abbrev pub at : Bytes → ℕ → Cursor
at bytes n = record { bytes = bytes; remaining = pos n }

signed32-small : (n : ℕ) → n < 2 ^ 31 → signed32 n ≡ pos n
signed32-small n h = ground arith

-- The count and the index at the front of a call; then the count is that of the rest.
pub read_index-packed :
    (index size : ℕ) (tail : Bytes) (n : ℤ)
    → index < 32768
    → size < 2 ^ 30
    → read_index (record {
      bytes =
          pack_to_le_number 4 (packed_int_len (pos index) + size)
          ++ (pack_int_to_str (pos index) ++ tail);
      remaining = n;
    })
      ≡ some (index, at tail size)
unfolding read_index packed_int_len
read_index-packed index size tail n small fits =
    let count = packed_int_len (pos index) + size in
    let below : count < 256 ^ 4 = ground arith in
    let signed : count < 2 ^ 31 = ground arith in
    let (m, e) = Reads-pack_to_le_number 4 count below (pack_int_to_str (pos index) ++ tail) n in
    let left : signed32 count ≡ pos (length (pack_int_to_str (pos index)) + size) =
      let same : count ≡ length (pack_int_to_str (pos index)) + size =
        omega (arith, length-pack_int_to_str index) in
      ap signed32 same ∙ signed32-small _ (omega (arith, same, signed)) in
    rw e (rw left (Spends-int index small tail size))

-- The type of a call.
abbrev pub call_type : Bool → PyConnectMsg
call_type nocb = if nocb then call_attr_metd_nocb else call_attr_metd

module _ (clang : Bool) (program : Program) (name : Bytes) (m : Method) (metd_id server_id : ℕ)
    (values : List Value) (bytes : Bytes) where
  -- What the wrapper is like after the call, and what it sends.
  abbrev ran_with : Bool → Wrapper → PyConnectModule → Handled
  ran_with nocb w after = (
    record w { pyconnect_module = after; no_response = false },
    void_events m.type (length w.pyconnect_module.attributes + metd_id) server_id
        (record w { pyconnect_module = after; no_response = nocb }),
  )

module _ (clang : Bool) (program : Program) (server_id : ℕ) where
  for_server-run :
      (nocb : Bool) (w : Wrapper) (h : Handled) (c c' : Cursor)
      → on_call clang program nocb server_id w c ≡ some (h, c')
      → for_server clang program (msg_code (call_type nocb)) server_id w c
        ≡ ended (λ _. some (h, c')) c
  unfolding for_server ended
  for_server-run true w h c c' e =
      ap (λ o. bind o (λ h. next_byte >>= λ _. pure (h.0, h.1, mesg_processed_ok))) e
  for_server-run false w h c c' e =
      ap (λ o. bind o (λ h. next_byte >>= λ _. pure (h.0, h.1, mesg_processed_ok))) e

  -- A call from a known server, once its body is read up to the byte that ends the message.
  pub dispatch_type-run :
      (nocb : Bool) (w : Wrapper) (info : ServerInfo) (id : ℕ) (addr : SockAddr) (h : Handled)
      (body rest : Bytes) (n : ℤ)
      → map_find w.server_map server_id ≡ some info
      → info.assigned_module_id ≡ pos id
      → on_call clang program nocb server_id w (record { bytes = body; remaining = n })
        ≡ some (h, at (msg_end ∷ rest) 0)
      → dispatch_type clang program
          (msg_code (call_type nocb))
          server_id
          addr
          w
          (record { bytes = id ∷ body; remaining = n })
        ≡ some ((h.0, h.1, mesg_processed_ok), at rest 0)
  unfolding dispatch_type for_known_server is_assigned next_byte ended
  dispatch_type-run true w info id addr h body rest n known assigned e =
      rw (known, for_known_server)
        (rw (assigned, ==_self id, is_assigned)
          (for_server-run true w h (record { bytes = body; remaining = n }) _ e))
  dispatch_type-run false w info id addr h body rest n known assigned e =
      rw (known, for_known_server)
        (rw (assigned, ==_self id, is_assigned)
          (for_server-run false w h (record { bytes = body; remaining = n }) _ e))
