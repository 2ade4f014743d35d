-- ===== src/Stub/Commands.antt =====
-- The functions of the Python module that send: `connect`, `set_broadcast`, `discover`,
-- `send_peer_msg` and `write`. Their arguments are those that `PyArg_ParseTuple` gives.
use Prim.Native.Nat.{bit_and}
use pyconnect.Base.{
  Bool, Bytes, List, Option, [], false, if◌then◌else◌, none, not, some, true, ℕ, ◌==◌, ◌∷◌,
}
use pyconnect.ObjComm.Processor.{
  CommObject, CommObjectStat, comm_failed, connect_to, dispatch_message, invalid_addr_port,
  not_supported, set_broadcast_addr_all, stat_code,
}
use pyconnect.Stub.Messages.{discovery_message, peer_message}

-- The exceptions.
pub data Raised : Type 0 where
  io_error value_error not_implemented_error : Raised

-- `ret & stat`, as a test.
abbrev pub has_stat : ℕ → CommObjectStat → Bool
has_stat ret stat = not (bit_and ret (stat_code stat) == 0)

-- The ladder of tests that `connect` and `set_broadcast` share; `none` is success.
unfoldable pub raised_for : ℕ → Option Raised
raised_for ret =
    if has_stat ret comm_failed
    then some io_error
    else if has_stat ret invalid_addr_port
    then some value_error
    else if has_stat ret not_supported
    then some not_implemented_error
    else none

module _ {S : Type 0} (objects : List (CommObject S)) (server_id : ℕ) where
  -- `sendDiscoveryMsg(broadcast)`.
  unfoldable pub send_discovery_msg : Bool → S → S
  send_discovery_msg broadcast s =
      dispatch_message objects (discovery_message server_id) broadcast s

  -- `PyConnect_connect`.
  unfoldable pub connect : Bytes → ℕ → S → S × Option Raised
  connect addr port s =
      let (s', ret) = connect_to objects addr port s in
      elim (raised_for ret) [ none ↦ (send_discovery_msg false s', none) | some e ↦ (s', some e) ]

  -- `PyConnect_set_broadcast`.
  unfoldable pub set_broadcast : Bytes → S → S × Option Raised
  set_broadcast msg s =
      let (s', ret) = set_broadcast_addr_all objects msg s in
      elim (raised_for ret) [ none ↦ (send_discovery_msg true s', none) | some e ↦ (s', some e) ]

  -- `PyConnect_discover`.
  unfoldable pub discover : S → S
  discover s = send_discovery_msg true s

  -- `PyConnect_send_peer_msg`, which broadcasts.
  unfoldable pub send_peer_msg : Bytes → S → S
  send_peer_msg mesg s = dispatch_message objects (peer_message server_id mesg) true s

-- What `PyConnect_write` hands to the output: a line feed becomes two characters.
unfoldable pub output_msg : Bytes → Bytes
output_msg [] = []
output_msg (b ∷ msg) = let rest = output_msg msg in if b == 10 then 13 ∷ 10 ∷ rest else b ∷ rest
