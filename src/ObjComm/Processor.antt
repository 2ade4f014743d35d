-- ===== src/ObjComm/Processor.antt =====
-- `MessageProcessor`: the communication objects that it sends through.
use Prim.Native.Nat.{bit_or}
use pyconnect.Base.{Bool, Bytes, List, [], false, if◌then◌else◌, ℕ, ◌++◌, ◌==◌, ◌||◌, ◌∷◌}

-- `CommObjectStat`.
pub data CommObjectStat : Type 0 where
  not_supported invalid_addr_port comm_failed comm_success : CommObjectStat

abbrev pub stat_code : CommObjectStat → ℕ
stat_code not_supported = 1
stat_code invalid_addr_port = 2
stat_code comm_failed = 4
stat_code comm_success = 8

-- The virtual functions of `ObjectComm`, over the state `S` of the world, and the address that a
-- pointer to the object holds.
pub record CommObject (S : Type 0) : Type 0 where
  pub address : ℕ
  pub data_packet_sender : Bytes → Bool → S → S
  pub create_talker : Bytes → ℕ → S → S × CommObjectStat
  pub set_broadcast_addr : Bytes → S → S × CommObjectStat

module _ {S : Type 0} where
  -- `citer != commObjList_.end()` behind the search.
  unfoldable pub is_listed : ℕ → List (CommObject S) → Bool
  is_listed address [] = false
  is_listed address (o ∷ objects) = o.address == address || is_listed address objects

  unfoldable pub add_comm_object : CommObject S → List (CommObject S) → List (CommObject S)
  add_comm_object o objects = if is_listed o.address objects then objects else objects ++ (o ∷ [])

  unfoldable pub dispatch_message : List (CommObject S) → Bytes → Bool → S → S
  dispatch_message [] message broadcast s = s
  dispatch_message (o ∷ objects) message broadcast s =
      dispatch_message objects message broadcast (o.data_packet_sender message broadcast s)

  -- The loop of `connectTo`, with the value of `retVal`.
  unfoldable pub connect_loop : List (CommObject S) → ℕ → Bytes → ℕ → S → S × ℕ
  connect_loop [] ret_val host port s = (s, ret_val)
  connect_loop (o ∷ objects) ret_val host port s =
      let (s', val) = o.create_talker host port s in
      elim val [
        | comm_success ↦ (s', stat_code comm_success)
        | comm_failed ↦ connect_loop objects (bit_or ret_val (stat_code comm_failed)) host port s'
        | invalid_addr_port ↦
            connect_loop objects (bit_or ret_val (stat_code invalid_addr_port)) host port s'
        | not_supported ↦
            connect_loop objects (bit_or ret_val (stat_code not_supported)) host port s'
      ]

  -- `connectTo`.
  unfoldable pub connect_to : List (CommObject S) → Bytes → ℕ → S → S × ℕ
  connect_to objects host port s = connect_loop objects (stat_code not_supported) host port s

  -- The loop of `setBroadcastAddr`, which a failure ends as well.
  unfoldable pub broadcast_addr_loop : List (CommObject S) → ℕ → Bytes → S → S × ℕ
  broadcast_addr_loop [] ret_val addr s = (s, ret_val)
  broadcast_addr_loop (o ∷ objects) ret_val addr s =
      let (s', val) = o.set_broadcast_addr addr s in
      elim val [
        | comm_success ↦ (s', stat_code comm_success)
        | comm_failed ↦ (s', stat_code comm_failed)
        | invalid_addr_port ↦
            broadcast_addr_loop objects (bit_or ret_val (stat_code invalid_addr_port)) addr s'
        | not_supported ↦
            broadcast_addr_loop objects (bit_or ret_val (stat_code not_supported)) addr s'
      ]

  -- `setBroadcastAddr`.
  unfoldable pub set_broadcast_addr_all : List (CommObject S) → Bytes → S → S × ℕ
  set_broadcast_addr_all objects addr s =
      broadcast_addr_loop objects (stat_code not_supported) addr s
