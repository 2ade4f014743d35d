-- ===== src/ObjComm/Channels.antt =====
-- `ObjectComm`: the channel of each remote object, and the channel that was used last. A socket is a
-- number, and `INVALID_SOCKET` is `none`.
use pyconnect.Base.{
  Bytes, List, Option, [], get_elem?, if◌then◌else◌, length, map_assign, map_find, none, some, ℕ,
  ◌%◌, ◌*◌, ◌+◌, ◌/◌, ◌==◌, ◌||◌, ◌∷◌,
}
use pyconnect.Common.Types.{
  attr_metd_expose, module_assign_id, module_declare, module_discovery, module_shutdown, msg_code,
  msg_end, server_shutdown,
}

pub record ObjectComm : Type 0 where
  pub obj_comm_map : List (ℕ × ℕ)
  pub active_channel : Option ℕ

-- Which program is built: with `PYTHON_SERVER` or without.
pub data Side : Type 0 where
  python_server cpp_module : Side

-- `getLastUsedCommChannel`.
unfoldable pub get_last_used : ObjectComm → ObjectComm × Option ℕ
get_last_used c = (record c { active_channel = none }, c.active_channel)

-- `setLastUsedCommChannel`; `none` is the abort for an invalid socket.
unfoldable pub set_last_used : Option ℕ → ObjectComm → Option ObjectComm
set_last_used none c = none
set_last_used (some index) c = some (record c { active_channel = some index })

-- `verifyNegotiationMsg`, -1 as `none`, for a message that is not empty.
unfoldable pub verify_negotiation_msg : ℕ → Bytes → Option ℕ
verify_negotiation_msg first rest =
    let final : ℕ = elim (get_elem? (first ∷ rest) (length rest)) [ none ↦ 0 | some b ↦ b ] in
    if final == msg_end then some (first / 16 % 16) else none

-- The last used channel becomes the one of an object, if there is one.
unfoldable pub map_last_used : ℕ → ObjectComm → ObjectComm × Option ℕ
map_last_used obj_id c = elim c.active_channel [
  | none ↦ get_last_used c
  | some index ↦ (
    record c { obj_comm_map = map_assign c.obj_comm_map obj_id index; active_channel = none },
    some index,
  )
]

abbrev pub mapped : ℕ → ObjectComm → ObjectComm × Option ℕ
mapped obj_id c = (c, map_find c.obj_comm_map obj_id)

-- `findOrAddCommChanByMsgID`, for the first two bytes of the message.
unfoldable pub find_or_add : Side → ℕ → ℕ → ObjectComm → ObjectComm × Option ℕ
find_or_add python_server first second c =
    let header = first / 16 % 16 in
    if header == msg_code module_assign_id
    then map_last_used second c
    else if header == msg_code module_discovery
    then get_last_used c
    else mapped second c
find_or_add cpp_module first second c =
    let header = first / 16 % 16 in
    if header == msg_code attr_metd_expose || header == msg_code module_declare
    then map_last_used (first % 16) c
    else mapped (first % 16) c

-- `resetObjCommChanMap`.
unfoldable pub reset_channels : ObjectComm → ObjectComm
reset_channels c = record { obj_comm_map = []; active_channel = none }

-- The first object on a channel.
unfoldable pub find_channel : ℕ → List (ℕ × ℕ) → Option ℕ
find_channel chan [] = none
find_channel chan ((id, index) ∷ m) =
    let rest = find_channel chan m in if index == chan then some id else rest

-- The message that `objCommChannelShutdown` makes up.
unfoldable pub shutdown_notice : Side → ℕ → Bytes
shutdown_notice python_server id = (msg_code module_shutdown * 16) ∷ (id % 256) ∷ msg_end ∷ []
shutdown_notice cpp_module id = (msg_code server_shutdown * 16 + id % 16) ∷ 0 ∷ msg_end ∷ []
