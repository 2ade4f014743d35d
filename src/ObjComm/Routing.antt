-- ===== src/ObjComm/Routing.antt =====
-- Messages go to the channel of the object that they are for.
use pyconnect.Base.{
  ==_self, Bool-cases, List, [], arith, inl, inr, map_find, map_find-map_assign, ne→==, none, refl,
  some, ℕ, ◌%◌, ◌*◌, ◌+◌, ◌/◌, ◌<◌, ◌==◌, ◌∷◌, ◌≡◌, ◌≢◌, ◌≤◌,
}
use pyconnect.Common.Types.{
  attr_metd_expose, module_assign_id, module_declare, module_discovery, msg_code,
}
use pyconnect.ObjComm.Channels.{
  ObjectComm, cpp_module, find_channel, find_or_add, map_last_used, python_server,
}

-- Identifiers rise, from `lo` on.
abbrev pub AreRising : ℕ → List (ℕ × ℕ) → Type 0
AreRising lo [] = Unit
AreRising lo ((id, index) ∷ m) = (lo ≤ id) × AreRising (id + 1) m

AreRising-below : (lo lo' : ℕ) (m : List (ℕ × ℕ)) → lo' ≤ lo → AreRising lo m → AreRising lo' m
AreRising-below lo lo' [] h r = tt
AreRising-below lo lo' ((id, index) ∷ m) h (l, r) = (omega arith, r)

map_find-AreRising :
    (lo id : ℕ) (m : List (ℕ × ℕ)) → AreRising lo m → id < lo → map_find m id ≡ none
unfolding map_find
map_find-AreRising lo id [] r h = refl
map_find-AreRising lo id ((j, index) ∷ m) (l, r) h =
    ground (arith, map_find-AreRising (j + 1) id m r (omega arith))

pub find_channel-bounds :
    (lo chan id : ℕ) (m : List (ℕ × ℕ))
    → AreRising lo m
    → find_channel chan m ≡ some id
    → (lo ≤ id) × (map_find m id ≡ some chan)
unfolding find_channel map_find
find_channel-bounds lo chan id [] r e = ground arith
find_channel-bounds lo chan id ((j, index) ∷ m) (l, r) e = elim (Bool-cases (index == chan)) [
  | inl same ↦ ground arith
  | inr other ↦
      let (k, found) = find_channel-bounds (j + 1) chan id m r (ground arith) in
      (omega arith, ground arith)
]

-- When the server assigns an identifier and there is a last used channel, the assignment goes to
-- that channel and uses it up; the next message to that module, if it is neither an assignment nor
-- a discovery, goes to the same channel and leaves the map as it is.
pub assigned_channel_is_used :
    (first id chan : ℕ) (c : ObjectComm)
    → c.active_channel ≡ some chan
    → (first / 16 % 16) ≢ msg_code module_assign_id
    → (first / 16 % 16) ≢ msg_code module_discovery
    → (server_id : ℕ)
    → (let (c', used) =
          find_or_add python_server (msg_code module_assign_id * 16 + server_id % 16) id c in
        (used ≡ some chan)
        × (c'.active_channel ≡ none)
        × (find_or_add python_server first id c' ≡ (c', some chan)))
unfolding find_or_add map_last_used
assigned_channel_is_used first id chan c e a d server_id =
    let h : (3 * 16 + server_id % 16) / 16 % 16 ≡ 3 = omega arith in
    rw
      (
        h,
        find_or_add,
        map_last_used,
        e,
        ne→== (first / 16 % 16) 3 a,
        ne→== (first / 16 % 16) 1 d,
        map_find-map_assign c.obj_comm_map id id chan,
        ==_self id,
      )
      (refl, refl, refl)

-- When a module declares itself to a server and there is a last used channel, the declaration goes
-- to that channel and uses it up; the next message to that server, if it is neither a declaration
-- nor an exposure, goes to the same channel and leaves the map as it is.
pub declared_channel_is_used :
    (first second server_id chan : ℕ) (c : ObjectComm)
    → c.active_channel ≡ some chan
    → (first / 16 % 16) ≢ msg_code attr_metd_expose
    → (first / 16 % 16) ≢ msg_code module_declare
    → first % 16 ≡ server_id % 16
    → (let (c', used) =
          find_or_add cpp_module (msg_code module_declare * 16 + server_id % 16) second c in
        (used ≡ some chan)
        × (c'.active_channel ≡ none)
        × (find_or_add cpp_module first second c' ≡ (c', some chan)))
unfolding find_or_add map_last_used
declared_channel_is_used first second server_id chan c e a d s =
    let h : (2 * 16 + server_id % 16) / 16 % 16 ≡ 2 = omega arith in
    let i : (2 * 16 + server_id % 16) % 16 ≡ server_id % 16 = omega arith in
    rw
      (
        h,
        find_or_add,
        map_last_used,
        e,
        i,
        ne→== (first / 16 % 16) 4 a,
        ne→== (first / 16 % 16) 2 d,
        s,
        map_find-map_assign c.obj_comm_map (server_id % 16) (server_id % 16) chan,
        ==_self (server_id % 16),
      )
      (refl, refl, refl)
