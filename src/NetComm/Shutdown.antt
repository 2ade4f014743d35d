-- ===== src/NetComm/Shutdown.antt =====
-- `objCommChannelShutdown`: an object loses its channel, and its side is told as if it had said so.
use pyconnect.Base.{
  Bytes, [], ap, if◌then◌else◌, map_find, map_find-map_erase, none, refl, some, true, ℕ, ◌%◌, ◌+◌,
  ◌==◌, ◌∙◌, ◌∷◌, ◌≡◌,
}
use pyconnect.ObjComm.Channels.{Side, cpp_module, find_channel, python_server, shutdown_notice}
use pyconnect.ObjComm.Routing.{AreRising, find_channel-bounds}
use pyconnect.NetComm.Clients.{zero_addr}
use pyconnect.NetComm.Incoming.{ProcessInput, Session, give, shut_channel}

-- MODULE_SHUTDOWN of the module, or SERVER_SHUTDOWN of the server, in the bytes of the protocol.
abbrev pub notice : Side → ℕ → Bytes
notice python_server id = 0xb0 ∷ (id % 256) ∷ 0x40 ∷ []
notice cpp_module id = (0xc0 + id % 16) ∷ 0 ∷ 0x40 ∷ []

notice-shutdown_notice : (side : Side) (id : ℕ) → shutdown_notice side id ≡ notice side id
unfolding shutdown_notice
notice-shutdown_notice python_server id = refl
notice-shutdown_notice cpp_module id = refl

-- When a channel that some object has is shut down with a notice, in a map whose identifiers rise: an
-- object on that channel is chosen, the message processor is given the shutdown message of that
-- object, once, with an empty address and not to be decrypted, and then this object has no channel,
-- while every other object has the one that the processor left it.
pub shut_channel-notice :
    {S : Type 0} (process_input : ProcessInput S) (side : Side) (chan id : ℕ) (w : Session S)
    → AreRising 0 w.net.object_comm.obj_comm_map
    → find_channel chan w.net.object_comm.obj_comm_map ≡ some id
    → (let (c, p, result) =
          process_input (notice side id) zero_addr true w.net.object_comm w.processor in
        let t = shut_channel process_input side chan true w in
        (map_find w.net.object_comm.obj_comm_map id ≡ some chan)
        × (t.processor ≡ p)
        × ((other : ℕ)
            → map_find t.net.object_comm.obj_comm_map other
              ≡ (if other == id then none else map_find c.obj_comm_map other)))
unfolding shut_channel give
shut_channel-notice process_input side chan id w r e =
    let m = w.net.object_comm.obj_comm_map in
    rw (e, shut_channel)
      (
        (find_channel-bounds 0 chan id m r e).1,
        ap (λ b. (process_input b zero_addr true w.net.object_comm w.processor).1)
            (notice-shutdown_notice side id),
        λ other.
            map_find-map_erase
              (process_input (shutdown_notice side id) zero_addr true w.net.object_comm
                w.processor).0.obj_comm_map
              id other
            ∙ ap
                (λ b.
                  if other == id
                  then none
                  else map_find
                      (process_input b zero_addr true w.net.object_comm w.processor).0.obj_comm_map
                      other)
                (notice-shutdown_notice side id),
      )
