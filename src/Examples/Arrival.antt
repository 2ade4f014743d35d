-- ===== src/Examples/Arrival.antt =====
-- A message from the server of one program to a module of the other.
use pyconnect.Base.{Bytes, List, [], arith, map_find, refl, some, ◌∷◌, ◌≡◌}
use pyconnect.Common.Cipher.{decrypt_message, done, encrypt_message, in_buffer}
use pyconnect.ObjComm.Channels.{cpp_module, find_or_add, python_server}
use pyconnect.NetComm.Frame.{frame}
use pyconnect.NetComm.Stream.{DataInfo}
use pyconnect.NetComm.Caching.{Holds}
use pyconnect.NetComm.Clients.{fd_isset}
use pyconnect.NetComm.Incoming.{Session, client_loop, got}
use pyconnect.NetComm.Sending.{client_data_send, stream}
use pyconnect.NetComm.Arrival.{message_arrives}
use pyconnect.Examples.Stream.{fresh_info-Holds}
use pyconnect.Examples.Network.{keep_message, plain, remote, session, two_clients}
use pyconnect.Examples.Broadcast.{plain-EvpLaws}

-- A call of method 0 of object 1.
abbrev call : Bytes
call = 81 ∷ 1 ∷ 0 ∷ 64 ∷ []

abbrev call_frame : Bytes
call_frame = 35 ∷ 4 ∷ 0 ∷ 81 ∷ 1 ∷ 0 ∷ 64 ∷ 64 ∷ []

abbrev listening : Session (List Bytes)
listening = record session { net = record two_clients { client_fd_list = remote ∷ [] } }

call-encrypted : encrypt_message plain call ≡ done call
unfolding encrypt_message in_buffer
call-encrypted = refl

call-framed : call_frame ≡ frame call
unfolding frame
call-framed = refl

call-channel :
    find_or_add python_server 81 1 two_clients.object_comm ≡ (two_clients.object_comm, some 5)
unfolding find_or_add map_find
call-channel = refl

message_arrives_example :
    (client_data_send plain python_server call two_clients
      ≡ some
          (record two_clients { object_comm = two_clients.object_comm }, stream 5 call_frame ∷ []))
    × (decrypt_message plain call ≡ done call)
    × (t : Session (List Bytes)) × (client_loop keep_message cpp_module
          (5 ∷ [])
          (λ fd. got 35 (4 ∷ 0 ∷ 81 ∷ 1 ∷ 0 ∷ 64 ∷ 64 ∷ []))
          2
          0
          listening
        ≡ some t)
    × (t.processor ≡ call ∷ [])
    × (info : DataInfo) × (t.net.client_fd_list ≡ record remote { data_info = info } ∷ [])
    × Holds info [] []
unfolding fd_isset
message_arrives_example =
    message_arrives plain python_server cpp_module 81 1 (0 ∷ 64 ∷ []) call two_clients
      two_clients.object_comm 5 keep_message (5 ∷ [])
      (λ fd. got 35 (4 ∷ 0 ∷ 81 ∷ 1 ∷ 0 ∷ 64 ∷ 64 ∷ [])) listening remote 35
      (4 ∷ 0 ∷ 81 ∷ 1 ∷ 0 ∷ 64 ∷ 64 ∷ []) plain-EvpLaws call-encrypted (omega arith) call-channel
      call-framed refl fresh_info-Holds refl refl
