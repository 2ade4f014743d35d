-- ===== src/Examples/Broadcast.antt =====
-- A discovery message on the network, the search for a port, and a connection that is refused.
use pyconnect.Base.{
  Bool, Bytes, List, [], ap, append-nil, arith, false, if◌then◌else◌, length, map_find, none, refl,
  some, sym, true, ℕ, ◌++◌, ◌==◌, ◌∙◌, ◌∷◌, ◌≡◌,
}
use pyconnect.Common.Types.{SockAddr, codes, mesg_processed_ok}
use pyconnect.Common.Cipher.{EvpLaws, done, encrypt_message, in_buffer}
use pyconnect.ObjComm.Channels.{cpp_module, find_channel, python_server, set_last_used}
use pyconnect.ObjComm.Processor.{CommObject, comm_failed, connect_loop, connect_to, not_supported}
use pyconnect.NetComm.Clients.{NetComm, add_fd_to_client_list, network, new_client}
use pyconnect.NetComm.Sending.{append_port, connected, data_packet_sender, datagram, no_socket}
use pyconnect.NetComm.Datagram.{process_udp_input, udp_case}
use pyconnect.NetComm.Negotiation.{process_udp_input-data_packet_sender}
use pyconnect.NetComm.Listeners.{ListenerCalls, enable_net_comm, search_port}
use pyconnect.NetComm.Enabling.{IsListening, enable_net_comm-IsListening}
use pyconnect.NetComm.Shutdown.{notice, shut_channel-notice}
use pyconnect.NetComm.Incoming.{shut_channel}
use pyconnect.NetComm.PortSearch.{Searched, search_port-Searched}
use pyconnect.Stub.Commands.{connect, io_error}
use pyconnect.Stub.CommandLaws.{connect-connect_report, connect_report}
use pyconnect.Examples.{hello, home}
use pyconnect.Examples.Stream.{fresh_info}
use pyconnect.Examples.Network.{keep_message, plain, session, two_clients}

pub plain-EvpLaws : EvpLaws plain
plain-EvpLaws = record {
  inverse = λ message front rest u f.
      (front ++ rest, [], refl, refl, append-nil (front ++ rest) ∙ whole message front rest u f);
  padded = λ message front rest u f. omega (arith, ap (length {0}) (whole message front rest u f));
}
  where
    whole :
        (message front rest : Bytes)
        → some message ≡ some front
        → some [] ≡ some rest
        → front ++ rest ≡ message
    whole message front rest u f =
        let a : message ≡ front = cc in
        let b : [] ≡ rest = cc in ap (λ l. front ++ l) (sym b) ∙ append-nil front ∙ sym a

-- A discovery message of server 1, on its way with the port 37251.
abbrev discovery : Bytes
discovery = 17 ∷ 64 ∷ []

abbrev on_its_way : Bytes
on_its_way = 17 ∷ 131 ∷ 145 ∷ 64 ∷ []

abbrev server_addr : SockAddr
server_addr = record { is_inet = true; port = 37251; ip = codes "10.0.0.2" }

abbrev answered : NetComm
answered = record two_clients {
  object_comm = record two_clients.object_comm { active_channel = some 9 };
  client_fd_list =
      two_clients.client_fd_list
      ++ (new_client 9 network server_addr 0 fresh_info.buffered_data ∷ []);
  master_fd_set = 9 ∷ 6 ∷ 5 ∷ [];
  max_fd = 9;
}

discovery-encrypted :
    encrypt_message plain (append_port two_clients.port_in_use discovery) ≡ done on_its_way
unfolding encrypt_message in_buffer append_port
discovery-encrypted = refl

process_udp_input-data_packet_sender_example :
    (data_packet_sender plain python_server
        (λ proc_id s. no_socket)
        []
        []
        discovery
        true
        two_clients
      ≡ some (two_clients, datagram on_its_way ∷ []))
    × (process_udp_input plain keep_message cpp_module
          (λ addr. connected 9)
          fresh_info.buffered_data
          on_its_way
          home
          session
        ≡ some (record { net = answered; processor = discovery ∷ [] }))
unfolding udp_case add_fd_to_client_list set_last_used
process_udp_input-data_packet_sender_example =
    process_udp_input-data_packet_sender plain python_server (λ proc_id s. no_socket) [] [] 17 []
      two_clients on_its_way discovery-encrypted keep_message cpp_module (λ addr. connected 9)
      fresh_info.buffered_data home 9 session answered answered.object_comm (discovery ∷ [])
      mesg_processed_ok plain-EvpLaws (omega arith) refl refl refl refl refl refl refl refl

-- All ports but 37253, which is 0x9185 in network order.
only_third : ℕ → Bool
only_third sin_port = sin_port == 0x8591

search_port-Searched_example :
    (r : ℕ × Bool) × (search_port 101 only_third 37251 ≡ some r) × Searched only_third 37251 0 r
search_port-Searched_example = search_port-Searched 101 only_third 37251 (omega arith) (omega arith)

abbrev switched_off : NetComm
switched_off = record two_clients {
  net_comm_enabled = false;
  master_fd_set = [];
  client_fd_list = [];
}

abbrev udp_calls : ListenerCalls
udp_calls = record {
  socket = some 3;
  broadcast_option = true;
  reuse_option = true;
  bind = λ port. true;
  listen = true;
}

abbrev tcp_calls : ListenerCalls
tcp_calls = record udp_calls { socket = some 4; bind = only_third }

enable_net_comm-IsListening_example :
    (t : NetComm) × (enable_net_comm 101 udp_calls tcp_calls switched_off ≡ some t)
    × (t.net_comm_enabled ≡ true → IsListening udp_calls tcp_calls switched_off t)
enable_net_comm-IsListening_example =
    enable_net_comm-IsListening 101 udp_calls tcp_calls switched_off refl (omega arith)
      (omega arith)

-- An object that cannot connect, and keeps the hosts that it was asked for.
abbrev unlucky : CommObject (List Bytes)
unlucky = record {
  address = 4096;
  data_packet_sender = λ message broadcast hosts. hosts;
  create_talker = λ host port hosts. (hosts ++ (host ∷ []), comm_failed);
  set_broadcast_addr = λ addr hosts. (hosts, not_supported);
}

connect-connect_report_example :
    connect (unlucky ∷ []) 1 hello 37251 [] ≡ (hello ∷ [], some io_error)
unfolding connect_report connect_to connect_loop
connect-connect_report_example = connect-connect_report hello 37251 (unlucky ∷ []) 1 []

shut_channel-notice_example :
    (map_find two_clients.object_comm.obj_comm_map 1 ≡ some 5)
    × ((shut_channel keep_message cpp_module 5 true session).processor ≡ notice cpp_module 1 ∷ [])
    × ((other : ℕ)
        → map_find
            (shut_channel keep_message cpp_module 5 true session).net.object_comm.obj_comm_map
            other
          ≡ (if other == 1 then none else map_find two_clients.object_comm.obj_comm_map other))
unfolding find_channel
shut_channel-notice_example =
    shut_channel-notice keep_message cpp_module 5 1 session (omega arith, tt) refl
