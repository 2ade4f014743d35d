-- ===== src/Examples/Network.antt =====
-- Two connections, one from the network and one from the machine, and the theorems at them.
use pyconnect.Base.{
  Bytes, List, [], arith, false, if◌then◌else◌, map_find, none, refl, some, suc, true, ℕ, ◌++◌,
  ◌||◌, ◌∷◌, ◌≡◌, ◌≤◌,
}
use pyconnect.Common.Types.{codes, mesg_processed_ok, msg_buffer_size}
use pyconnect.Common.Cipher.{Evp}
use pyconnect.ObjComm.Channels.{cpp_module, set_last_used}
use pyconnect.NetComm.Clients.{
  ClientFd, NetComm, add_fd_to_client_list, destroy_client_by_fd, destroy_current_client, fd_isset,
  is_network, local_ipc, max, network, new_client, zero_addr,
}
use pyconnect.NetComm.ClientLaws.{
  ClientsAreValid, Unused, destroy_client_by_fd-destroy_current_client,
}
use pyconnect.NetComm.Pointers.{Node, NodeStore, append_node, destroy_node}
use pyconnect.NetComm.PointerRefinement.{
  Implements, append_node-Implements, destroy_node-Implements,
}
use pyconnect.NetComm.Incoming.{ProcessInput, Reading, Session, client_loop, closed_by_peer}
use pyconnect.NetComm.Survivors.{fds_of, survivors}
use pyconnect.NetComm.IncomingLaws.{client_loop-survivors}
use pyconnect.NetComm.Sending.{connected, create_tcp_talker}
use pyconnect.NetComm.EventLoop.{System, SystemLaws}
use pyconnect.NetComm.Reachable.{Reach-ClientsAreValid, Step, connecting, here, next}
use pyconnect.NetComm.Closing.{delete_domain, disable_net_comm}
use pyconnect.NetComm.ClosingLaws.{append_node-delete_domain}
use pyconnect.NetComm.Closed.{closes, disable_net_comm-closes, is_fd}
use pyconnect.Examples.{home}
use pyconnect.Examples.Stream.{fresh_info, fresh_info-IsValid, length-zeros}

abbrev pub remote : ClientFd
remote = record {
  fd = 5;
  domain = network;
  client_addr = home;
  local_proc_id = 0;
  data_info = fresh_info;
}

abbrev neighbour : ClientFd
neighbour = record {
  fd = 6;
  domain = local_ipc;
  client_addr = zero_addr;
  local_proc_id = 812;
  data_info = fresh_info;
}

abbrev pub two_clients : NetComm
two_clients = record {
  object_comm = record { obj_comm_map = (1, 5) ∷ []; active_channel = none };
  client_fd_list = remote ∷ neighbour ∷ [];
  master_fd_set = 6 ∷ 5 ∷ [];
  max_fd = 6;
  fd_owner = none;
  closed = [];
  udp_socket = some 3;
  tcp_socket = some 4;
  domain_socket = none;
  net_comm_enabled = true;
  ipc_comm_enabled = false;
  invalid_udp_sock = false;
  port_in_use = 37251;
  broadcast_ip = codes "255.255.255.255";
}

two_clients-ClientsAreValid : ClientsAreValid two_clients
unfolding fd_isset
two_clients-ClientsAreValid = record {
  each = (
    record { watched = refl; below = omega arith; buffer_valid = fresh_info-IsValid },
    (record { watched = refl; below = omega arith; buffer_valid = fresh_info-IsValid }, tt),
  );
  distinct = ((λ e. absurd (omega arith), tt), (tt, tt));
}

-- A message processor that keeps the messages.
abbrev pub keep_message : ProcessInput (List Bytes)
keep_message message addr skip_decrypt c messages =
    (c, messages ++ (message ∷ []), mesg_processed_ok)

abbrev pub session : Session (List Bytes)
session = record { net = two_clients; processor = [] }

abbrev hang_up : ℕ → Reading
hang_up fd = closed_by_peer

client_loop-survivors_example :
    (t : Session (List Bytes)) × (client_loop keep_message cpp_module (5 ∷ []) hang_up 3 0 session
      ≡ some t)
    × ClientsAreValid t.net
    × (fds_of t.net.client_fd_list ≡ survivors (5 ∷ []) hang_up (5 ∷ 6 ∷ []))
client_loop-survivors_example =
    client_loop-survivors keep_message cpp_module (5 ∷ []) hang_up 3 session
      two_clients-ClientsAreValid (omega arith)

destroy_client_by_fd-destroy_current_client_example :
    destroy_client_by_fd (some 6) two_clients ≡ destroy_current_client 1 two_clients
destroy_client_by_fd-destroy_current_client_example =
    destroy_client_by_fd-destroy_current_client 1 two_clients two_clients-ClientsAreValid refl

abbrev two_nodes : NodeStore
two_nodes = record {
  head = some 100;
  nodes =
      (100, record { client = remote; next = some 104 })
      ∷ (104, record { client = neighbour; next = none })
      ∷ [];
}

two_nodes-Implements : Implements two_nodes two_clients.client_fd_list
unfolding map_find
two_nodes-Implements = record {
  placed = (100, remote) ∷ (104, neighbour) ∷ [];
  represents = record {
    starts = refl;
    linked = (refl, (refl, tt));
    apart = ((λ e. absurd (omega arith), tt), (tt, tt));
  };
  in_order = refl;
}

destroy_node-Implements_example :
    (nodes : NodeStore) × (destroy_node 3 5 two_nodes ≡ some nodes)
    × Implements nodes (destroy_client_by_fd (some 5) two_clients).client_fd_list
destroy_node-Implements_example =
    destroy_node-Implements 3 5 two_nodes two_clients two_nodes-Implements (omega arith)

abbrev three_clients : NetComm
three_clients = record two_clients {
  object_comm = record two_clients.object_comm { active_channel = some 7 };
  client_fd_list = remote ∷ neighbour ∷ (new_client 7 network home 0 fresh_info.buffered_data) ∷ [];
  master_fd_set = 7 ∷ 6 ∷ 5 ∷ [];
  max_fd = 7;
}

append_node-Implements_example :
    (nodes : NodeStore) × (append_node 2 108
        (new_client 7 network home 0 fresh_info.buffered_data)
        two_nodes
      ≡ some nodes)
    × Implements nodes three_clients.client_fd_list
unfolding map_find add_fd_to_client_list set_last_used
append_node-Implements_example =
    append_node-Implements 2 108 7 network home 0 fresh_info.buffered_data two_nodes two_clients
      three_clients two_nodes-Implements refl (omega arith) refl

append_node-delete_domain_example :
    (nodes : List (ℕ × Node)) × (delete_domain 3 is_network two_nodes.nodes two_nodes.head
      ≡ some nodes)
    × (append_node 4 108 neighbour (record { head = two_nodes.head; nodes = nodes }) ≡ none)
unfolding map_find
append_node-delete_domain_example =
    append_node-delete_domain 4 108 neighbour is_network two_nodes two_clients.client_fd_list
      two_nodes-Implements refl refl

disable_net_comm-closes_example :
    (let t = disable_net_comm keep_message cpp_module true session in
      let closing = closes is_network 5 two_clients.client_fd_list in
      (t.net.net_comm_enabled ≡ false)
      × (fd_isset 5 t.net.master_fd_set
          ≡ (if closing then false else fd_isset 5 two_clients.master_fd_set))
      × (fd_isset 5 t.net.closed
          ≡ (is_fd 5 (some 4) || (is_fd 5 (some 3) || (closing || fd_isset 5 [])))))
disable_net_comm-closes_example =
    disable_net_comm-closes keep_message cpp_module true 5 session refl refl

-- A descriptor above those of all connections.
abbrev next_fd : List ClientFd → ℕ
next_fd [] = 0
next_fd (c ∷ clients) = max (suc c.fd) (next_fd clients)

next_fd-Unused : (clients : List ClientFd) (fd : ℕ) → next_fd clients ≤ fd → Unused fd clients
next_fd-Unused [] fd h = tt
next_fd-Unused (c ∷ clients) fd h = (λ e. ground arith, next_fd-Unused clients fd (ground arith))

abbrev system : System
system = record {
  ready = [];
  recvfrom = none;
  accept_tcp = λ s. some (next_fd s.client_fd_list, home);
  accept_ipc = λ s. some (next_fd s.client_fd_list, zero_addr);
  connect = λ addr s. connected (next_fd s.client_fd_list);
  connect_ipc = λ proc_id s. connected (next_fd s.client_fd_list);
  read = hang_up;
  new_buffer = fresh_info.buffered_data;
}

system-SystemLaws : SystemLaws system
system-SystemLaws = record {
  tcp_fresh = λ s. next_fd-Unused s.client_fd_list _ (omega arith);
  ipc_fresh = λ s. next_fd-Unused s.client_fd_list _ (omega arith);
  connect_fresh = λ addr s. next_fd-Unused s.client_fd_list _ (omega arith);
  connect_ipc_fresh = λ proc_id s. next_fd-Unused s.client_fd_list _ (omega arith);
  buffer_size = length-zeros msg_buffer_size;
}

-- A cipher that leaves a message as it is.
abbrev pub plain : Evp
plain = record {
  encrypt_update = λ m. some m;
  encrypt_final = λ m. some [];
  decrypt_update = λ m. some m;
  decrypt_final = λ m. some [];
}

two_clients-Step :
    Step plain keep_message cpp_module session (record session { net = three_clients })
unfolding create_tcp_talker add_fd_to_client_list set_last_used
two_clients-Step = connecting {established = true} system home system-SystemLaws refl

Reach-ClientsAreValid_example : ClientsAreValid three_clients
Reach-ClientsAreValid_example =
    Reach-ClientsAreValid plain keep_message cpp_module {w = session}
      {t = record session { net = three_clients }} (next here two_clients-Step)
      two_clients-ClientsAreValid
