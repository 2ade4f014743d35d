-- ===== src/NetComm/PointerRefinement.antt =====
-- The nodes on the heap implement the list of connections.
use mathlib.Core.Option
use pyconnect.Base.{
  Bool-cases, Bytes, List, Option, Option-cases, [], ap, arith, inl, inr, length, map_find, none,
  refl, some, suc, sym, ℕ, ◌++◌, ◌<◌, ◌==◌, ◌∙◌, ◌∷◌, ◌≡◌, ◌≤◌,
}
use pyconnect.ObjComm.Channels.{set_last_used}
use pyconnect.Common.Types.{SockAddr}
use pyconnect.NetComm.Clients.{
  ClientFd, FdDomain, NetComm, add_fd_to_client_list, client_position, destroy_client_by_fd,
  new_client, remove_at,
}
use pyconnect.NetComm.Pointers.{NodeStore, append_node, destroy_node}
use pyconnect.NetComm.PointerLaws.{
  Placed, Represents, append_Represents, clients_of, clients_of-snoc,
}
use pyconnect.NetComm.Unlinking.{destroy_Represents, without}

-- The nodes from `clientFDList_` on are the connections of the list, in order, each at an address of
-- its own.
pub record Implements (s : NodeStore) (clients : List ClientFd) : Type 0 where
  pub placed : List (ℕ × ClientFd)
  pub represents : Represents s placed
  pub in_order : clients_of placed ≡ clients

-- The list without the node at a position, if there is one.
removed : List ClientFd → Option ℕ → List ClientFd
removed clients none = clients
removed clients (some i) = remove_at clients i

removed-suc :
    (c : ClientFd) (clients : List ClientFd) (o : Option ℕ)
    → c ∷ removed clients o ≡ removed (c ∷ clients) (Option.map suc o)
unfolding removed remove_at
removed-suc c clients none = refl
removed-suc c clients (some i) = refl

clients_of-without :
    (fd : ℕ) (xs : Placed)
    → clients_of (without fd xs) ≡ removed (clients_of xs) (client_position fd (clients_of xs))
unfolding client_position remove_at removed
clients_of-without fd [] = refl
clients_of-without fd ((a, c) ∷ xs) = elim (Bool-cases (c.fd == fd)) [
  | inl same ↦ rw same refl
  | inr other ↦ rw other (ap (◌∷◌ c) (clients_of-without fd xs) ∙ removed-suc c _ _)
]

client_fd_list-destroy :
    (fd : ℕ) (s : NetComm)
    → (destroy_client_by_fd (some fd) s).client_fd_list
      ≡ removed s.client_fd_list (client_position fd s.client_fd_list)
unfolding destroy_client_by_fd removed
client_fd_list-destroy fd s = elim (Option-cases (client_position fd s.client_fd_list)) [
  | inl e ↦ rw (e, destroy_client_by_fd) refl
  | inr (i, e) ↦ rw (e, destroy_client_by_fd) refl
]

pub length-clients_of : (xs : Placed) → length (clients_of xs) ≡ length xs
length-clients_of [] = refl
length-clients_of ((a, c) ∷ xs) = ap suc (length-clients_of xs)

-- What `addFdToClientList` does to the nodes, at a free address, ends within as many steps as there
-- are connections, never follows a dangling pointer, and gives the nodes of the list that the
-- operation on lists gives.
pub append_node-Implements :
    (fuel new_fd fd : ℕ) (domain : FdDomain) (client_addr : SockAddr) (proc_id : ℕ) (buffer : Bytes)
    (nodes : NodeStore) (s t : NetComm)
    → Implements nodes s.client_fd_list
    → map_find nodes.nodes new_fd ≡ none
    → length s.client_fd_list ≤ fuel
    → add_fd_to_client_list (some fd) domain client_addr proc_id buffer s ≡ some t
    → (nodes' : NodeStore) × (append_node fuel new_fd
          (new_client fd domain client_addr proc_id buffer)
          nodes
        ≡ some nodes')
      × Implements nodes' t.client_fd_list
unfolding add_fd_to_client_list set_last_used
append_node-Implements fuel new_fd fd domain client_addr proc_id buffer nodes s t i free h e =
    let c = new_client fd domain client_addr proc_id buffer in
    let small = length-clients_of i.placed in
    let size = ap length i.in_order in
    let (nodes', done, r) =
      append_Represents fuel new_fd c nodes i.placed i.represents free (omega arith) in
    (
      nodes',
      done,
      record {
        placed = i.placed ++ ((new_fd, c) ∷ []);
        represents = r;
        in_order =
            clients_of-snoc new_fd c i.placed
            ∙ ap (λ l. l ++ (c ∷ [])) i.in_order
            ∙ ap (λ o. elim o [ none ↦ s.client_fd_list ++ (c ∷ []) | some u ↦ u.client_fd_list ])
                e;
      },
    )

-- What `destroyCurrentClient(fd)` does to the nodes ends within one step more than there are
-- connections, never follows a dangling pointer, and gives the nodes of the list that the operation
-- on lists gives.
pub destroy_node-Implements :
    (fuel fd : ℕ) (nodes : NodeStore) (s : NetComm)
    → Implements nodes s.client_fd_list
    → length s.client_fd_list < fuel
    → (nodes' : NodeStore) × (destroy_node fuel fd nodes ≡ some nodes')
      × Implements nodes' (destroy_client_by_fd (some fd) s).client_fd_list
destroy_node-Implements fuel fd nodes s i h =
    let small = length-clients_of i.placed in
    let size = ap length i.in_order in
    let (nodes', done, r) = destroy_Represents fuel fd nodes i.placed i.represents (omega arith) in
    (
      nodes',
      done,
      record {
        placed = without fd i.placed;
        represents = r;
        in_order =
            clients_of-without fd i.placed
            ∙ ap (λ l. removed l (client_position fd l)) i.in_order
            ∙ sym (client_fd_list-destroy fd s);
      },
    )
