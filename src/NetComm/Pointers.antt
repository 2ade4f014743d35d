-- ===== src/NetComm/Pointers.antt =====
-- The list of connections as the program keeps it: `ClientFD` nodes on the heap, joined by `pNext`.
-- `none` is a dangling pointer that is followed, or a walk that does not end within its fuel.
use pyconnect.Base.{
  Bool, List, Option, false, if◌then◌else◌, map_assign, map_erase, map_find, none, some, suc, zero,
  ℕ, ◌==◌,
}
use pyconnect.NetComm.Clients.{ClientFd}

pub record Node : Type 0 where
  pub client : ClientFd
  pub next : Option ℕ

-- `clientFDList_` and the nodes that are allocated, by their addresses.
pub record NodeStore : Type 0 where
  pub head : Option ℕ
  pub nodes : List (ℕ × Node)

-- `while (fdPtr->pNext) fdPtr = fdPtr->pNext`.
unfoldable pub last_node : ℕ → List (ℕ × Node) → ℕ → Option ℕ
last_node zero nodes fd_ptr = none
last_node (suc fuel) nodes fd_ptr = elim (map_find nodes fd_ptr) [
  | none ↦ none
  | some node ↦ elim node.next [ none ↦ some fd_ptr | some p ↦ last_node fuel nodes p ]
]

-- `fdPtr->pNext = next`.
unfoldable pub set_next : ℕ → Option ℕ → List (ℕ × Node) → Option (List (ℕ × Node))
set_next fd_ptr next nodes = elim (map_find nodes fd_ptr) [
  | none ↦ none
  | some node ↦ some (map_assign nodes fd_ptr (record node { next = next }))
]

-- The new node of `addFdToClientList`, at the address that `new` gives, goes to the end.
unfoldable pub append_node : ℕ → ℕ → ClientFd → NodeStore → Option NodeStore
append_node fuel new_fd client s =
    let nodes = map_assign s.nodes new_fd (record { client = client; next = none }) in
    elim s.head [
      | none ↦ some (record { head = some new_fd; nodes = nodes })
      | some first ↦ elim (last_node fuel nodes first) [
        | none ↦ none
        | some fd_ptr ↦ elim (set_next fd_ptr (some new_fd) nodes) [
          | none ↦ none
          | some nodes' ↦ some (record { head = some first; nodes = nodes' })
        ]
      ]
    ]

-- Where the search of `destroyCurrentClient(fd)` stops: at a node, with the one in front of it.
pub data Search : Type 0 where
  found : ℕ → ℕ → Search
  not_found lost : Search

-- `while (FDPtr && FDPtr->fd != fd)`.
unfoldable pub search_fd : ℕ → List (ℕ × Node) → ℕ → Option ℕ → ℕ → Search
search_fd zero nodes fd fd_ptr prev_fd_ptr = lost
search_fd (suc fuel) nodes fd none prev_fd_ptr = not_found
search_fd (suc fuel) nodes fd (some fd_ptr) prev_fd_ptr = elim (map_find nodes fd_ptr) [
  | none ↦ lost
  | some node ↦
      let further = search_fd fuel nodes fd node.next fd_ptr in
      if node.client.fd == fd then found fd_ptr prev_fd_ptr else further
]

-- `FDPtr == clientFDList_`.
abbrev pub is_head : Option ℕ → ℕ → Bool
is_head none fd_ptr = false
is_head (some first) fd_ptr = first == fd_ptr

-- The node is taken out of the list and deleted.
unfoldable pub unlink_node : ℕ → ℕ → NodeStore → Option NodeStore
unlink_node fd_ptr prev_fd_ptr s = elim (map_find s.nodes fd_ptr) [
  | none ↦ none
  | some node ↦
      if is_head s.head fd_ptr
      then some (record { head = node.next; nodes = map_erase s.nodes fd_ptr })
      else elim (set_next prev_fd_ptr node.next s.nodes) [
        | none ↦ none
        | some nodes' ↦ some (record s { nodes = map_erase nodes' fd_ptr })
      ]
]

abbrev pub unlink_found : Search → NodeStore → Option NodeStore
unlink_found (found fd_ptr prev_fd_ptr) s = unlink_node fd_ptr prev_fd_ptr s
unlink_found not_found s = some s
unlink_found lost s = none

-- What `destroyCurrentClient(fd)` does to the list; both pointers start at its head, and `prevFDPtr`
-- is not used where there is none.
abbrev pub destroy_from : ℕ → ℕ → Option ℕ → NodeStore → Option NodeStore
destroy_from fuel fd none s = some s
destroy_from fuel fd (some first) s = unlink_found (search_fd fuel s.nodes fd (some first) first) s

unfoldable pub destroy_node : ℕ → ℕ → NodeStore → Option NodeStore
destroy_node fuel fd s = destroy_from fuel fd s.head s
