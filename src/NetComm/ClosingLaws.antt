-- ===== src/NetComm/ClosingLaws.antt =====
-- What is closed when the network is switched off, and what is left of the list of connections.
use pyconnect.NetComm.PointerRefinement.{Implements, length-clients_of}
use pyconnect.Base.{
  ==_self, Bool, Bool-cases, List, [], ap, arith, false, if_elim, if◌then◌else◌, inl, inr, length,
  map_assign, map_erase, map_find, map_find-map_assign, map_find-map_erase, ne→==, none, refl, some,
  suc, sym, true, zero, ℕ, ◌<◌, ◌||◌, ◌∙◌, ◌∷◌, ◌≡◌, ◌≢◌,
}
use pyconnect.NetComm.Clients.{ClientFd, FdDomain}
use pyconnect.NetComm.Pointers.{Node, NodeStore, append_node, last_node}
use pyconnect.NetComm.PointerLaws.{
  Apart, Elsewhere, Elsewhere-free, Linked, Linked-map_erase, Placed, clients_of, first_of,
}
use pyconnect.NetComm.Closing.{delete_domain}

-- The nodes of the domain are gone, the others are as they were.
abbrev Swept : (FdDomain → Bool) → List (ℕ × Node) → Placed → Type 0
Swept in_domain nodes [] = Unit
Swept in_domain nodes ((a, c) ∷ xs) =
    (map_find nodes a
      ≡ (if in_domain c.domain then none else some (record { client = c; next = first_of xs })))
    × Swept in_domain nodes xs

Elsewhere-erased :
    (in_domain : FdDomain → Bool) (nodes : List (ℕ × Node)) (a : ℕ) (c : ClientFd) (xs : Placed)
    → Elsewhere a xs
    → Linked nodes xs
    → Linked (if in_domain c.domain then map_erase nodes a else nodes) xs
Elsewhere-erased in_domain nodes a c xs h l =
    if_elim (λ n. Linked n xs) (in_domain c.domain) (map_erase nodes a) nodes
      (λ _. Linked-map_erase nodes xs a h l) (λ _. l)

delete_domain-Swept :
    (fuel : ℕ) (in_domain : FdDomain → Bool) (nodes : List (ℕ × Node)) (xs : Placed)
    → Linked nodes xs
    → Apart xs
    → length xs < fuel
    → (nodes' : List (ℕ × Node)) × (delete_domain fuel in_domain nodes (first_of xs) ≡ some nodes')
      × Swept in_domain nodes' xs
      × ((p : ℕ) → Elsewhere p xs → map_find nodes' p ≡ map_find nodes p)
unfolding delete_domain
delete_domain-Swept zero in_domain nodes xs l h f = absurd (omega arith)
delete_domain-Swept (suc fuel) in_domain nodes [] l h f = (nodes, refl, tt, λ p _. refl)
delete_domain-Swept (suc fuel) in_domain nodes ((a, c) ∷ xs) (l, ls) (h, hs) f =
    let left = if in_domain c.domain then map_erase nodes a else nodes in
    let (nodes', e, swept, others) =
      delete_domain-Swept fuel in_domain left xs (Elsewhere-erased in_domain nodes a c xs h ls) hs
        (omega arith) in
    (
      nodes',
      rw (l, delete_domain) e,
      (others a h ∙ at_node, swept),
      λ p u. others p u.1 ∙ kept_at p u.0,
    )
  where
    at_node :
        map_find (if in_domain c.domain then map_erase nodes a else nodes) a
        ≡ (if in_domain c.domain then none else some (record { client = c; next = first_of xs }))
    at_node = elim (Bool-cases (in_domain c.domain)) [
      | inl d ↦ rw d (map_find-map_erase nodes a a ∙ rw (==_self a) refl)
      | inr d ↦ rw d l
    ]

    kept_at :
        (p : ℕ)
        → a ≢ p
        → map_find (if in_domain c.domain then map_erase nodes a else nodes) p ≡ map_find nodes p
    kept_at p ne = elim (Bool-cases (in_domain c.domain)) [
      | inl d ↦ rw d (map_find-map_erase nodes a p ∙ rw (ne→== p a (λ s. ne (sym s))) refl)
      | inr d ↦ rw d refl
    ]

-- A connection of the domain is in the list.
abbrev pub has_domain : (FdDomain → Bool) → List ClientFd → Bool
has_domain in_domain [] = false
has_domain in_domain (c ∷ clients) = in_domain c.domain || has_domain in_domain clients

last_node-Swept :
    (fuel : ℕ) (in_domain : FdDomain → Bool) (nodes : List (ℕ × Node)) (a : ℕ) (c : ClientFd)
    (xs : Placed)
    → Swept in_domain nodes ((a, c) ∷ xs)
    → has_domain in_domain (clients_of ((a, c) ∷ xs)) ≡ true
    → last_node fuel nodes a ≡ none
unfolding last_node
last_node-Swept zero in_domain nodes a c xs s h = refl
last_node-Swept (suc fuel) in_domain nodes a c [] (s, ss) h =
    let gone : map_find nodes a ≡ none = s ∙ rw (in_front h) refl in rw (gone, last_node) refl
  where
    in_front : (in_domain c.domain || false) ≡ true → in_domain c.domain ≡ true
    in_front h = ground arith
last_node-Swept (suc fuel) in_domain nodes a c ((b, d) ∷ xs) (s, ss) h =
    elim (Bool-cases (in_domain c.domain)) [
      | inl i ↦ let gone : map_find nodes a ≡ none = s ∙ rw i refl in rw (gone, last_node) refl
      | inr o ↦
          let there : map_find nodes a ≡ some (record { client = c; next = some b }) =
            s ∙ rw o refl in
          rw (there, last_node)
            (last_node-Swept fuel in_domain nodes b d xs ss (sym (rw o refl) ∙ h))
    ]

Swept-map_assign :
    (in_domain : FdDomain → Bool) (nodes : List (ℕ × Node)) (xs : Placed) (a : ℕ) (n : Node)
    → Elsewhere a xs
    → Swept in_domain nodes xs
    → Swept in_domain (map_assign nodes a n) xs
Swept-map_assign in_domain nodes [] a n h s = tt
Swept-map_assign in_domain nodes ((b, c) ∷ xs) a n (h, hs) (s, ss) = (
  map_find-map_assign nodes a b n ∙ rw (ne→== b a h) s,
  Swept-map_assign in_domain nodes xs a n hs ss,
)

append_node-Swept :
    (fuel new_fd : ℕ) (c : ClientFd) (in_domain : FdDomain → Bool) (nodes : List (ℕ × Node))
    (xs : Placed)
    → Swept in_domain nodes xs
    → Elsewhere new_fd xs
    → has_domain in_domain (clients_of xs) ≡ true
    → append_node fuel new_fd c (record { head = first_of xs; nodes = nodes }) ≡ none
unfolding append_node
append_node-Swept fuel new_fd c in_domain nodes [] s u h = absurd (cc)
append_node-Swept fuel new_fd c in_domain nodes ((a, d) ∷ xs) s u h =
    let n : Node = record { client = c; next = none } in
    let swept = Swept-map_assign in_domain nodes ((a, d) ∷ xs) new_fd n u s in
    rw (last_node-Swept fuel in_domain _ a d xs swept h, append_node) refl

-- When `disableNetComm` or `disableIPCComm` deletes the nodes of its connections, and there is at
-- least one, the list still leads to a deleted node: the next connection that is to be appended, at an
-- address that was not in use before, follows a dangling pointer, however long the walk may be.
pub append_node-delete_domain :
    (fuel new_fd : ℕ) (c : ClientFd) (in_domain : FdDomain → Bool) (nodes : NodeStore)
    (clients : List ClientFd)
    → Implements nodes clients
    → has_domain in_domain clients ≡ true
    → map_find nodes.nodes new_fd ≡ none
    → (nodes' : List (ℕ × Node)) × (delete_domain
          (suc (length clients))
          in_domain
          nodes.nodes
          nodes.head
        ≡ some nodes')
      × (append_node fuel new_fd c (record { head = nodes.head; nodes = nodes' }) ≡ none)
append_node-delete_domain fuel new_fd c in_domain nodes clients i h free =
    let size = length-clients_of i.placed in
    let whole = ap length i.in_order in
    let (nodes', e, swept, others) =
      delete_domain-Swept (suc (length clients)) in_domain nodes.nodes i.placed i.represents.linked
        i.represents.apart (omega arith) in
    let u = Elsewhere-free nodes.nodes i.placed new_fd free i.represents.linked in
    (
      nodes',
      ap (delete_domain (suc (length clients)) in_domain nodes.nodes) i.represents.starts ∙ e,
      ap (λ p. append_node fuel new_fd c (record { head = p; nodes = nodes' })) i.represents.starts
          ∙ append_node-Swept fuel new_fd c in_domain nodes' i.placed swept u
              (ap (has_domain in_domain) i.in_order ∙ h),
    )
