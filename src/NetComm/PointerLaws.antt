-- ===== src/NetComm/PointerLaws.antt =====
-- What it is for nodes on the heap to hold a list of connections, and the node that is appended.
use pyconnect.Base.{
  ==_self, List, Option, [], ap, arith, length, map_assign, map_erase, map_find,
  map_find-map_assign, map_find-map_erase, ne→==, none, refl, some, suc, sym, zero, ℕ, ◌++◌, ◌<◌,
  ◌∙◌, ◌∷◌, ◌≡◌, ◌≢◌, ◌≤◌,
}
use pyconnect.NetComm.Clients.{ClientFd}
use pyconnect.NetComm.Pointers.{Node, NodeStore, append_node, last_node, set_next}

-- Connections with the addresses of their nodes.
abbrev pub Placed : Type 0
Placed = List (ℕ × ClientFd)

abbrev pub first_of : Placed → Option ℕ
first_of [] = none
first_of ((a, c) ∷ xs) = some a

abbrev pub Linked : List (ℕ × Node) → Placed → Type 0
Linked nodes [] = Unit
Linked nodes ((a, c) ∷ xs) =
    (map_find nodes a ≡ some (record { client = c; next = first_of xs })) × Linked nodes xs

abbrev pub Elsewhere : ℕ → Placed → Type 0
Elsewhere a [] = Unit
Elsewhere a ((b, c) ∷ xs) = (b ≢ a) × Elsewhere a xs

abbrev pub Apart : Placed → Type 0
Apart [] = Unit
Apart ((a, c) ∷ xs) = Elsewhere a xs × Apart xs

pub record Represents (s : NodeStore) (xs : Placed) : Type 0 where
  pub starts : s.head ≡ first_of xs
  pub linked : Linked s.nodes xs
  pub apart : Apart xs

abbrev pub clients_of : Placed → List ClientFd
clients_of [] = []
clients_of ((a, c) ∷ xs) = c ∷ clients_of xs

pub Linked-map_assign :
    (nodes : List (ℕ × Node)) (xs : Placed) (a : ℕ) (n : Node)
    → Elsewhere a xs
    → Linked nodes xs
    → Linked (map_assign nodes a n) xs
Linked-map_assign nodes [] a n h l = tt
Linked-map_assign nodes ((b, c) ∷ xs) a n (h, hs) (l, ls) =
    (map_find-map_assign nodes a b n ∙ rw (ne→== b a h) l, Linked-map_assign nodes xs a n hs ls)

pub Linked-map_erase :
    (nodes : List (ℕ × Node)) (xs : Placed) (a : ℕ)
    → Elsewhere a xs
    → Linked nodes xs
    → Linked (map_erase nodes a) xs
Linked-map_erase nodes [] a h l = tt
Linked-map_erase nodes ((b, c) ∷ xs) a (h, hs) (l, ls) =
    (map_find-map_erase nodes a b ∙ rw (ne→== b a h) l, Linked-map_erase nodes xs a hs ls)

-- A free address is that of no node.
pub Elsewhere-free :
    (nodes : List (ℕ × Node)) (xs : Placed) (a : ℕ)
    → map_find nodes a ≡ none
    → Linked nodes xs
    → Elsewhere a xs
Elsewhere-free nodes [] a e l = tt
Elsewhere-free nodes ((b, c) ∷ xs) a e (l, ls) =
    (λ same. absurd (taken same), Elsewhere-free nodes xs a e ls)
  where
    taken : b ≡ a → ⊥
    taken same = let there = ap (map_find nodes) same in cc

last_of : ℕ → Placed → ℕ
last_of a [] = a
last_of a ((b, c) ∷ xs) = last_of b xs

last_node-Linked :
    (fuel : ℕ) (nodes : List (ℕ × Node)) (a : ℕ) (c : ClientFd) (xs : Placed)
    → Linked nodes ((a, c) ∷ xs)
    → length xs < fuel
    → last_node fuel nodes a ≡ some (last_of a xs)
unfolding last_node last_of
last_node-Linked zero nodes a c xs l h = absurd (omega arith)
last_node-Linked (suc fuel) nodes a c [] (l, ls) h = rw (l, last_node) refl
last_node-Linked (suc fuel) nodes a c ((b, d) ∷ xs) (l, ls) h =
    rw (l, last_node) (last_node-Linked fuel nodes b d xs ls (omega arith))

last_of-ne : (p a : ℕ) (c : ClientFd) (xs : Placed) → Elsewhere p ((a, c) ∷ xs) → last_of a xs ≢ p
unfolding last_of
last_of-ne p a c [] (h, hs) = h
last_of-ne p a c ((b, d) ∷ xs) (h, hs) = last_of-ne p b d xs hs

-- The node in front of a new end is given its address.
append_Linked :
    (nodes : List (ℕ × Node)) (a b : ℕ) (c d : ClientFd) (xs : Placed)
    → Linked nodes ((a, c) ∷ xs)
    → Apart ((a, c) ∷ xs)
    → Elsewhere b ((a, c) ∷ xs)
    → map_find nodes b ≡ some (record { client = d; next = none })
    → (nodes' : List (ℕ × Node)) × (set_next (last_of a xs) (some b) nodes ≡ some nodes')
      × Linked nodes' ((a, c) ∷ (xs ++ ((b, d) ∷ [])))
      × ((p : ℕ) → p ≢ last_of a xs → map_find nodes' p ≡ map_find nodes p)
unfolding last_of set_next
append_Linked nodes a b c d [] (l, ls) (h, hs) (u, us) e =
    let n : Node = record { client = c; next = some b } in
    (
      map_assign nodes a n,
      rw (l, set_next) refl,
      (
        map_find-map_assign nodes a a n ∙ rw (==_self a) refl,
        (map_find-map_assign nodes a b n ∙ rw (ne→== b a (λ same. u (sym same))) e, tt),
      ),
      λ p ne. map_find-map_assign nodes a p n ∙ rw (ne→== p a ne) refl,
    )
append_Linked nodes a b c d ((a', c') ∷ xs) (l, ls) (h, hs) (u, us) e =
    let (nodes', done, linked, others) = append_Linked nodes a' b c' d xs ls hs us e in
    (nodes', done, (others a (λ same. last_of-ne a a' c' xs h (sym same)) ∙ l, linked), others)

Elsewhere-snoc :
    (p b : ℕ) (d : ClientFd) (xs : Placed)
    → Elsewhere p xs
    → b ≢ p
    → Elsewhere p (xs ++ ((b, d) ∷ []))
Elsewhere-snoc p b d [] h n = (n, tt)
Elsewhere-snoc p b d ((a, c) ∷ xs) (h, hs) n = (h, Elsewhere-snoc p b d xs hs n)

Apart-snoc :
    (b : ℕ) (d : ClientFd) (xs : Placed) → Apart xs → Elsewhere b xs → Apart (xs ++ ((b, d) ∷ []))
Apart-snoc b d [] h u = (tt, tt)
Apart-snoc b d ((a, c) ∷ xs) (h, hs) (u, us) =
    (Elsewhere-snoc a b d xs h (λ same. u (sym same)), Apart-snoc b d xs hs us)

pub clients_of-snoc :
    (b : ℕ) (d : ClientFd) (xs : Placed)
    → clients_of (xs ++ ((b, d) ∷ [])) ≡ clients_of xs ++ (d ∷ [])
clients_of-snoc b d [] = refl
clients_of-snoc b d ((a, c) ∷ xs) = ap (◌∷◌ c) (clients_of-snoc b d xs)

pub append_Represents :
    (fuel b : ℕ) (d : ClientFd) (s : NodeStore) (xs : Placed)
    → Represents s xs
    → map_find s.nodes b ≡ none
    → length xs ≤ fuel
    → (t : NodeStore) × (append_node fuel b d s ≡ some t) × Represents t (xs ++ ((b, d) ∷ []))
unfolding append_node
append_Represents fuel b d s [] r free h =
    let n : Node = record { client = d; next = none } in
    (
      record { head = some b; nodes = map_assign s.nodes b n },
      rw (r.starts, append_node) refl,
      record {
        starts = refl;
        linked = (map_find-map_assign s.nodes b b n ∙ rw (==_self b) refl, tt);
        apart = (tt, tt);
      },
    )
append_Represents fuel b d s ((a, c) ∷ xs) r free h =
    let n : Node = record { client = d; next = none } in
    let nodes = map_assign s.nodes b n in
    let u = Elsewhere-free s.nodes ((a, c) ∷ xs) b free r.linked in
    let old = Linked-map_assign s.nodes ((a, c) ∷ xs) b n u r.linked in
    let new : map_find nodes b ≡ some n = map_find-map_assign s.nodes b b n ∙ rw (==_self b) refl in
    let (nodes', done, linked, _) = append_Linked nodes a b c d xs old r.apart u new in
    (
      record { head = some a; nodes = nodes' },
      rw (r.starts, append_node)
          (rw (last_node-Linked fuel nodes a c xs old (omega arith), append_node)
            (rw (done, append_node) refl)),
      record { starts = refl; linked = linked; apart = Apart-snoc b d ((a, c) ∷ xs) r.apart u },
    )
