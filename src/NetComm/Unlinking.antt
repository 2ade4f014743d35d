-- ===== src/NetComm/Unlinking.antt =====
-- A node that is taken out of the list of connections on the heap.
use pyconnect.Base.{
  ==_self, Bool-cases, List, [], ap, arith, false, if_elim, if◌then◌else◌, inl, inr, length,
  map_assign, map_erase, map_find, map_find-map_assign, map_find-map_erase, ne→==, none, refl, some,
  subst, suc, sym, true, zero, ℕ, ◌<◌, ◌==◌, ◌∙◌, ◌∷◌, ◌≡◌, ◌≢◌,
}
use pyconnect.NetComm.Clients.{ClientFd}
use pyconnect.NetComm.Pointers.{
  Node, NodeStore, Search, destroy_from, destroy_node, found, lost, not_found, search_fd, set_next,
  unlink_found, unlink_node,
}
use pyconnect.NetComm.PointerLaws.{
  Apart, Elsewhere, Linked, Linked-map_assign, Linked-map_erase, Placed, Represents, first_of,
}

-- The search over the list that the nodes hold.
search_spec : ℕ → Placed → ℕ → Search
search_spec fd [] prev = not_found
search_spec fd ((a, c) ∷ xs) prev = if c.fd == fd then found a prev else search_spec fd xs a

search_fd-Linked :
    (fuel : ℕ) (nodes : List (ℕ × Node)) (fd : ℕ) (xs : Placed) (prev : ℕ)
    → Linked nodes xs
    → length xs < fuel
    → search_fd fuel nodes fd (first_of xs) prev ≡ search_spec fd xs prev
unfolding search_fd search_spec
search_fd-Linked zero nodes fd xs prev l h = absurd (omega arith)
search_fd-Linked (suc fuel) nodes fd [] prev l h = refl
search_fd-Linked (suc fuel) nodes fd ((a, c) ∷ xs) prev (l, ls) h =
    rw (l, search_fd)
      (ap (λ r. if c.fd == fd then found a prev else r)
        (search_fd-Linked fuel nodes fd xs a ls (omega arith)))

-- The first connection with a descriptor is left out.
abbrev pub without : ℕ → Placed → Placed
without fd [] = []
without fd ((a, c) ∷ xs) = if c.fd == fd then xs else (a, c) ∷ without fd xs

-- Taking out the node at `cur`, which stands behind the one at `prev`, leaves `ys` linked.
record Unlinks (nodes : List (ℕ × Node)) (ys : Placed) (cur prev : ℕ) : Type 0 where
  pub node : Node
  pub there : map_find nodes cur ≡ some node
  pub nodes' : List (ℕ × Node)
  pub relinked : set_next prev node.next nodes ≡ some nodes'
  pub linked : Linked (map_erase nodes' cur) ys
  pub others : (q : ℕ) → q ≢ prev → map_find nodes' q ≡ map_find nodes q

-- What a search behind the node `p` finds stands in `xs`, and can be taken out.
abbrev Removable : ℕ → List (ℕ × Node) → ℕ → ClientFd → Placed → Search → Type 0
Removable fd nodes p d xs (found cur prev) =
    Unlinks nodes ((p, d) ∷ without fd xs) cur prev
    × ((q : ℕ) → Elsewhere q xs → cur ≢ q)
    × ((q : ℕ) → Elsewhere q ((p, d) ∷ xs) → prev ≢ q)
Removable fd nodes p d xs not_found = without fd xs ≡ xs
Removable fd nodes p d xs lost = ⊥

-- The node right behind `p`.
unlink_next :
    (nodes : List (ℕ × Node)) (p a : ℕ) (d c : ClientFd) (xs : Placed)
    → Linked nodes ((p, d) ∷ (a, c) ∷ xs)
    → Apart ((p, d) ∷ (a, c) ∷ xs)
    → Unlinks nodes ((p, d) ∷ xs) a p
unfolding set_next
unlink_next nodes p a d c xs (l, (m, ls)) ((np, ps), (na, hs)) =
    let n : Node = record { client = d; next = first_of xs } in
    let nodes' = map_assign nodes p n in
    record {
      node = record { client = c; next = first_of xs };
      there = m;
      nodes' = nodes';
      relinked = rw (l, set_next) refl;
      linked = (
        map_find-map_erase nodes' a p
            ∙ rw (ne→== p a (λ same. np (sym same)))
                (map_find-map_assign nodes p p n ∙ rw (==_self p) refl),
        Linked-map_erase nodes' xs a na (Linked-map_assign nodes xs p n ps ls),
      );
      others = λ q ne. map_find-map_assign nodes p q n ∙ rw (ne→== q p ne) refl;
    }

-- A node in front changes nothing.
Removable-behind :
    (fd : ℕ) (nodes : List (ℕ × Node)) (p a : ℕ) (d c : ClientFd) (xs : Placed) (r : Search)
    → Linked nodes ((p, d) ∷ (a, c) ∷ xs)
    → Apart ((p, d) ∷ (a, c) ∷ xs)
    → (c.fd == fd) ≡ false
    → Removable fd nodes a c xs r
    → Removable fd nodes p d ((a, c) ∷ xs) r
Removable-behind fd nodes p a d c xs (found cur prev) (l, ls) ((np, ps), hs) other
      (u, in_xs, before) =
    let still : without fd ((a, c) ∷ xs) ≡ (a, c) ∷ without fd xs = rw other refl in
    let away : p ≢ cur = λ same. in_xs p ps (sym same) in
    let kept : p ≢ prev = λ same. before p (np, ps) (sym same) in
    (
      record {
        node = u.node;
        there = u.there;
        nodes' = u.nodes';
        relinked = u.relinked;
        linked =
            subst (λ ys. Linked (map_erase u.nodes' cur) ((p, d) ∷ ys)) (sym still)
              (
                map_find-map_erase u.nodes' cur p ∙ rw (ne→== p cur away) (u.others p kept ∙ l),
                u.linked,
              );
        others = u.others;
      },
      λ q h. in_xs q h.1,
      λ q h. before q h.1,
    )
Removable-behind fd nodes p a d c xs not_found l h other same = rw other (ap (◌∷◌ (a, c)) same)
Removable-behind fd nodes p a d c xs lost l h other bad = bad

search_spec-Removable :
    (fd : ℕ) (nodes : List (ℕ × Node)) (p : ℕ) (d : ClientFd) (xs : Placed)
    → Linked nodes ((p, d) ∷ xs)
    → Apart ((p, d) ∷ xs)
    → Removable fd nodes p d xs (search_spec fd xs p)
unfolding search_spec
search_spec-Removable fd nodes p d [] l h = refl
search_spec-Removable fd nodes p d ((a, c) ∷ xs) l h =
    if_elim (Removable fd nodes p d ((a, c) ∷ xs)) (c.fd == fd) (found a p) (search_spec fd xs a)
      (λ same. (
        subst (λ ys. Unlinks nodes ((p, d) ∷ ys) a p) (sym (first same))
            (unlink_next nodes p a d c xs l h),
        λ q u. u.0,
        λ q u. u.0,
      ))
      (λ other.
        Removable-behind fd nodes p a d c xs (search_spec fd xs a) l h other
          (search_spec-Removable fd nodes a c xs l.1 h.1))
  where
    first : (c.fd == fd) ≡ true → without fd ((a, c) ∷ xs) ≡ xs
    first same = rw same refl

Elsewhere-without : (a fd : ℕ) (xs : Placed) → Elsewhere a xs → Elsewhere a (without fd xs)
Elsewhere-without a fd [] h = tt
Elsewhere-without a fd ((b, c) ∷ xs) (h, hs) =
    if_elim (Elsewhere a) (c.fd == fd) xs ((b, c) ∷ without fd xs) (λ _. hs)
      (λ _. (h, Elsewhere-without a fd xs hs))

Apart-without : (fd : ℕ) (xs : Placed) → Apart xs → Apart (without fd xs)
Apart-without fd [] h = tt
Apart-without fd ((b, c) ∷ xs) (h, hs) =
    if_elim Apart (c.fd == fd) xs ((b, c) ∷ without fd xs) (λ _. hs)
      (λ _. (Elsewhere-without b fd xs h, Apart-without fd xs hs))

unlink_found-Represents :
    (fd a : ℕ) (c : ClientFd) (xs : Placed) (s : NodeStore) (r : Search)
    → Represents s ((a, c) ∷ xs)
    → Removable fd s.nodes a c xs r
    → (t : NodeStore) × (unlink_found r s ≡ some t) × Represents t ((a, c) ∷ without fd xs)
unfolding unlink_node
unlink_found-Represents fd a c xs s (found cur prev) v (u, in_xs, before) =
    let away : a ≢ cur = λ same. in_xs a v.apart.0 (sym same) in
    (
      record { head = some a; nodes = map_erase u.nodes' cur },
      rw (u.there, unlink_node)
          (rw (v.starts, unlink_node)
            (rw (ne→== a cur away) (
              rw (u.relinked, unlink_node)
                (ap (λ h. some (record { head = h; nodes = map_erase u.nodes' cur })) v.starts)))),
      record {
        starts = refl;
        linked = u.linked;
        apart = (Elsewhere-without a fd xs v.apart.0, Apart-without fd xs v.apart.1);
      },
    )
unlink_found-Represents fd a c xs s not_found v same =
    (s, refl, subst (λ ys. Represents s ((a, c) ∷ ys)) (sym same) v)
unlink_found-Represents fd a c xs s lost v bad = absurd bad

pub destroy_Represents :
    (fuel fd : ℕ) (s : NodeStore) (xs : Placed)
    → Represents s xs
    → length xs < fuel
    → (t : NodeStore) × (destroy_node fuel fd s ≡ some t) × Represents t (without fd xs)
unfolding destroy_node unlink_node search_spec
destroy_Represents fuel fd s [] v h = (
  record { head = none; nodes = s.nodes },
  ap (λ h. destroy_from fuel fd h s) v.starts
      ∙ ap (λ h. some (record { head = h; nodes = s.nodes })) v.starts,
  record { starts = refl; linked = tt; apart = tt },
)
destroy_Represents fuel fd s ((a, c) ∷ xs) v h =
    let searched = search_fd-Linked fuel s.nodes fd ((a, c) ∷ xs) a v.linked h in
    let start : destroy_node fuel fd s
        ≡ unlink_found (if c.fd == fd then found a a else search_spec fd xs a) s =
      ap (λ h. destroy_from fuel fd h s) v.starts ∙ ap (λ r. unlink_found r s) searched in
    elim (Bool-cases (c.fd == fd)) [
      | inl same ↦ (
        record { head = first_of xs; nodes = map_erase s.nodes a },
        start
            ∙ rw same
                (rw (v.linked.0, unlink_node) (rw (v.starts, unlink_node) (rw (==_self a) refl))),
        rw same (record {
          starts = refl;
          linked = Linked-map_erase s.nodes xs a v.apart.0 v.linked.1;
          apart = v.apart.1;
        }),
      )
      | inr other ↦
          let (t, done, w) =
            unlink_found-Represents fd a c xs s (search_spec fd xs a) v
              (search_spec-Removable fd s.nodes a c xs v.linked v.apart) in
          (t, start ∙ rw other done, rw other w)
    ]
