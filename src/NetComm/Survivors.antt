-- ===== src/NetComm/Survivors.antt =====
-- The descriptors that are left of a list of connections, and lists in which one connection changes.
use pyconnect.Base.{
  All-get_elem?, All-set, Bool, List, [], ap, arith, false, get_elem?, if◌then◌else◌, length, none,
  refl, set, some, subst, suc, sym, true, zero, ℕ, ◌&&◌, ◌+◌, ◌∙◌, ◌∷◌, ◌≡◌, ◌≢◌,
}
use pyconnect.NetComm.Clients.{ClientFd, fd_isset, remove_at}
use pyconnect.NetComm.ClientLaws.{Distinct, Unused}
use pyconnect.NetComm.Incoming.{Reading, closed_by_peer, failed, got}

abbrev pub fds_of : List ClientFd → List ℕ
fds_of [] = []
fds_of (c ∷ clients) = c.fd ∷ fds_of clients

abbrev pub fails : Reading → Bool
fails closed_by_peer = true
fails failed = true
fails (got b bytes) = false

-- The descriptors that are left: those that are not ready, and those that gave bytes.
abbrev pub survivors : List ℕ → (ℕ → Reading) → List ℕ → List ℕ
survivors ready read [] = []
survivors ready read (fd ∷ fds) =
    if fd_isset fd ready && fails (read fd)
    then survivors ready read fds
    else fd ∷ survivors ready read fds

-- The same from a position on.
abbrev pub kept : List ℕ → (ℕ → Reading) → ℕ → List ℕ → List ℕ
kept ready read zero fds = survivors ready read fds
kept ready read (suc position) [] = []
kept ready read (suc position) (fd ∷ fds) = fd ∷ kept ready read position fds

module _ (ready : List ℕ) (read : ℕ → Reading) where
  pub kept-remove_at :
      (xs : List ClientFd) (i : ℕ) {c : ClientFd}
      → get_elem? xs i ≡ some c
      → (fd_isset c.fd ready && fails (read c.fd)) ≡ true
      → kept ready read i (fds_of (remove_at xs i)) ≡ kept ready read i (fds_of xs)
  unfolding remove_at
  kept-remove_at [] i e f = absurd (cc)
  kept-remove_at (x ∷ xs) zero {c} e f =
      let same : x ≡ c = cc in
      let gone : (fd_isset x.fd ready && fails (read x.fd)) ≡ true =
        ap (λ (c : ClientFd). fd_isset c.fd ready && fails (read c.fd)) same ∙ f in
      rw gone refl
  kept-remove_at (x ∷ xs) (suc i) e f = ap (◌∷◌ x.fd) (kept-remove_at xs i e f)

  pub kept-suc :
      (xs : List ClientFd) (i : ℕ) {c : ClientFd}
      → get_elem? xs i ≡ some c
      → (fd_isset c.fd ready && fails (read c.fd)) ≡ false
      → kept ready read (suc i) (fds_of xs) ≡ kept ready read i (fds_of xs)
  kept-suc [] i e f = absurd (cc)
  kept-suc (x ∷ xs) zero {c} e f =
      let same : x ≡ c = cc in
      let stays : (fd_isset x.fd ready && fails (read x.fd)) ≡ false =
        ap (λ (c : ClientFd). fd_isset c.fd ready && fails (read c.fd)) same ∙ f in
      rw stays refl
  kept-suc (x ∷ xs) (suc i) e f = ap (◌∷◌ x.fd) (kept-suc xs i e f)

  pub kept-end :
      (xs : List ClientFd) (i : ℕ)
      → get_elem? xs i ≡ none
      → kept ready read i (fds_of xs) ≡ fds_of xs
  kept-end [] zero e = refl
  kept-end [] (suc i) e = refl
  kept-end (x ∷ xs) zero e = absurd (cc)
  kept-end (x ∷ xs) (suc i) e = ap (◌∷◌ x.fd) (kept-end xs i e)

pub length-remove_at :
    (xs : List ClientFd) (i : ℕ) {c : ClientFd}
    → get_elem? xs i ≡ some c
    → length (remove_at xs i) + 1 ≡ length xs
unfolding remove_at
length-remove_at [] i e = absurd (cc)
length-remove_at (x ∷ xs) zero e = omega arith
length-remove_at (x ∷ xs) (suc i) e = omega (arith, length-remove_at xs i e)

pub fds_of-set :
    (xs : List ClientFd) (i : ℕ) {c : ClientFd} (d : ClientFd)
    → get_elem? xs i ≡ some c
    → d.fd ≡ c.fd
    → fds_of (set xs i d) ≡ fds_of xs
fds_of-set [] i d e f = refl
fds_of-set (x ∷ xs) zero {c} d e f =
    let same : x ≡ c = cc in ap (λ fd. fd ∷ fds_of xs) (f ∙ ap (λ (c : ClientFd). c.fd) (sym same))
fds_of-set (x ∷ xs) (suc i) d e f = ap (◌∷◌ x.fd) (fds_of-set xs i d e f)

pub Distinct-set :
    (xs : List ClientFd) (i : ℕ) {c : ClientFd} (d : ClientFd)
    → get_elem? xs i ≡ some c
    → d.fd ≡ c.fd
    → Distinct xs
    → Distinct (set xs i d)
Distinct-set [] i d e f h = h
Distinct-set (x ∷ xs) zero {c} d e f (h, hs) =
    let same : x ≡ c = cc in
    (subst (λ fd. Unused fd xs) (ap (λ (c : ClientFd). c.fd) same ∙ sym f) h, hs)
Distinct-set (x ∷ xs) (suc i) {c} d e f (h, hs) = (
  All-set (λ y. y.fd ≢ x.fd) xs i d h
      (λ same. All-get_elem? (λ y. y.fd ≢ x.fd) xs i h e (sym f ∙ same)),
  Distinct-set xs i d e f hs,
)
