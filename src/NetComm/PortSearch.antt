-- ===== src/NetComm/PortSearch.antt =====
-- The search for a free TCP port, and when the network is enabled.
use pyconnect.Base.{
  ==→eq, Bool, Bool-cases, ap, arith, false, inl, inr, ltb, refl, some, subst, suc, sym, tests,
  true, zero, ℕ, ◌%◌, ◌+◌, ◌<◌, ◌==◌, ◌^◌, ◌∙◌, ◌≡◌, ◌≤◌,
}
use pyconnect.NetComm.Listeners.{bind_loop, commport_range, htons, search_port}

-- The port that is tried after `k` others, in network order.
abbrev pub tried_port : ℕ → ℕ → ℕ
tried_port port k = htons ((port + k) % 2 ^ 16)

-- The search ended at the `k`th port: it is bound and none before it could be, or all were tried.
pub record Searched (bind : ℕ → Bool) (port : ℕ) (from : ℕ) (result : ℕ × Bool) : Type 0 where
  pub steps : ℕ
  pub in_range : steps ≤ commport_range
  pub at : result.0 ≡ tried_port port steps
  pub answer : bind (tried_port port steps) ≡ result.1
  pub first : (j : ℕ) → from ≤ j → j < steps → bind (tried_port port j) ≡ false
  pub exhausted : result.1 ≡ false → steps ≡ commport_range

Searched-before :
    (bind : ℕ → Bool) (port tried : ℕ) (r : ℕ × Bool)
    → bind (tried_port port tried) ≡ false
    → Searched bind port (tried + 1) r
    → Searched bind port tried r
Searched-before bind port tried r taken s = record {
  steps = s.steps;
  in_range = s.in_range;
  at = s.at;
  answer = s.answer;
  first = λ j l m. elim (Bool-cases (j == tried)) [
    | inl same ↦ subst (λ k. bind (tried_port port k) ≡ false) (sym (==→eq j tried same)) taken
    | inr other ↦ s.first j (omega (tests, other)) m
  ];
  exhausted = s.exhausted;
}

bind_loop-Searched :
    (fuel : ℕ) (bind : ℕ → Bool) (port tried : ℕ)
    → tried ≤ commport_range
    → commport_range < fuel + tried
    → (r : ℕ × Bool) × (bind_loop fuel bind port tried
          (tried_port port tried)
          (bind (tried_port port tried))
        ≡ some r)
      × Searched bind port tried r
unfolding bind_loop
bind_loop-Searched zero bind port tried h f = absurd (omega arith)
bind_loop-Searched (suc fuel) bind port tried h f =
    elim (Bool-cases (bind (tried_port port tried))) [
      | inl free ↦ (
        (tried_port port tried, true),
        rw free refl,
        record {
          steps = tried;
          in_range = h;
          at = refl;
          answer = free;
          first = λ j l m. absurd (omega arith);
          exhausted = λ e. absurd (cc);
        },
      )
      | inr taken ↦ elim (Bool-cases (ltb tried commport_range)) [
        | inl more ↦
            let (r, e, s) =
              bind_loop-Searched fuel bind port (tried + 1) (omega tests) (omega arith) in
            (r, rw taken (rw more e), Searched-before bind port tried r taken s)
        | inr last ↦ (
          (tried_port port tried, false),
          rw taken (rw last refl),
          record {
            steps = tried;
            in_range = h;
            at = refl;
            answer = taken;
            first = λ j l m. absurd (omega arith);
            exhausted = λ e. omega tests;
          },
        )
      ]
    ]

-- The search for a TCP port ends after at most 101 attempts. If a port is bound, it is the first free
-- one of the 101 from the port in use on; if none is bound, all 101 are taken.
pub search_port-Searched :
    (fuel : ℕ) (bind : ℕ → Bool) (port : ℕ)
    → port < 2 ^ 16
    → 100 < fuel
    → (r : ℕ × Bool) × (search_port fuel bind port ≡ some r) × Searched bind port 0 r
unfolding search_port
search_port-Searched fuel bind port h f =
    let (r, e, s) = bind_loop-Searched fuel bind port 0 (omega arith) (omega arith) in
    let same : tried_port port 0 ≡ htons port = ap htons (omega arith) in
    (r, ap (λ p. bind_loop fuel bind port 0 p (bind p)) (sym same) ∙ e, s)

htons-htons : (n : ℕ) → n < 2 ^ 16 → htons (htons n) ≡ n
unfolding htons
htons-htons n h = omega arith

htons-lt : (n : ℕ) → n < 2 ^ 16 → htons n < 2 ^ 16
unfolding htons
htons-lt n h = omega arith
