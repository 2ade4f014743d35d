-- ===== src/Base/Lists.antt =====
-- Lists over the native numbers: lengths, positions, slices, byte strings and their equality.
use Prim.Native.Nat.{ℕ, zero, suc, ◌+◌, ◌-◌, ◌≤◌, ◌<◌}
use mathlib.Core.Path.{◌≡◌, refl, ap, sym, ◌∙◌}
use mathlib.Core.Bool.{Bool, true, false}
use mathlib.Core.Option.{Option, none, some}
use mathlib.Core.List.{List, [], ◌∷◌, ◌++◌}
use native.Mathlib.Omega.{arith}
use pyconnect.Base.Tests.{if◌then◌else◌, leb, ◌==◌}

module _ {ℓ} {A : Type ℓ} where
  abbrev pub length : List A → ℕ
  length [] = 0
  length (x ∷ xs) = suc (length xs)

  abbrev pub get_elem? : List A → ℕ → Option A
  get_elem? [] i = none
  get_elem? (x ∷ xs) zero = some x
  get_elem? (x ∷ xs) (suc i) = get_elem? xs i

  abbrev pub take : ℕ → List A → List A
  take zero xs = []
  take (suc n) [] = []
  take (suc n) (x ∷ xs) = x ∷ take n xs

  abbrev pub drop : ℕ → List A → List A
  drop zero xs = xs
  drop (suc n) [] = []
  drop (suc n) (x ∷ xs) = drop n xs

  pub length-append : (xs ys : List A) → length (xs ++ ys) ≡ length xs + length ys
  length-append [] ys = omega arith
  length-append (x ∷ xs) ys = omega (arith, length-append xs ys)

  pub take-append_length : (xs ys : List A) → take (length xs) (xs ++ ys) ≡ xs
  take-append_length [] ys = refl
  take-append_length (x ∷ xs) ys = ap (◌∷◌ x) (take-append_length xs ys)

  pub drop-append_length : (xs ys : List A) → drop (length xs) (xs ++ ys) ≡ ys
  drop-append_length [] ys = refl
  drop-append_length (x ∷ xs) ys = drop-append_length xs ys

  pub get_elem?-append_length :
      (xs : List A) (y : A) (ys : List A) → get_elem? (xs ++ y ∷ ys) (length xs) ≡ some y
  get_elem?-append_length [] y ys = refl
  get_elem?-append_length (x ∷ xs) y ys = get_elem?-append_length xs y ys

  pub length-take : (n : ℕ) (xs : List A) → n ≤ length xs → length (take n xs) ≡ n
  length-take zero xs h = refl
  length-take (suc n) [] h = absurd (omega arith)
  length-take (suc n) (x ∷ xs) h = omega (arith, length-take n xs (omega arith))

  pub length-drop : (n : ℕ) (xs : List A) → length (drop n xs) ≡ length xs - n
  length-drop zero xs = omega arith
  length-drop (suc n) [] = omega arith
  length-drop (suc n) (x ∷ xs) = omega (arith, length-drop n xs)

  pub take-append-drop : (n : ℕ) (xs : List A) → take n xs ++ drop n xs ≡ xs
  take-append-drop zero xs = refl
  take-append-drop (suc n) [] = refl
  take-append-drop (suc n) (x ∷ xs) = ap (◌∷◌ x) (take-append-drop n xs)

  abbrev pub All {κ} : (A → Type κ) → List A → Type κ
  All P [] = Unit {κ}
  All P (x ∷ xs) = P x × All P xs

-- A byte string; `std::string`'s `==`.
abbrev pub Bytes : Type 0
Bytes = List ℕ

abbrev pub IsByte : ℕ → Type 0
IsByte b = b < 256

unfoldable pub bytes_eq : Bytes → Bytes → Bool
bytes_eq [] [] = true
bytes_eq [] (y ∷ ys) = false
bytes_eq (x ∷ xs) [] = false
bytes_eq (x ∷ xs) (y ∷ ys) = let rest = bytes_eq xs ys in if x == y then rest else false

pub bytes_eq→eq : (xs ys : Bytes) → bytes_eq xs ys ≡ true → xs ≡ ys
unfolding bytes_eq
bytes_eq→eq [] [] h = refl
bytes_eq→eq [] (y ∷ ys) h = ground arith
bytes_eq→eq (x ∷ xs) [] h = ground arith
bytes_eq→eq (x ∷ xs) (y ∷ ys) h = ground (arith, bytes_eq→eq xs ys)

pub bytes_eq_self : (xs : Bytes) → bytes_eq xs xs ≡ true
unfolding bytes_eq
bytes_eq_self [] = refl
bytes_eq_self (x ∷ xs) = ground (arith, bytes_eq_self xs)

module _ {ℓ} {A : Type ℓ} where
  -- `memcpy(memory + at, xs, n)`: `none` is a write past the end of the memory.
  unfoldable pub write_at : ℕ → List A → List A → Option (List A)
  write_at at xs memory =
      if leb (at + length xs) (length memory)
      then some (take at memory ++ (xs ++ drop (at + length xs) memory))
      else none

  pub take-all : (xs : List A) → take (length xs) xs ≡ xs
  take-all [] = refl
  take-all (x ∷ xs) = ap (◌∷◌ x) (take-all xs)

  pub take-append_add : (xs ys : List A) (n : ℕ) → take (length xs + n) (xs ++ ys) ≡ xs ++ take n ys
  take-append_add [] ys n = ap (λ k. take k ys) (omega arith)
  take-append_add (x ∷ xs) ys n =
      ap (λ k. take k (x ∷ (xs ++ ys))) (add-suc_left (length xs) n)
      ∙ ap (◌∷◌ x) (take-append_add xs ys n)
    where
      add-suc_left : (a b : ℕ) → suc a + b ≡ suc (a + b)
      add-suc_left a b = omega arith

  pub length-write_at :
      (at : ℕ) (xs memory : List A) {m : List A}
      → write_at at xs memory ≡ some m
      → length m ≡ length memory
  unfolding write_at
  length-write_at at xs memory h = ground (
    arith,
    length-append (take at memory) (xs ++ drop (at + length xs) memory),
    length-append xs (drop (at + length xs) memory),
    length-take at memory,
    length-drop (at + length xs) memory,
  )

  -- What stands in front of the end of a write: what stood in front of it, and what was written.
  pub write_at_lem :
      (at : ℕ) (xs memory : List A)
      → at + length xs ≤ length memory
      → (m : List A) × (write_at at xs memory ≡ some m)
        × (length m ≡ length memory)
        × (take (at + length xs) m ≡ take at memory ++ xs)
  unfolding write_at
  write_at_lem at xs memory h =
      let m = take at memory ++ (xs ++ drop (at + length xs) memory) in
      let written : write_at at xs memory ≡ some m = ground arith in
      let before : length (take at memory) ≡ at = length-take at memory (omega arith) in
      (
        m,
        written,
        length-write_at at xs memory written,
        ap (λ k. take (k + length xs) m) (sym before)
            ∙ take-append_add (take at memory) (xs ++ drop (at + length xs) memory) (length xs)
            ∙ ap (◌++◌ (take at memory)) (take-append_length xs (drop (at + length xs) memory)),
      )

  pub get_elem?-total : (xs : List A) (i : ℕ) → i < length xs → (a : A) × (get_elem? xs i ≡ some a)
  get_elem?-total [] i h = elim h [ ]
  get_elem?-total (x ∷ xs) zero h = (x, refl)
  get_elem?-total (x ∷ xs) (suc i) h = get_elem?-total xs i (omega arith)

  pub drop-append_suc :
      (xs : List A) (y : A) (ys : List A) → drop (length xs + 1) (xs ++ (y ∷ ys)) ≡ ys
  drop-append_suc xs y ys =
      let one : length xs + 1 ≡ suc (length xs) = omega arith in
      ap (λ k. drop k (xs ++ (y ∷ ys))) one ∙ past xs
    where
      past : (zs : List A) → drop (suc (length zs)) (zs ++ (y ∷ ys)) ≡ ys
      past [] = refl
      past (z ∷ zs) = past zs

  -- A write out of bounds changes nothing.
  abbrev pub set : List A → ℕ → A → List A
  set [] i v = []
  set (x ∷ xs) zero v = v ∷ xs
  set (x ∷ xs) (suc i) v = x ∷ set xs i v

  pub length-set : (xs : List A) (i : ℕ) (v : A) → length (set xs i v) ≡ length xs
  length-set [] i v = refl
  length-set (x ∷ xs) zero v = refl
  length-set (x ∷ xs) (suc i) v = ap suc (length-set xs i v)

  pub get_elem?-set :
      (xs : List A) (i : ℕ) (a v : A) → get_elem? xs i ≡ some a → get_elem? (set xs i v) i ≡ some v
  get_elem?-set [] i a v e = absurd (cc)
  get_elem?-set (x ∷ xs) zero a v e = refl
  get_elem?-set (x ∷ xs) (suc i) a v e = get_elem?-set xs i a v e

  pub get_elem?-lt : (xs : List A) (i : ℕ) {a : A} → get_elem? xs i ≡ some a → i < length xs
  get_elem?-lt [] i h = absurd (cc)
  get_elem?-lt (x ∷ xs) zero h = omega arith
  get_elem?-lt (x ∷ xs) (suc i) h = omega (arith, get_elem?-lt xs i h)
