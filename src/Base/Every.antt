-- ===== src/Base/Every.antt =====
-- Predicates that hold of every element of a list.
use Prim.Native.Nat.{ℕ, zero, suc}
use mathlib.Core.Path.{◌≡◌, subst}
use mathlib.Core.Option.{some}
use mathlib.Core.List.{List, [], ◌∷◌, ◌++◌}
use pyconnect.Base.Lists.{All, get_elem?, set}

pub All-imp {ℓ κ} :
    {A : Type ℓ} (P Q : A → Type κ) (xs : List A) → ((x : A) → P x → Q x) → All P xs → All Q xs
All-imp P Q [] f h = tt
All-imp P Q (x ∷ xs) f (h, hs) = (f x h, All-imp P Q xs f hs)

pub All-snoc {ℓ κ} :
    {A : Type ℓ} (P : A → Type κ) (xs : List A) (x : A) → All P xs → P x → All P (xs ++ (x ∷ []))
All-snoc P [] x h p = (p, tt)
All-snoc P (y ∷ xs) x (h, hs) p = (h, All-snoc P xs x hs p)

pub All-get_elem? {ℓ κ} :
    {A : Type ℓ} (P : A → Type κ) (xs : List A) (i : ℕ) {x : A}
    → All P xs
    → get_elem? xs i ≡ some x
    → P x
All-get_elem? P [] i h e = absurd (cc)
All-get_elem? P (y ∷ xs) zero (h, hs) e = subst P (cc) h
All-get_elem? P (y ∷ xs) (suc i) (h, hs) e = All-get_elem? P xs i hs e

pub All-both {ℓ κ} :
    {A : Type ℓ} (P Q R : A → Type κ) (xs : List A)
    → ((x : A) → P x → Q x → R x)
    → All P xs
    → All Q xs
    → All R xs
All-both P Q R [] f h k = tt
All-both P Q R (x ∷ xs) f (h, hs) (k, ks) = (f x h k, All-both P Q R xs f hs ks)

pub All-set {ℓ κ} :
    {A : Type ℓ} (P : A → Type κ) (xs : List A) (i : ℕ) (d : A)
    → All P xs
    → P d
    → All P (set xs i d)
All-set P [] i d h p = h
All-set P (x ∷ xs) zero d (h, hs) p = (p, hs)
All-set P (x ∷ xs) (suc i) d (h, hs) p = (h, All-set P xs i d hs p)
