-- ===== src/Common/Reader.antt =====
-- Reading a message through a pointer that advances, `unsigned char *&`, and a count that falls,
-- `int &remaining`. A read past the end of the memory behind the pointer is undefined in C++: it is
-- `none` here.
use pyconnect.Base.{
  Bytes, Option, [], append_assoc, arith, drop, drop-append_length, if◌then◌else◌, leb, length,
  length-append, minus, none, refl, some, take, take-append_length, ℕ, ℤ, ◌++◌, ◌∷◌, ◌≡◌,
}

pub record Cursor : Type 0 where
  pub bytes : Bytes
  pub remaining : ℤ

abbrev pub Reader {ℓ} : Type ℓ → Type ℓ
Reader A = Cursor → Option (A × Cursor)

abbrev pub pure {ℓ} : {A : Type ℓ} → A → Reader A
pure a c = some (a, c)

abbrev pub bind {ℓ κ} :
    {A : Type ℓ} {B : Type κ} → Option (A × Cursor) → (A → Reader B) → Option (B × Cursor)
bind none f = none
bind (some (a, c)) f = f a c

infixl 5 ◌>>=◌ ◌>>◌
abbrev pub ◌>>=◌ {ℓ κ} : {A : Type ℓ} {B : Type κ} → Reader A → (A → Reader B) → Reader B
◌>>=◌ p f c = bind (p c) f

abbrev pub ◌>>◌ {ℓ} : {B : Type ℓ} → Reader (Unit {0}) → Reader B → Reader B
p >> q = p >>= λ _. q

-- `*p++`.
unfoldable pub next_byte : Reader ℕ
next_byte c = elim c.bytes [ [] ↦ none | b ∷ bs ↦ some (b, record c { bytes = bs }) ]

-- `memcpy(to, p, n); p += n`.
unfoldable pub copy_bytes : ℕ → Reader Bytes
copy_bytes n c =
    if leb n (length c.bytes)
    then some (take n c.bytes, record c { bytes = drop n c.bytes })
    else none

-- `remaining -= n`.
unfoldable pub consumed : ℕ → Reader (Unit {0})
consumed n c = some (tt, record c { remaining = minus c.remaining n })

-- `p` reads `a` off `bs`, whatever follows and whatever the count, and stops behind `bs`.
abbrev pub Reads {ℓ} : {A : Type ℓ} → Reader A → Bytes → A → Type ℓ
Reads p bs a =
    (rest : Bytes) (n : ℤ)
    → (m : ℤ) × (p (record { bytes = bs ++ rest; remaining = n })
        ≡ some (a, record { bytes = rest; remaining = m }))

pub Reads-next_byte : (b : ℕ) → Reads next_byte (b ∷ []) b
unfolding next_byte
Reads-next_byte b rest n = (n, refl)

pub Reads-copy_bytes : (bs : Bytes) → Reads (copy_bytes (length bs)) bs bs
unfolding copy_bytes
Reads-copy_bytes bs rest n = (
  n,
  ground (arith, take-append_length bs rest, drop-append_length bs rest, length-append bs rest),
)

pub Reads-consumed : (k : ℕ) → Reads (consumed k) [] tt
unfolding consumed
Reads-consumed k rest n = (minus n k, refl)

module _ {ℓ} {A : Type ℓ} where
  pub Reads-pure : (a : A) → Reads (pure a) [] a
  Reads-pure a rest n = (n, refl)

module _ {ℓ κ} {A : Type ℓ} {B : Type κ} where
  pub Reads-bind :
      (p : Reader A) (f : A → Reader B) (xs ys : Bytes) (a : A) (b : B)
      → Reads p xs a
      → Reads (f a) ys b
      → Reads (p >>= f) (xs ++ ys) b
  Reads-bind p f xs ys a b h k rest n =
      let (m₁, e₁) = h (ys ++ rest) n in
      let (m₂, e₂) = k rest m₁ in (m₂, rw (append_assoc xs ys rest, e₁) e₂)

  -- A reader that ends by a pure step.
  pub Reads-map :
      (p : Reader A) (f : A → B) (bs : Bytes) (a : A)
      → Reads p bs a
      → Reads (p >>= λ x. pure (f x)) bs (f a)
  Reads-map p f bs a h rest n = let (m, e) = h rest n in (m, rw e)

-- What holds of every result of `p`, whatever the bytes.
abbrev pub Result {ℓ κ} : {A : Type ℓ} → (A → Type κ) → Option (A × Cursor) → Type κ
Result P none = Unit
Result P (some (a, c)) = P a

abbrev pub Always {ℓ κ} : {A : Type ℓ} → (A → Type κ) → Reader A → Type κ
Always P p = (c : Cursor) → Result P (p c)

module _ {ℓ κ μ} {A : Type ℓ} {B : Type κ} (P : B → Type μ) where
  pub Result-bind :
      (o : Option (A × Cursor)) (f : A → Reader B)
      → ((a : A) → Always P (f a))
      → Result P (bind o f)
  Result-bind none f h = tt
  Result-bind (some (a, c)) f h = h a c

  pub Always-bind :
      (p : Reader A) (f : A → Reader B) → ((a : A) → Always P (f a)) → Always P (p >>= f)
  Always-bind p f h c = Result-bind (p c) f h

  -- With what holds of the results of the first reader.
  pub Result-bind_of :
      {Q : A → Type μ} (o : Option (A × Cursor)) (f : A → Reader B)
      → Result Q o
      → ((a : A) → Q a → Always P (f a))
      → Result P (bind o f)
  Result-bind_of none f q h = tt
  Result-bind_of (some (a, c)) f q h = h a q c

  pub Always-bind_of :
      {Q : A → Type μ} (p : Reader A) (f : A → Reader B)
      → Always Q p
      → ((a : A) → Q a → Always P (f a))
      → Always P (p >>= f)
  Always-bind_of p f q h c = Result-bind_of (p c) f (q c) h
