-- ===== src/Stub/Keys.antt =====
-- The identifiers and names of the modules that the server keeps, through every change of the list.
use pyconnect.Base.{
  Bytes, List, [], arith, bytes_eq, false, if_elim, map, none, refl, some, ℕ, ◌++◌, ◌+◌, ◌==◌, ◌∷◌,
  ◌≡◌, ◌≤◌,
}
use pyconnect.Common.Python.{Python}
use pyconnect.Stub.Object.{PyObject}
use pyconnect.Stub.Registry.{Stub, erase_id, find_by_id, find_by_name, replace_id}

-- An earlier name differs from all later ones.
abbrev pub IsFresh : Bytes → List (ℕ × Bytes) → Type 0
IsFresh n [] = Unit
IsFresh n ((j, m) ∷ ks) = (bytes_eq n m ≡ false) × IsFresh n ks

-- Identifiers rise from `lo` to below `hi`, and no two names are the same.
abbrev pub AreKeys : ℕ → List (ℕ × Bytes) → ℕ → Type 0
AreKeys lo [] hi = lo ≤ hi
AreKeys lo ((i, n) ∷ ks) hi = (lo ≤ i) × IsFresh n ks × AreKeys (i + 1) ks hi

AreKeys-le : (lo : ℕ) (ks : List (ℕ × Bytes)) (hi : ℕ) → AreKeys lo ks hi → lo ≤ hi
AreKeys-le lo [] hi h = h
AreKeys-le lo ((i, n) ∷ ks) hi (l, f, h) = let k = AreKeys-le (i + 1) ks hi h in omega arith

AreKeys-below :
    (lo lo' : ℕ) (ks : List (ℕ × Bytes)) (hi : ℕ) → lo' ≤ lo → AreKeys lo ks hi → AreKeys lo' ks hi
AreKeys-below lo lo' [] hi e h = omega arith
AreKeys-below lo lo' ((i, n) ∷ ks) hi e (l, f, h) = (omega arith, f, h)

module _ (py : Python) where
  abbrev pub key : PyObject py → ℕ × Bytes
  key o = (o.id, o.name)

  abbrev pub keys : List (PyObject py) → List (ℕ × Bytes)
  keys os = map key os

  -- Every module has an identifier that was given before, none is given twice, no name is there
  -- twice, and identifiers fit a byte.
  abbrev pub IsRegistry : Stub py → Type 0
  IsRegistry s = AreKeys 1 (keys s.modules) s.next_obj_id × (s.next_obj_id ≤ 0x100)

  IsFresh-snoc :
      (n : Bytes) (os : List (PyObject py)) (o : PyObject py)
      → IsFresh n (keys os)
      → bytes_eq n o.name ≡ false
      → IsFresh n (keys (os ++ o ∷ []))
  IsFresh-snoc n [] o h e = (e, tt)
  IsFresh-snoc n (p ∷ os) o (e', h) e = (e', IsFresh-snoc n os o h e)

  not_found :
      (name : Bytes) (o : PyObject py) (os : List (PyObject py))
      → find_by_name py name (o ∷ os) ≡ none
      → (bytes_eq o.name name ≡ false) × (find_by_name py name os ≡ none)
  unfolding find_by_name
  not_found name o os h = ground arith

  pub AreKeys-snoc :
      (lo : ℕ) (os : List (PyObject py)) (hi : ℕ) (o : PyObject py)
      → AreKeys lo (keys os) hi
      → find_by_name py o.name os ≡ none
      → o.id ≡ hi
      → AreKeys lo (keys (os ++ o ∷ [])) (hi + 1)
  AreKeys-snoc lo [] hi o h e i = (omega arith, tt, omega arith)
  AreKeys-snoc lo (p ∷ os) hi o (l, f, h) e i =
      let (d, e') = not_found o.name p os e in
      (l, IsFresh-snoc p.name os o f d, AreKeys-snoc (p.id + 1) os hi o h e' i)

  IsFresh-erase_id :
      (n : Bytes) (id : ℕ) (os : List (PyObject py))
      → IsFresh n (keys os)
      → IsFresh n (keys (erase_id py id os))
  unfolding erase_id
  IsFresh-erase_id n id [] h = h
  IsFresh-erase_id n id (o ∷ os) (e, h) =
      if_elim (λ ps. IsFresh n (keys ps)) (o.id == id) os (o ∷ erase_id py id os) (λ _. h)
        (λ _. (e, IsFresh-erase_id n id os h))

  pub AreKeys-erase_id :
      (lo : ℕ) (id : ℕ) (os : List (PyObject py)) (hi : ℕ)
      → AreKeys lo (keys os) hi
      → AreKeys lo (keys (erase_id py id os)) hi
  unfolding erase_id
  AreKeys-erase_id lo id [] hi h = h
  AreKeys-erase_id lo id (o ∷ os) hi (l, f, h) =
      if_elim (λ ps. AreKeys lo (keys ps) hi) (o.id == id) os (o ∷ erase_id py id os)
        (λ _. AreKeys-below (o.id + 1) lo (keys os) hi (omega arith) h)
        (λ _. (l, IsFresh-erase_id o.name id os f, AreKeys-erase_id (o.id + 1) id os hi h))

  -- An object changed in place keeps its key, and so the list keeps its keys.
  abbrev pub HasKeyOf : PyObject py → PyObject py → Type 0
  HasKeyOf o o' = key o' ≡ key o

  pub keys-replace_id :
      (id : ℕ) (o o' : PyObject py) (os : List (PyObject py))
      → find_by_id py id os ≡ some o
      → HasKeyOf o o'
      → keys (replace_id py id o' os) ≡ keys os
  unfolding find_by_id replace_id
  keys-replace_id id o o' [] h k = refl
  keys-replace_id id o o' (p ∷ os) h k =
      let later : find_by_id py id os ≡ some o → keys (replace_id py id o' os) ≡ keys os =
        λ e. keys-replace_id id o o' os e k in
      ground (arith, later)
