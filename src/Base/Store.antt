-- ===== src/Base/Store.antt =====
-- `std::map<int, V>` as an association list: `find`, `operator[]` with an assignment, and `erase`.
use Prim.Native.Nat.{ℕ}
use mathlib.Core.Path.{◌≡◌, refl}
use mathlib.Core.Option.{Option, none, some}
use mathlib.Core.List.{List, [], ◌∷◌}
use native.Mathlib.Omega.{arith}
use pyconnect.Base.Tests.{if◌then◌else◌, ltb, ◌==◌}

module _ {ℓ} {V : Type ℓ} where
  unfoldable pub map_find : List (ℕ × V) → ℕ → Option V
  map_find [] key = none
  map_find ((first, info) ∷ rest) key =
      let behind = map_find rest key in if key == first then some info else behind

  -- Keys stay in increasing order, as the map iterates.
  unfoldable pub map_assign : List (ℕ × V) → ℕ → V → List (ℕ × V)
  map_assign [] key new = (key, new) ∷ []
  map_assign ((first, info) ∷ rest) key new =
      let behind = (first, info) ∷ map_assign rest key new in
      if ltb key first
      then (key, new) ∷ (first, info) ∷ rest
      else if key == first
      then (key, new) ∷ rest
      else behind

  unfoldable pub map_erase : List (ℕ × V) → ℕ → List (ℕ × V)
  map_erase [] key = []
  map_erase ((first, info) ∷ rest) key =
      let behind = map_erase rest key in if key == first then behind else (first, info) ∷ behind

  pub map_find-map_assign :
      (servers : List (ℕ × V)) (changed key : ℕ) (new : V)
      → map_find (map_assign servers changed new) key
        ≡ (if key == changed then some new else map_find servers key)
  unfolding map_find map_assign
  map_find-map_assign [] changed key new = refl
  map_find-map_assign ((first, info) ∷ rest) changed key new =
      ground (arith, map_find-map_assign rest changed key new)

  pub map_find-map_erase :
      (servers : List (ℕ × V)) (erased key : ℕ)
      → map_find (map_erase servers erased) key
        ≡ (if key == erased then none else map_find servers key)
  unfolding map_find map_erase
  map_find-map_erase [] erased key = ground arith
  map_find-map_erase ((first, info) ∷ rest) erased key =
      ground (arith, map_find-map_erase rest erased key)
