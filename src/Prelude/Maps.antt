-- ===== src/Prelude/Maps.antt =====
-- JavaScript's `Map` with texts as keys: pairs in the order of insertion.
use Prim.Native.String.{String}
use mathlib.Core.Path.{◌≡◌, refl}
use mathlib.Core.Option.{Option, none, some}
use mathlib.Core.List.{List, [], ◌∷◌}
use native.Mathlib.Omega.{arith}
use text.Mathlib.TextEquality.{eq_iff}
use forget_ops.Prelude.Tests.{◌==◌, string_strict, if◌then◌else◌}

module _ {ℓ} {V : Type ℓ} where
  -- `map.get(key)`
  unfoldable pub lookup : String → List (String × V) → Option V
  lookup key [] = none
  lookup key ((k, v) ∷ rest) = if k == key then some v else lookup key rest

  -- `map.set(key, value)`: a key that is there keeps its place.
  unfoldable pub insert : String → V → List (String × V) → List (String × V)
  insert key value [] = (key, value) ∷ []
  insert key value ((k, v) ∷ rest) =
      if k == key then (k, value) ∷ rest else (k, v) ∷ insert key value rest

  -- `map.delete(key)`
  unfoldable pub erase : String → List (String × V) → List (String × V)
  erase key [] = []
  erase key ((k, v) ∷ rest) = if k == key then erase key rest else (k, v) ∷ erase key rest

  pub lookup-insert :
      (key other : String) (value : V) (m : List (String × V))
      → lookup other (insert key value m) ≡ (if key == other then some value else lookup other m)
  unfolding lookup insert
  lookup-insert key other value [] = refl
  lookup-insert key other value ((k, v) ∷ rest) =
      ground
        (arith, eq_iff k key, eq_iff k other, eq_iff key other, lookup-insert key other value rest)

  pub lookup-erase :
      (key other : String) (m : List (String × V))
      → lookup other (erase key m) ≡ (if key == other then none else lookup other m)
  unfolding lookup erase
  lookup-erase key other [] = ground arith
  lookup-erase key other ((k, v) ∷ rest) =
      ground (arith, eq_iff k key, eq_iff k other, eq_iff key other, lookup-erase key other rest)
