-- ===== src/Prelude/Sets.antt =====
-- JavaScript's `Set` of texts: the items in the order of insertion, and when a list has no repeats.
use Prim.Native.Nat.{◌+◌, ◌≤◌}
use Prim.Native.String.{String}
use mathlib.Core.Path.{◌≡◌, refl, ap}
use mathlib.Core.Logic.{inl, inr}
use mathlib.Core.Bool.{true, false, ◌||◌}
use mathlib.Core.List.{List, [], ◌∷◌, ◌++◌}
use native.Mathlib.Omega.{arith}
use text.Mathlib.TextEquality.{eq_iff}
use text.Mathlib.TextPositions.{eq_refl}
use forget_ops.Prelude.Tests.{◌==◌, string_strict, if◌then◌else◌, Bool-cases}
use forget_ops.Prelude.Lists.{length, All, length-append, contains}

-- `set.add(item)`, with the items in the order of insertion.
unfoldable pub set_add : List String → String → List String
set_add set item = if contains item set then set else set ++ item ∷ []

-- `new Set(items)`, from a set that holds some already.
unfoldable pub set_from : List String → List String → List String
unfolding set_add
set_from set [] = set
set_from set (item ∷ items) = set_from (set_add set item) items

-- No item stands twice.
abbrev pub Distinct : List String → Type 0
Distinct [] = Unit
Distinct (x ∷ xs) = (contains x xs ≡ false) × Distinct xs

-- The items are distinct, and none is in the set.
abbrev pub FreshFor : List String → List String → Type 0
FreshFor set [] = Unit
FreshFor set (x ∷ xs) = (contains x set ≡ false) × FreshFor (set ++ x ∷ []) xs

length-set_add : (set : List String) (x : String) → length (set_add set x) ≤ length set + 1
unfolding set_add
length-set_add set x = ground (arith, length-append set (x ∷ []))

length-set_from-le : (set xs : List String) → length (set_from set xs) ≤ length set + length xs
unfolding set_from
length-set_from-le set [] = omega arith
length-set_from-le set (x ∷ xs) =
    ground (arith, length-set_from-le (set_add set x) xs, length-set_add set x)

length-set_from_eq :
    (set xs : List String) → FreshFor set xs → length (set_from set xs) ≡ length set + length xs
unfolding set_from
length-set_from_eq set [] h = omega arith
length-set_from_eq set (x ∷ xs) h =
    rw h.0 (omega (arith, length-set_from_eq (set ++ x ∷ []) xs h.1, length-append set (x ∷ [])))

FreshFor-of_length :
    (set xs : List String) → length (set_from set xs) ≡ length set + length xs → FreshFor set xs
unfolding set_from
FreshFor-of_length set [] h = tt
FreshFor-of_length set (x ∷ xs) h = elim (Bool-cases (contains x set)) [
  | inl old ↦ absurd (omega (arith, rw old at h, length-set_from-le set xs))
  | inr new ↦ (
    new,
    FreshFor-of_length (set ++ x ∷ []) xs (omega (arith, rw new at h, length-append set (x ∷ []))),
  )
]

contains-snoc :
    (s t : String) (xs : List String) → contains s (xs ++ t ∷ []) ≡ (contains s xs || t == s)
contains-snoc s t [] = ground arith
contains-snoc s t (x ∷ xs) = ground (arith, contains-snoc s t xs)

differs :
    (x y : String) (set : List String)
    → contains x set ≡ true
    → contains y set ≡ false
    → (y == x) ≡ false
differs x y set h k = elim (Bool-cases (y == x)) [
  | inl same ↦ absurd (cc (ap (λ s. contains s set) ((eq_iff y x).0 same), h, k))
  | inr other ↦ other
]

-- What the set holds is none of the fresh items.
contains_fresh :
    (x : String) (set xs : List String)
    → contains x set ≡ true
    → FreshFor set xs
    → contains x xs ≡ false
contains_fresh x set [] h f = refl
contains_fresh x set (y ∷ ys) h f =
    rw (differs x y set h f.0)
      (contains_fresh x (set ++ y ∷ []) ys (rw (contains-snoc x y set, h)) f.1)

pub Distinct-of_FreshFor : (set xs : List String) → FreshFor set xs → Distinct xs
Distinct-of_FreshFor set [] h = tt
Distinct-of_FreshFor set (x ∷ xs) h = (
  contains_fresh x (set ++ x ∷ []) xs (ground (arith, contains-snoc x x set, eq_refl x)) h.1,
  Distinct-of_FreshFor (set ++ x ∷ []) xs h.1,
)

abbrev Absent : List String → List String → Type 0
Absent set = All λ x. contains x set ≡ false

Absent-snoc :
    (set : List String) (y : String) (xs : List String)
    → Absent set xs
    → contains y xs ≡ false
    → Absent (set ++ y ∷ []) xs
Absent-snoc set y [] h k = tt
Absent-snoc set y (x ∷ xs) h k = (
  ground (arith, contains-snoc x y set, eq_iff x y, eq_iff y x),
  Absent-snoc set y xs h.1 (ground arith),
)

FreshFor-of_Distinct : (set xs : List String) → Distinct xs → Absent set xs → FreshFor set xs
FreshFor-of_Distinct set [] d h = tt
FreshFor-of_Distinct set (x ∷ xs) d h =
    (h.0, FreshFor-of_Distinct (set ++ x ∷ []) xs d.1 (Absent-snoc set x xs h.1 d.0))

Absent-nil : (xs : List String) → Absent [] xs
Absent-nil [] = tt
Absent-nil (x ∷ xs) = (refl, Absent-nil xs)

pub FreshFor-nil : (xs : List String) → Distinct xs → FreshFor [] xs
FreshFor-nil xs d = FreshFor-of_Distinct [] xs d (Absent-nil xs)

-- A list is as long as the set of its items exactly when no item stands twice.
pub Distinct-of_set_size : (xs : List String) → length (set_from [] xs) ≡ length xs → Distinct xs
Distinct-of_set_size xs h = Distinct-of_FreshFor [] xs (FreshFor-of_length [] xs (omega (arith, h)))

pub set_size_of_Distinct : (xs : List String) → Distinct xs → length (set_from [] xs) ≡ length xs
set_size_of_Distinct xs d =
    omega (arith, length-set_from_eq [] xs (FreshFor-of_Distinct [] xs d (Absent-nil xs)))
