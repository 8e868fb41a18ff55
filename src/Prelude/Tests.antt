-- ===== src/Prelude/Tests.antt =====
-- Boolean tests: order and equality of numbers and texts, and the conditional.
use Prim.Native.Nat.{ℕ, compare, Ordering}
use Prim.Native.Char.{code}
use Prim.Native.String.{String, ◌++◌ as str_append}
use mathlib.Core.Path.{◌≡◌, refl}
use mathlib.Core.Logic.{◌↔◌, ◌⊎◌, inl, inr}
use mathlib.Core.Bool.{Bool, true, false}
use mathlib.Core.Option.{Option, none, some}
use mathlib.Core.List.{List, [], ◌∷◌}
use native.Mathlib.Omega.{arith}
use text.Mathlib.Text.{◌==◌ as str_eq}
use text.Mathlib.TextEquality.{eq_iff}

-- JavaScript's strict equality, on values of one type.
pub record Strict {ℓ} (A : Type ℓ) : Type ℓ where
  pub same : A → A → Bool
  pub same_lem : (x y : A) → (same x y ≡ true) ↔ (x ≡ y)

infix 50 ◌==◌
abbrev pub ◌==◌ {ℓ} : {A : Type ℓ} ⦃s : Strict A⦄ → A → A → Bool
◌==◌ ⦃s⦄ x y = s.same x y

abbrev pub ltb : ℕ → ℕ → Bool
ltb a b = elim (compare a b) [ Ordering.lt ↦ true | _ ↦ false ]

abbrev pub leb : ℕ → ℕ → Bool
leb a b = elim (compare a b) [ Ordering.gt ↦ false | _ ↦ true ]

abbrev pub nat_beq : ℕ → ℕ → Bool
nat_beq a b = elim (compare a b) [ Ordering.eq ↦ true | _ ↦ false ]

infix 1 if◌then◌else◌
abbrev pub if◌then◌else◌ {ℓ} : {A : Type ℓ} → Bool → A → A → A
if true then x else y = x
if false then x else y = y

pub nat_beq_iff : (a b : ℕ) → (nat_beq a b ≡ true) ↔ (a ≡ b)
nat_beq_iff a b = ground arith

instance abbrev pub string_strict : Strict String
string_strict = record { same = str_eq; same_lem = eq_iff }

instance abbrev pub nat_strict : Strict ℕ
nat_strict = record { same = nat_beq; same_lem = nat_beq_iff }

-- `value === text` for a `string | null`.
abbrev pub is_some_text : Option String → String → Bool
is_some_text none t = false
is_some_text (some s) t = s == t

-- A text that JavaScript takes for false.
abbrev pub is_empty : String → Bool
is_empty s = s == ""

-- The code points of a text.
abbrev pub char_codes : String → List ℕ
char_codes String.[] = []
char_codes (String.◌∷◌ first more) = code first ∷ char_codes more

-- `left + right` of texts.
abbrev pub text_append : String → String → String
text_append left right = str_append left right

-- A value that is not `null`.
abbrev pub is_present {ℓ} : {A : Type ℓ} → Option A → Bool
is_present none = false
is_present (some a) = true

pub Bool-cases : (b : Bool) → (b ≡ true) ⊎ (b ≡ false)
Bool-cases true = inl refl
Bool-cases false = inr refl

pub Option-cases {ℓ} : {A : Type ℓ} (o : Option A) → (o ≡ none) ⊎ ((a : A) × (o ≡ some a))
Option-cases none = inl refl
Option-cases (some a) = inr (a, refl)
