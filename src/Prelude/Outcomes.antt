-- ===== src/Prelude/Outcomes.antt =====
-- The outcome of code that may throw: a value, or an error of the component's own type.
use mathlib.Core.Bool.{Bool, true, false}
use mathlib.Core.Option.{Option, none, some}
use mathlib.Core.Path.{◌≡◌, refl, ap}
use native.Mathlib.Omega.{arith}
use mathlib.Core.Logic.{◌⊎◌, inl, inr}

pub data Outcome {ℓ κ} (E : Type ℓ) (A : Type κ) : Type (ℓ ⊔ κ) where
  ok : A → Outcome E A
  err : E → Outcome E A

infixl 5 ◌>>=◌ ◌>>◌
abbrev pub ◌>>=◌ {ℓ κ μ} :
    {E : Type ℓ} {A : Type κ} {B : Type μ} → Outcome E A → (A → Outcome E B) → Outcome E B
ok a >>= rest = rest a
err e >>= rest = err e

abbrev pub ◌>>◌ {ℓ μ} : {E : Type ℓ} {B : Type μ} → Outcome E (Unit {0}) → Outcome E B → Outcome E B
ok a >> rest = rest
err e >> rest = err e

-- `if (test) throw error;`
abbrev pub reject_if {ℓ} : {E : Type ℓ} → Bool → E → Outcome E (Unit {0})
reject_if true e = err e
reject_if false e = ok tt

-- `if (!value) throw error;`
abbrev pub require {ℓ κ} : {E : Type ℓ} {A : Type κ} → Option A → E → Outcome E A
require none e = err e
require (some a) e = ok a

pub Outcome-cases :
    {E A : Type 0} → (o : Outcome E A) → ((a : A) × (o ≡ ok a)) ⊎ ((e : E) × (o ≡ err e))
Outcome-cases (ok a) = inl (a, refl)
Outcome-cases (err e) = inr (e, refl)

abbrev value_or {ℓ κ} : {E : Type ℓ} {A : Type κ} → A → Outcome E A → A
value_or a (ok b) = b
value_or a (err e) = a

pub ok_injective : {E A : Type 0} → (a b : A) → ◌≡◌ {A = Outcome E A} (ok a) (ok b) → a ≡ b
ok_injective a b h = ap (value_or a) h

-- The parts of a sequence that succeeds.
pub bind-ok :
    {E A B : Type 0}
    → (o : Outcome E A) (rest : A → Outcome E B) (b : B) → (o >>= rest) ≡ ok b
    → (a : A) × (o ≡ ok a) × (rest a ≡ ok b)
bind-ok (ok a) rest b h = (a, refl, h)
bind-ok (err e) rest b h = absurd (ground arith)

pub then-ok :
    {E B : Type 0}
    → (o : Outcome E (Unit {0})) (rest : Outcome E B) (b : B) → (o >> rest) ≡ ok b
    → (o ≡ ok tt) × (rest ≡ ok b)
then-ok (ok tt) rest b h = (refl, h)
then-ok (err e) rest b h = absurd (ground arith)

pub reject_if-ok : {E : Type 0} → (b : Bool) (e : E) → reject_if b e ≡ ok tt → b ≡ false
reject_if-ok false e h = refl
reject_if-ok true e h = absurd (ground arith)

pub require-ok : {E A : Type 0} → (o : Option A) (e : E) (a : A) → require o e ≡ ok a → o ≡ some a
require-ok none e a h = absurd (ground arith)
require-ok (some b) e a h = ap some (ok_injective b a h)
