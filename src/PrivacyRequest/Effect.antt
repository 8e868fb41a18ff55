-- ===== src/PrivacyRequest/Effect.antt =====
-- The fields of `PrivacyRequestAggregate`, and methods that may throw. What a method has changed
-- when it throws stays changed, so a result comes with the aggregate in both cases.
use forget_ops.Prelude.{Bool, List, Option, String, false, inl, inr, refl, suc, true, ℕ, ◌≡◌, ◌⊎◌}
use forget_ops.PrivacyRequest.Data.{
  AttachedPlan, CreatePrivacyRequest, DomainEvent, Error, ExecutionAttempt, PlanApproval,
}
use forget_ops.PrivacyRequest.Status.{Status}

-- The constructor's `now` may answer differently at each call: `now n` is its answer to call `n`,
-- and `readings` counts the calls.
pub record Aggregate : Type 0 where
  pub input : CreatePrivacyRequest
  pub open input use *
  pub status : Status
  pub version : ℕ
  pub current_attempt_id : Option String
  pub plan : Option AttachedPlan
  pub approval : Option PlanApproval
  pub latest_plan_version : ℕ
  pub attempts : List ExecutionAttempt
  pub events : List DomainEvent
  pub now : ℕ → String
  pub readings : ℕ

pub data Result {ℓ} (A : Type ℓ) : Type ℓ where
  ok : A → Result A
  err : Error → Result A

-- A method: from the aggregate before it to its outcome and the aggregate after it.
abbrev pub Method : Type 0 → Type 0
Method A = Aggregate → Result A × Aggregate

-- The rest of a method, after a step that may have thrown.
abbrev pub after : {A B : Type 0} → Result A × Aggregate → (A → Method B) → Result B × Aggregate
after (ok a, r) rest = rest a r
after (err e, r) rest = (err e, r)

infixl 5 ◌>>=◌ ◌>>◌
abbrev pub ◌>>=◌ : {A B : Type 0} → Method A → (A → Method B) → Method B
(step >>= rest) r = after (step r) rest

abbrev pub ◌>>◌ : {B : Type 0} → Method (Unit {0}) → Method B → Method B
(step >> rest) r = after (step r) (λ _. rest)

abbrev pub get : Method Aggregate
get r = (ok r, r)

abbrev pub modify : (Aggregate → Aggregate) → Method (Unit {0})
modify change r = (ok tt, change r)

abbrev pub pure : {A : Type 0} → A → Method A
pure value r = (ok value, r)

abbrev pub throw : {A : Type 0} → Error → Method A
throw error r = (err error, r)

-- `if (test) throw error;`
abbrev pub throw_if : Bool → Error → Method (Unit {0})
throw_if true e r = (err e, r)
throw_if false e r = (ok tt, r)

abbrev pub read_now : Method String
read_now r = (ok (r.now r.readings), record r { readings = suc r.readings })

-- A check that reads no field of the aggregate.
abbrev pub lift : {A : Type 0} → Result A → Method A
lift x r = (x, r)

pub Result-cases : (m : Result (Unit {0})) → (m ≡ ok tt) ⊎ ((e : Error) × (m ≡ err e))
Result-cases (ok a) = inl refl
Result-cases (err e) = inr (e, refl)
