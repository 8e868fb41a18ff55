-- ===== src/Plans/Selection.antt =====
-- Which steps `selectSteps` gives.
use forget_ops.Plans.Data.{PlanProjection, PlanStep}
use forget_ops.Plans.Service.{filter_steps, select_steps, selection_invalid}
use forget_ops.Plans.Steps.{ids_of}
use forget_ops.Prelude.{
  Bool, Bool-cases, Distinct, Distinct-of_set_size, List, String, [], any, ap, arith, contains,
  contains-append, eq_iff, false, inl, inr, length, lookup, nat_strict, not, ok, set_add, set_from,
  some, string_strict, subst, sym, true, ℕ, ◌<◌, ◌==◌, ◌||◌, ◌∙◌, ◌∷◌, ◌≡◌, ◌≢◌,
}
use forget_ops.PrivacyRequest.Status.{status_strict}

contains-set_from :
    (x : String) (set xs : List String)
    → contains x (set_from set xs) ≡ (contains x set || contains x xs)
unfolding set_from set_add
contains-set_from x set [] = ground arith
contains-set_from x set (y ∷ ys) = ground (
  arith,
  contains-set_from x (set_add set y) ys,
  contains-append x set (y ∷ []),
  eq_iff x y,
  eq_iff y x,
)

contains_filtered :
    (id : String) (keep : String → Bool) (steps : List PlanStep)
    → keep id ≡ true
    → any (λ (step : PlanStep). step.id == id) steps ≡ true
    → contains id (ids_of (filter_steps (λ step. keep step.id) steps)) ≡ true
contains_filtered id keep [] k h = absurd (ground arith)
contains_filtered id keep (step ∷ steps) k h = elim (Bool-cases (step.id == id)) [
  | inl same ↦ ground (arith, ap keep ((eq_iff step.id id).0 same))
  | inr other ↦ ground (arith, contains_filtered id keep steps k (ground arith))
]

-- The second steps are those of the first whose id is among the ids, in the same order.
pub data Picks (ids : List String) : List PlanStep → List PlanStep → Type 0 where
  none_left : Picks ids [] []
  picks :
      (step : PlanStep) {steps chosen : List PlanStep}
      → contains step.id ids ≡ true
      → Picks ids steps chosen
      → Picks ids (step ∷ steps) (step ∷ chosen)
  skips :
      (step : PlanStep) {steps chosen : List PlanStep}
      → contains step.id ids ≡ false
      → Picks ids steps chosen
      → Picks ids (step ∷ steps) chosen

filtered-Picks :
    (ids : List String) (keep : String → Bool) (steps : List PlanStep)
    → ((id : String) → keep id ≡ contains id ids)
    → Picks ids steps (filter_steps (λ step. keep step.id) steps)
filtered-Picks ids keep [] agrees = none_left
filtered-Picks ids keep (step ∷ steps) agrees = elim (Bool-cases (keep step.id)) [
  | inl chosen_step ↦
      rw chosen_step
        (picks step (sym (agrees step.id) ∙ chosen_step) (filtered-Picks ids keep steps agrees))
  | inr dropped ↦
      rw dropped
        (skips step (sym (agrees step.id) ∙ dropped) (filtered-Picks ids keep steps agrees))
]

-- The steps that are given for the ids that were asked for: the ids are distinct and there are some,
-- each is the id of a given step, and the given steps are those of the plan that have them.
pub record Selected (ids : List String) (plan_steps steps : List PlanStep) : Type 0 where
  pub some_id : ids ≢ []
  pub distinct : Distinct ids
  pub each_given : (id : String) → contains id ids ≡ true → contains id (ids_of steps) ≡ true
  pub picked : Picks ids plan_steps steps

any_known :
    (plan : PlanProjection) (id : String) (ids : List String)
    → any (λ id. not (any (λ (step : PlanStep). step.id == id) plan.steps)) ids ≡ false
    → contains id ids ≡ true
    → any (λ (step : PlanStep). step.id == id) plan.steps ≡ true
any_known plan id [] h k = absurd (ground arith)
any_known plan id (x ∷ xs) h k = elim (Bool-cases (x == id)) [
  | inl same ↦
      subst (λ i. any (λ (step : PlanStep). step.id == i) plan.steps ≡ true) ((eq_iff x id).0 same)
        (ground arith)
  | inr other ↦ any_known plan id xs (ground arith) (ground arith)
]

Selected-of_valid :
    (plan : PlanProjection) (ids : List String)
    → selection_invalid plan ids ≡ false
    → Selected ids plan.steps (filter_steps (λ step. contains step.id (set_from [] ids)) plan.steps)
unfolding selection_invalid
Selected-of_valid plan ids h = record {
  some_id = λ e. ground (arith, ap length e);
  distinct = Distinct-of_set_size ids (ground arith);
  each_given = λ id k.
      contains_filtered id (λ i. contains i (set_from [] ids)) plan.steps
        (contains-set_from id [] ids ∙ k) (any_known plan id ids (ground arith) k);
  picked =
      filtered-Picks ids (λ i. contains i (set_from [] ids)) plan.steps
        (λ id. contains-set_from id [] ids);
}

-- A selection that succeeds changes no plan, reads one that has not expired, and gives exactly the
-- steps that were asked for: the ids are distinct and there are some, each of them is the id of a
-- given step, and the given steps are those steps of the plan, unchanged and in its order, whose id
-- is among the ids.
pub select_steps-Selected :
    (request : String) (ids : List String) (now : ℕ) (plans after : List (String × PlanProjection))
    (plan : PlanProjection) (steps : List PlanStep)
    → lookup request plans ≡ some plan
    → select_steps request ids now plans ≡ (after, ok steps)
    → (after ≡ plans) × (now < plan.expires_at) × Selected ids plan.steps steps
unfolding select_steps
select_steps-Selected request ids now plans after plan steps there h = (
  ground arith,
  ground arith,
  subst (Selected ids plan.steps) (ground arith) (Selected-of_valid plan ids (ground arith)),
)
