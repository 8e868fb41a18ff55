-- ===== src/Plans/Steps.antt =====
-- Which steps `validateSteps` lets through.
use forget_ops.Plans.Data.{PlanStep}
use forget_ops.Plans.Service.{
  dependencies_invalid, gather_ids, no_steps, step_invalid, validate_steps,
}
use forget_ops.Prelude.{
  All, Distinct, Distinct-of_FreshFor, FreshFor, FreshFor-nil, List, Outcome-cases, String, [], any,
  ap, append-nil, arith, contains, eq_iff, false, inl, inr, is_present, not, ok, refl, set_add,
  subst, sym, true, ◌++◌, ◌↔◌, ◌∙◌, ◌∷◌, ◌≡◌, ◌≢◌,
}

abbrev pub ids_of : List PlanStep → List String
ids_of [] = []
ids_of (step ∷ steps) = step.id ∷ ids_of steps

-- A step on its own.
pub record IsSound (step : PlanStep) : Type 0 where
  pub has_id : step.id ≢ ""
  pub has_connector : step.connector ≢ ""
  pub has_resource : step.resource ≢ ""
  pub counted : is_present step.estimated_count ≡ true
  pub not_on_itself : contains step.id step.dependencies ≡ false

-- A plan's steps: there are some, sound, with ids of their own, and each depends on steps of the plan.
pub record IsPlan (steps : List PlanStep) : Type 0 where
  pub some_step : steps ≢ []
  pub sound : All IsSound steps
  pub own_ids : Distinct (ids_of steps)
  pub known_dependencies :
      All (λ (step : PlanStep). All (λ d. contains d (ids_of steps) ≡ true) step.dependencies) steps

IsSound-of_step :
    (ids : List String) (step : PlanStep) → step_invalid ids step ≡ false → IsSound step
unfolding step_invalid
IsSound-of_step ids step h = record {
  has_id = λ e. ground (arith, eq_iff step.id "");
  has_connector = λ e. ground (arith, eq_iff step.connector "");
  has_resource = λ e. ground (arith, eq_iff step.resource "");
  counted = ground arith;
  not_on_itself = ground arith;
}

step-of_IsSound :
    (ids : List String) (step : PlanStep)
    → IsSound step
    → contains step.id ids ≡ false
    → step_invalid ids step ≡ false
unfolding step_invalid
step-of_IsSound ids step w fresh = ground (
  arith,
  w.has_id,
  w.has_connector,
  w.has_resource,
  w.counted,
  w.not_on_itself,
  eq_iff step.id "",
  eq_iff step.connector "",
  eq_iff step.resource "",
)

snoc_cons :
    (set : List String) (x : String) (xs : List String) → (set ++ x ∷ []) ++ xs ≡ set ++ x ∷ xs
snoc_cons [] x xs = refl
snoc_cons (y ∷ set) x xs = ap (λ zs. y ∷ zs) (snoc_cons set x xs)

-- The first loop ends well when the steps are sound and their ids are new and distinct.
pub gather_ids_well :
    (ids : List String) (steps : List PlanStep)
    → All IsSound steps
    → FreshFor ids (ids_of steps)
    → gather_ids ids steps ≡ ok (ids ++ ids_of steps)
unfolding gather_ids set_add
gather_ids_well ids [] w f = ap ok (sym (append-nil ids))
gather_ids_well ids (step ∷ steps) w f =
    rw
      (
        step-of_IsSound ids step w.0 f.0,
        f.0,
        gather_ids_well (ids ++ step.id ∷ []) steps w.1 f.1,
        snoc_cons ids step.id (ids_of steps),
      )
      refl

pub record Gathered (ids : List String) (steps : List PlanStep) (all_ids : List String)
    : Type 0 where
  pub sound : All IsSound steps
  pub fresh : FreshFor ids (ids_of steps)
  pub result : all_ids ≡ ids ++ ids_of steps

gather-first :
    (ids : List String) (step : PlanStep) (steps : List PlanStep) (all_ids : List String)
    → gather_ids ids (step ∷ steps) ≡ ok all_ids
    → (step_invalid ids step ≡ false)
      × (contains step.id ids ≡ false)
      × (gather_ids (ids ++ step.id ∷ []) steps ≡ ok all_ids)
unfolding gather_ids set_add step_invalid
gather-first ids step steps all_ids h = ground arith

pub gather_ids-Gathered :
    (ids : List String) (steps : List PlanStep) (all_ids : List String)
    → gather_ids ids steps ≡ ok all_ids
    → Gathered ids steps all_ids
unfolding gather_ids
gather_ids-Gathered ids [] all_ids h = record {
  sound = tt;
  fresh = tt;
  result = ground (arith, append-nil ids);
}
gather_ids-Gathered ids (step ∷ steps) all_ids h =
    let first = gather-first ids step steps all_ids h in
    let rest = gather_ids-Gathered (ids ++ step.id ∷ []) steps all_ids first.2 in
    record {
      sound = (IsSound-of_step ids step first.0, rest.sound);
      fresh = (first.1, rest.fresh);
      result = rest.result ∙ snoc_cons ids step.id (ids_of steps);
    }

All-known_of_any :
    (ids xs : List String)
    → any (λ d. not (contains d ids)) xs ≡ false
    → All (λ d. contains d ids ≡ true) xs
All-known_of_any ids [] h = tt
All-known_of_any ids (x ∷ xs) h = (ground arith, All-known_of_any ids xs (ground arith))

any_of_All_known :
    (ids xs : List String)
    → All (λ d. contains d ids ≡ true) xs
    → any (λ d. not (contains d ids)) xs ≡ false
any_of_All_known ids [] h = refl
any_of_All_known ids (x ∷ xs) h = ground (arith, any_of_All_known ids xs h.1)

abbrev Known : List String → List PlanStep → Type 0
Known ids = All λ (step : PlanStep). All (λ d. contains d ids ≡ true) step.dependencies

Known-of_dependencies :
    (ids : List String) (steps : List PlanStep)
    → dependencies_invalid ids steps ≡ false
    → Known ids steps
unfolding dependencies_invalid
Known-of_dependencies ids [] h = tt
Known-of_dependencies ids (step ∷ steps) h = (
  All-known_of_any ids step.dependencies (ground arith),
  Known-of_dependencies ids steps (ground arith),
)

dependencies-of_Known :
    (ids : List String) (steps : List PlanStep)
    → Known ids steps
    → dependencies_invalid ids steps ≡ false
unfolding dependencies_invalid
dependencies-of_Known ids [] w = refl
dependencies-of_Known ids (step ∷ steps) w =
    ground (arith, any_of_All_known ids step.dependencies w.0, dependencies-of_Known ids steps w.1)

IsPlan-of_valid : (steps : List PlanStep) → validate_steps steps ≡ ok tt → IsPlan steps
unfolding validate_steps
IsPlan-of_valid [] h = absurd (ground arith)
IsPlan-of_valid (step ∷ steps) h = elim (Outcome-cases (gather_ids [] (step ∷ steps))) [
  | inr (e, bad) ↦ absurd (ground arith)
  | inl (ids, good) ↦
      let g = gather_ids-Gathered [] (step ∷ steps) ids good in
      record {
        some_step = λ e. ground (arith, ap no_steps e);
        sound = g.sound;
        own_ids = Distinct-of_FreshFor [] (ids_of (step ∷ steps)) g.fresh;
        known_dependencies =
            subst (λ all_ids. Known all_ids (step ∷ steps)) g.result
              (Known-of_dependencies ids (step ∷ steps) (ground arith));
      }
]

valid-of_IsPlan : (steps : List PlanStep) → IsPlan steps → validate_steps steps ≡ ok tt
unfolding validate_steps
valid-of_IsPlan [] w = absurd (w.some_step refl)
valid-of_IsPlan (step ∷ steps) w =
    rw
      (
        gather_ids_well [] (step ∷ steps) w.sound (FreshFor-nil (ids_of (step ∷ steps)) w.own_ids),
        dependencies-of_Known (ids_of (step ∷ steps)) (step ∷ steps) w.known_dependencies,
      )
      refl

-- The validation passes exactly for steps of which there are some, each with an id, a connector, a
-- resource and an estimated count that is an integer from zero on, and not dependent on itself, with
-- no id twice, and dependent on steps of the plan only.
pub validate_steps_lem : (steps : List PlanStep) → (validate_steps steps ≡ ok tt) ↔ IsPlan steps
validate_steps_lem steps = (IsPlan-of_valid steps, valid-of_IsPlan steps)
