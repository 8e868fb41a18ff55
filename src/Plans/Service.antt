-- ===== src/Plans/Service.antt =====
-- `ExecutionPlanService`. The packages' `canonicalize`, which has no value for some inputs, and
-- SHA-256 in hexadecimal are parameters. `now` is the time that the call reads.
use forget_ops.Plans.Data.{
  CreatePlanInput, NormalizedPlan, PlanError, PlanProjection, PlanStatus, PlanStep, approved,
  awaiting_approval, draft, expired, plan_expired, plan_invalid, plan_not_found,
  plan_version_mismatch,
}
use forget_ops.Prelude.{
  Bool, List, Option, Outcome, String, [], any, contains, err, false, get_or, if◌then◌else◌, insert,
  is_empty, is_present, leb, length, lookup, ltb, nat_beq, nat_strict, none, not, ok, reject_if,
  require, set_add, set_from, some, string_strict, text_append, true, ℕ, ◌*◌, ◌+◌, ◌==◌, ◌>>=◌,
  ◌>>◌, ◌||◌, ◌∷◌,
}
use forget_ops.PrivacyRequest.Status.{status_strict}

-- The first loop of `validateSteps`: what is wrong with a step, given the ids before it.
unfoldable pub step_invalid : List String → PlanStep → Bool
step_invalid ids step =
    is_empty step.id
    || contains step.id ids
    || is_empty step.connector
    || is_empty step.resource
    || not (is_present step.estimated_count)
    || contains step.id step.dependencies

-- The ids that the first loop gathers, if it ends without a throw.
unfoldable pub gather_ids : List String → List PlanStep → Outcome PlanError (List String)
unfolding step_invalid
gather_ids ids [] = ok ids
gather_ids ids (step ∷ rest) =
    let later = gather_ids (set_add ids step.id) rest in
    if step_invalid ids step then err plan_invalid else later

-- The second loop.
unfoldable pub dependencies_invalid : List String → List PlanStep → Bool
dependencies_invalid ids =
    any λ (step : PlanStep). any (λ dependency. not (contains dependency ids)) step.dependencies

abbrev pub no_steps : List PlanStep → Bool
no_steps [] = true
no_steps (step ∷ steps) = false

unfoldable pub validate_steps : List PlanStep → Outcome PlanError (Unit {0})
unfolding gather_ids dependencies_invalid
validate_steps steps = do
  reject_if (no_steps steps) plan_invalid
  ids ← gather_ids [] steps
  reject_if (dependencies_invalid ids steps) plan_invalid

abbrev pub default_ttl_ms : ℕ
default_ttl_ms = 30 * 60 * 1000

abbrev pub max_ttl_ms : ℕ
max_ttl_ms = 24 * 60 * 60 * 1000

abbrev pub is_spent : ℕ → Option PlanProjection → Bool
is_spent version none = false
is_spent version (some existing) = leb version existing.version

abbrev pub initial_status : Option Bool → PlanStatus
initial_status (some false) = draft
initial_status _ = awaiting_approval

unfoldable pub new_plan : CreatePlanInput → String → ℕ → PlanProjection
new_plan input fingerprint now = record {
  id = input.id;
  request_id = input.request_id;
  version = input.version;
  fingerprint = fingerprint;
  connector_configuration_fingerprint = input.connector_configuration_fingerprint;
  steps = input.steps;
  requires_approval = get_or input.requires_approval true;
  status = initial_status input.requires_approval;
  created_at = now;
  expires_at = now + get_or input.ttl_ms default_ttl_ms;
}

abbrev pub ttl_invalid : ℕ → Bool
ttl_invalid ttl = nat_beq ttl 0 || ltb max_ttl_ms ttl

unfoldable pub plan_fingerprint :
    (NormalizedPlan → Option String) → (String → String) → NormalizedPlan → Outcome PlanError String
plan_fingerprint canonicalize sha256_hex value = do
  serialized ← require (canonicalize value) plan_invalid
  ok (text_append "sha256:" (sha256_hex serialized))

abbrev pub normalized : CreatePlanInput → NormalizedPlan
normalized input = record {
  connector_configuration_fingerprint = input.connector_configuration_fingerprint;
  steps = input.steps;
}

unfoldable pub create_plan :
    (NormalizedPlan → Option String)
    → (String → String)
    → CreatePlanInput
    → ℕ
    → List (String × PlanProjection)
    → Outcome PlanError (List (String × PlanProjection) × PlanProjection)
unfolding validate_steps new_plan plan_fingerprint
create_plan canonicalize sha256_hex input now plans = do
  reject_if (is_spent input.version (lookup input.request_id plans)) plan_version_mismatch
  validate_steps input.steps
  reject_if (nat_beq input.version 0) plan_invalid
  reject_if (ttl_invalid (get_or input.ttl_ms default_ttl_ms)) plan_invalid
  fingerprint ← plan_fingerprint canonicalize sha256_hex (normalized input)
  let plan = new_plan input fingerprint now
  ok (insert input.request_id plan plans, plan)

abbrev pub is_expired : PlanStatus → Bool
is_expired expired = true
is_expired _ = false

-- The plans after `get`, which marks a plan as expired before it throws.
unfoldable pub expire_plan :
    String → PlanProjection → List (String × PlanProjection) → List (String × PlanProjection)
expire_plan request plan plans =
    if is_expired plan.status
    then plans
    else insert request (record plan { status = expired }) plans

abbrev pub Result : Type 0 → Type 0
Result A = List (String × PlanProjection) × Outcome PlanError A

unfoldable pub get_plan : String → ℕ → List (String × PlanProjection) → Result PlanProjection
unfolding expire_plan
get_plan request now plans = elim (lookup request plans) [
  | none ↦ (plans, err plan_not_found)
  | some plan ↦
      if leb plan.expires_at now
      then (expire_plan request plan plans, err plan_expired)
      else (plans, ok plan)
]

-- What a call does with the plan that `get` gives it.
abbrev pub with_plan :
    {A : Type 0}
    → Result PlanProjection
    → (List (String × PlanProjection) → PlanProjection → Result A)
    → Result A
with_plan (plans, ok plan) rest = rest plans plan
with_plan (plans, err e) rest = (plans, err e)

unfoldable pub mark_approved :
    String → ℕ → ℕ → List (String × PlanProjection) → Result PlanProjection
unfolding get_plan
mark_approved request expected_version now plans =
    with_plan (get_plan request now plans) λ plans plan.
      if nat_beq plan.version expected_version
      then (
        insert request (record plan { status = approved }) plans,
        ok (record plan { status = approved }),
      )
      else (plans, err plan_version_mismatch)

abbrev pub filter_steps : (PlanStep → Bool) → List PlanStep → List PlanStep
filter_steps keep [] = []
filter_steps keep (step ∷ steps) =
    if keep step then step ∷ filter_steps keep steps else filter_steps keep steps

unfoldable pub selection_invalid : PlanProjection → List String → Bool
selection_invalid plan step_ids =
    not (nat_beq (length (set_from [] step_ids)) (length step_ids))
    || nat_beq (length step_ids) 0
    || any (λ id. not (any (λ (step : PlanStep). step.id == id) plan.steps)) step_ids

unfoldable pub select_steps :
    String → List String → ℕ → List (String × PlanProjection) → Result (List PlanStep)
unfolding get_plan selection_invalid
select_steps request step_ids now plans = with_plan (get_plan request now plans) λ plans plan.
    if selection_invalid plan step_ids
    then (plans, err plan_invalid)
    else (plans, ok (filter_steps (λ step. contains step.id (set_from [] step_ids)) plan.steps))
