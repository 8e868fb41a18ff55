-- ===== src/PrivacyRequest/Steps.antt =====
-- The private methods of `PrivacyRequestAggregate`.
use forget_ops.Prelude.{
  Bool, List, Option, String, [], any, false, find, if◌then◌else◌, is_empty, is_some_text, length,
  map, nat_beq, nat_strict, none, not, some, string_strict, ◌&&◌, ◌++◌, ◌+◌, ◌==◌, ◌||◌, ◌∷◌,
}
use forget_ops.PrivacyRequest.Data.{
  AttachedPlan, AttemptKind, AttemptStatus, DomainEvent, EventValue, ExecutionAttempt, PlanBinding,
  attempt_id_invalid, attempt_not_found, plan_version_mismatch, range_error, state_conflict,
}
use forget_ops.PrivacyRequest.Effect.{
  Method, get, modify, pure, read_now, throw, throw_if, ◌>>=◌, ◌>>◌,
}
use forget_ops.PrivacyRequest.Status.{Status, can_transition, status_strict}

abbrev pub event : String → List (String × EventValue) → DomainEvent
event kind payload = record { type = kind; payload = payload }

unfoldable pub assert_status : Status → Status → Method (Unit {0})
assert_status expected target = do
  r ← get
  throw_if (not (r.status == expected)) (state_conflict r.status target)

unfoldable pub assert_can_transition : Status → Method (Unit {0})
assert_can_transition next = do
  r ← get
  throw_if (not (can_transition r.status next)) (state_conflict r.status next)

-- The three comparisons of `assertPlanBinding`.
unfoldable pub same_binding : PlanBinding → PlanBinding → Bool
same_binding p b =
    p.plan_id == b.plan_id
    && nat_beq p.plan_version b.plan_version
    && p.plan_fingerprint == b.plan_fingerprint

abbrev pub plan_has_binding : Option AttachedPlan → PlanBinding → Bool
plan_has_binding none b = false
plan_has_binding (some p) b = same_binding p.binding b

unfoldable pub assert_plan_binding : PlanBinding → Method (Unit {0})
assert_plan_binding b = do r ← get; throw_if (not (plan_has_binding r.plan b)) plan_version_mismatch

unfoldable pub attempt_id_taken : String → List ExecutionAttempt → Bool
attempt_id_taken id = any λ attempt. attempt.id == id

-- `now()` is read only when the guard has passed.
unfoldable pub build_attempt :
    String → AttemptKind → PlanBinding → List String → AttemptStatus → Method ExecutionAttempt
build_attempt id kind binding allowed_step_ids status = do
  r ← get
  throw_if (is_empty id || attempt_id_taken id r.attempts) (range_error attempt_id_invalid)
  created_at ← read_now
  pure (record {
    id = id;
    request_id = r.id;
    attempt_number = length r.attempts + 1;
    kind = kind;
    binding = binding;
    allowed_step_ids = allowed_step_ids;
    status = status;
    created_at = created_at;
    completed_at = none;
  })

unfoldable pub append_attempt : ExecutionAttempt → Method (Unit {0})
append_attempt attempt =
    modify
      λ r. record r { attempts = r.attempts ++ attempt ∷ []; current_attempt_id = some attempt.id }

unfoldable pub find_attempt : Option String → List ExecutionAttempt → Option ExecutionAttempt
find_attempt current = find λ attempt. is_some_text current attempt.id

unfoldable pub required_current_attempt : Method ExecutionAttempt
required_current_attempt = do
  r ← get
  elim (find_attempt r.current_attempt_id r.attempts) [
    | none ↦ throw (range_error attempt_not_found)
    | some attempt ↦ pure attempt
  ]

-- `completed_at` is an argument of the call, so it is read before the attempt is looked up.
unfoldable pub updated_current_attempt : AttemptStatus → Option String → Method ExecutionAttempt
unfolding required_current_attempt
updated_current_attempt status completed_at = do
  attempt ← required_current_attempt
  pure (record attempt { status = status; completed_at = completed_at })

unfoldable pub replace_attempt : ExecutionAttempt → List ExecutionAttempt → List ExecutionAttempt
replace_attempt updated = map λ attempt. if attempt.id == updated.id then updated else attempt

unfoldable pub apply_attempt_update : ExecutionAttempt → Method (Unit {0})
apply_attempt_update updated =
    modify λ r. record r { attempts = replace_attempt updated r.attempts }

unfoldable pub record_event : DomainEvent → Method (Unit {0})
record_event e = modify λ r. record r { version = r.version + 1; events = r.events ++ e ∷ [] }

unfoldable pub transition : Status → DomainEvent → Method (Unit {0})
unfolding assert_can_transition record_event
transition next e = do
  assert_can_transition next
  modify (λ r. record r { status = next })
  record_event e

-- `this.updatedCurrentAttempt(status, this.now())`
unfoldable pub close_current_attempt : AttemptStatus → Method ExecutionAttempt
unfolding updated_current_attempt
close_current_attempt status = do
  completed_at ← read_now
  updated_current_attempt status (some completed_at)

-- `this._status === active ? this.updatedCurrentAttempt(status, this.now()) : null`
unfoldable pub close_attempt_if : Status → AttemptStatus → Method (Option ExecutionAttempt)
unfolding close_current_attempt
close_attempt_if active status = do
  r ← get
  if r.status == active
      then close_current_attempt status >>= (λ attempt. pure (some attempt))
      else pure none

-- `if (attemptUpdate) this.applyAttemptUpdate(attemptUpdate);`
unfoldable pub apply_attempt_update_if : Option ExecutionAttempt → Method (Unit {0})
unfolding apply_attempt_update
apply_attempt_update_if none = pure tt
apply_attempt_update_if (some updated) = apply_attempt_update updated
