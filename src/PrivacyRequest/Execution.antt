-- ===== src/PrivacyRequest/Execution.antt =====
-- The methods of `PrivacyRequestAggregate` that run a plan and record its outcome.
use forget_ops.Prelude.{
  Bool, List, Option, String, [], is_present, nat_strict, none, not, some, string_strict, ℕ, ◌&&◌,
  ◌==◌, ◌||◌, ◌∷◌,
}
use forget_ops.PrivacyRequest.Data.{
  AttachedPlan, AttemptStatus, DomainEvent, EventValue, ExecutionAuthorization, PlanApproval,
  PlanBinding, authorized, initial, null, number, partially_succeeded, running, state_conflict,
  succeeded, text, texts,
}
use forget_ops.PrivacyRequest.Effect.{Method, get, lift, throw, throw_if, ◌>>=◌, ◌>>◌}
use forget_ops.PrivacyRequest.Status.{
  Status, awaiting_approval, completed, executing, execution_authorized, partially_completed,
  planning, status_strict,
}
use forget_ops.PrivacyRequest.Steps.{
  append_attempt, apply_attempt_update, apply_attempt_update_if, assert_can_transition,
  assert_plan_binding, assert_status, build_attempt, close_attempt_if, close_current_attempt, event,
  transition, updated_current_attempt,
}
use forget_ops.PrivacyRequest.Validation.{normalize_allowed_step_ids}

abbrev pub text_or_null : Option String → EventValue
text_or_null none = null
text_or_null (some s) = text s

abbrev pub is_planning_or_awaiting : Status → Bool
is_planning_or_awaiting s = s == planning || s == awaiting_approval

-- `(planning && plan.requiresApproval) || (awaiting_approval && !approval)`
abbrev pub lacks_approval : Status → AttachedPlan → Option PlanApproval → Bool
lacks_approval s p a =
    s == planning && p.requires_approval || s == awaiting_approval && not (is_present a)

abbrev pub authorized_event : String → PlanBinding → List (String × EventValue) → DomainEvent
authorized_event id b rest = event "ExecutionAuthorized" (
    ("requestId", text id)
    ∷ ("planId", text b.plan_id)
    ∷ ("planVersion", number b.plan_version)
    ∷ ("planFingerprint", text b.plan_fingerprint)
    ∷ rest)

unfoldable pub authorize_with : ExecutionAuthorization → AttachedPlan → Method (Unit {0})
unfolding assert_plan_binding build_attempt append_attempt transition
authorize_with a p = do
  r ← get
  allowed_step_ids ← lift (normalize_allowed_step_ids a.allowed_step_ids)
  assert_plan_binding a.binding
  throw_if (lacks_approval r.status p r.approval) (state_conflict r.status execution_authorized)
  attempt ← build_attempt a.attempt_id initial a.binding allowed_step_ids authorized
  append_attempt attempt
  transition execution_authorized (
      authorized_event r.id a.binding (
        ("agentId", text a.agent_id)
        ∷ ("attemptId", text a.attempt_id)
        ∷ ("authorizationKind", text "initial")
        ∷ ("allowedStepIds", texts allowed_step_ids)
        ∷ []))

unfoldable pub authorize_execution : ExecutionAuthorization → Method (Unit {0})
unfolding assert_can_transition authorize_with
authorize_execution a = do
  assert_can_transition execution_authorized
  r ← get
  throw_if (not (is_planning_or_awaiting r.status)) (state_conflict r.status execution_authorized)
  elim r.plan [
    | none ↦ throw (state_conflict r.status execution_authorized)
    | some p ↦ authorize_with a p
  ]

unfoldable pub mark_executing : String → Method (Unit {0})
unfolding assert_status updated_current_attempt apply_attempt_update transition
mark_executing agent_id = do
  assert_status execution_authorized executing
  attempt ← updated_current_attempt running none
  r ← get
  apply_attempt_update attempt
  transition executing (
      event "ExecutionStarted" (
        ("requestId", text r.id)
        ∷ ("agentId", text agent_id)
        ∷ ("attemptId", text attempt.id)
        ∷ []))

unfoldable pub complete : ℕ → Method (Unit {0})
unfolding assert_status close_current_attempt apply_attempt_update transition
complete affected_count = do
  assert_status executing completed
  attempt ← close_current_attempt succeeded
  r ← get
  apply_attempt_update attempt
  transition completed (
      event "PrivacyRequestCompleted" (
        ("requestId", text r.id)
        ∷ ("affectedCount", number affected_count)
        ∷ ("attemptId", text attempt.id)
        ∷ []))

unfoldable pub mark_partial : ℕ → ℕ → Method (Unit {0})
unfolding assert_can_transition close_attempt_if apply_attempt_update_if transition
mark_partial affected_count failed_count = do
  assert_can_transition partially_completed
  update ← close_attempt_if executing partially_succeeded
  r ← get
  apply_attempt_update_if update
  transition partially_completed (
      event "PrivacyRequestPartiallyCompleted" (
        ("requestId", text r.id)
        ∷ ("affectedCount", number affected_count)
        ∷ ("failedCount", number failed_count)
        ∷ ("attemptId", text_or_null r.current_attempt_id)
        ∷ []))

unfoldable pub fail : String → Method (Unit {0})
unfolding assert_can_transition close_attempt_if apply_attempt_update_if transition
fail category = do
  assert_can_transition Status.failed
  update ← close_attempt_if executing AttemptStatus.failed
  r ← get
  apply_attempt_update_if update
  transition Status.failed (
      event "PrivacyRequestFailed"
        (("requestId", text r.id) ∷ ("attemptId", text_or_null r.current_attempt_id) ∷ []))

unfoldable pub mark_needs_review : String → Method (Unit {0})
unfolding assert_can_transition close_attempt_if apply_attempt_update_if transition
mark_needs_review category = do
  assert_can_transition Status.needs_review
  update ← close_attempt_if executing AttemptStatus.needs_review
  r ← get
  apply_attempt_update_if update
  transition Status.needs_review (
      event "PrivacyRequestNeedsReview"
        (("requestId", text r.id) ∷ ("attemptId", text_or_null r.current_attempt_id) ∷ []))
