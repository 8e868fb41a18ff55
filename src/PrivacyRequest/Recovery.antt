-- ===== src/PrivacyRequest/Recovery.antt =====
-- The methods of `PrivacyRequestAggregate` that follow an outcome, and the queue of its events.
use forget_ops.Prelude.{
  Bool, List, String, [], drop, length, ltb, nat_beq, nat_strict, none, not, some, string_strict, ℕ,
  ◌==◌, ◌||◌, ◌∷◌,
}
use forget_ops.PrivacyRequest.Data.{
  AttachedPlan, AttemptStatus, DomainEvent, PrivacyRequestSnapshot, authorized,
  invalid_committed_event_count, range_error, request_version_mismatch, retry, state_conflict, text,
  texts,
}
use forget_ops.PrivacyRequest.Effect.{
  Aggregate, Method, get, lift, modify, ok, throw, throw_if, ◌>>=◌, ◌>>◌,
}
use forget_ops.PrivacyRequest.Execution.{authorized_event, text_or_null}
use forget_ops.PrivacyRequest.Status.{
  Status, completed, execution_authorized, partially_completed, planning, status_strict,
}
use forget_ops.PrivacyRequest.Steps.{
  append_attempt, apply_attempt_update, apply_attempt_update_if, assert_can_transition,
  assert_status, build_attempt, close_attempt_if, close_current_attempt, event, transition,
}
use forget_ops.PrivacyRequest.Validation.{normalize_allowed_step_ids, normalize_audit_reason}

abbrev pub is_recoverable : Status → Bool
is_recoverable s = s == partially_completed || s == Status.failed || s == Status.needs_review

unfoldable pub request_replan : String → String → Method (Unit {0})
unfolding assert_can_transition transition
request_replan actor_id reason = do
  assert_can_transition planning
  r ← get
  throw_if (not (is_recoverable r.status)) (state_conflict r.status planning)
  audit_reason ← lift (normalize_audit_reason reason)
  modify (λ s. record s { plan = none; approval = none })
  transition planning (
      event "ReplanRequested" (
        ("requestId", text r.id) ∷ ("actorId", text actor_id) ∷ ("reason", text audit_reason) ∷ []))

unfoldable pub retry_with : String → List String → AttachedPlan → Method (Unit {0})
unfolding build_attempt append_attempt transition
retry_with attempt_id step_ids p = do
  r ← get
  allowed_step_ids ← lift (normalize_allowed_step_ids step_ids)
  attempt ← build_attempt attempt_id retry p.binding allowed_step_ids authorized
  append_attempt attempt
  transition execution_authorized (
      authorized_event r.id attempt.binding (
        ("attemptId", text attempt.id)
        ∷ ("authorizationKind", text "retry")
        ∷ ("allowedStepIds", texts attempt.allowed_step_ids)
        ∷ []))

unfoldable pub begin_retry : String → List String → ℕ → Method (Unit {0})
unfolding assert_can_transition retry_with
begin_retry attempt_id step_ids expected_version = do
  assert_can_transition execution_authorized
  r ← get
  throw_if (not (is_recoverable r.status)) (state_conflict r.status execution_authorized)
  throw_if (not (nat_beq expected_version r.version)) (range_error request_version_mismatch)
  elim r.plan [
    | none ↦ throw (state_conflict r.status execution_authorized)
    | some p ↦ retry_with attempt_id step_ids p
  ]

unfoldable pub invalidate_authorization : String → String → Method (Unit {0})
unfolding assert_status close_current_attempt apply_attempt_update transition
invalidate_authorization actor_id reason = do
  assert_status execution_authorized Status.awaiting_approval
  audit_reason ← lift (normalize_audit_reason reason)
  attempt ← close_current_attempt AttemptStatus.cancelled
  r ← get
  apply_attempt_update attempt
  modify (λ s. record s { approval = none })
  transition Status.awaiting_approval (
      event "ExecutionAuthorizationInvalidated" (
        ("requestId", text r.id)
        ∷ ("actorId", text actor_id)
        ∷ ("reason", text audit_reason)
        ∷ ("attemptId", text_or_null r.current_attempt_id)
        ∷ []))

unfoldable pub accept_retained_outcome : String → String → Method (Unit {0})
unfolding transition
accept_retained_outcome actor_id reason = do
  r ← get
  throw_if (not (r.status == partially_completed || r.status == Status.needs_review))
      (state_conflict r.status completed)
  audit_reason ← lift (normalize_audit_reason reason)
  transition completed (
      event "RetainedOutcomeAccepted" (
        ("requestId", text r.id)
        ∷ ("actorId", text actor_id)
        ∷ ("reason", text audit_reason)
        ∷ ("attemptId", text_or_null r.current_attempt_id)
        ∷ []))

unfoldable pub cancel : String → String → Method (Unit {0})
unfolding assert_can_transition close_attempt_if apply_attempt_update_if transition
cancel actor_id reason = do
  assert_can_transition Status.cancelled
  audit_reason ← lift (normalize_audit_reason reason)
  update ← close_attempt_if execution_authorized AttemptStatus.cancelled
  r ← get
  apply_attempt_update_if update
  transition Status.cancelled (
      event "PrivacyRequestCancelled" (
        ("requestId", text r.id)
        ∷ ("actorId", text actor_id)
        ∷ ("reason", text audit_reason)
        ∷ ("attemptId", text_or_null r.current_attempt_id)
        ∷ []))

unfoldable pub snapshot : Aggregate → PrivacyRequestSnapshot
snapshot r = record {
  input = r.input;
  status = r.status;
  version = r.version;
  current_attempt_id = r.current_attempt_id;
  plan = r.plan;
  approval = r.approval;
}

unfoldable pub pull_events : Method (List DomainEvent)
pull_events r = (ok r.events, record r { events = [] })

-- A JavaScript number, as far as `markEventsCommitted` looks at it.
pub data Count : Type 0 where
  natural : ℕ → Count
  negative not_an_integer : Count

unfoldable pub mark_events_committed : Count → Method (Unit {0})
mark_events_committed (natural count) = do
  r ← get
  throw_if (ltb (length r.events) count) (range_error invalid_committed_event_count)
  modify (λ s. record s { events = drop count s.events })
mark_events_committed negative = throw (range_error invalid_committed_event_count)
mark_events_committed not_an_integer = throw (range_error invalid_committed_event_count)
