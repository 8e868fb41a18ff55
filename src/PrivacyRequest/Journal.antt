-- ===== src/PrivacyRequest/Journal.antt =====
-- The events and versions that calls leave.
use forget_ops.Prelude.{List, String, [], ap, arith, map, refl, suc, ◌++◌, ◌+◌, ◌∷◌, ◌≡◌, ◌⊎◌}
use forget_ops.PrivacyRequest.Commands.{
  Command, accepts_retained_outcome, approves_plan, attaches_plan, authorizes_execution,
  begins_identity_verification, begins_planning, begins_retry, call, cancels, completes, fails,
  invalidates_authorization, marks_executing, marks_identity_verified, marks_needs_review,
  marks_partial, rejects_plan, requests_replan,
}
use forget_ops.PrivacyRequest.Data.{DomainEvent, Error}
use forget_ops.PrivacyRequest.Effect.{Aggregate, err, ok}
use forget_ops.PrivacyRequest.Status.{can_transition}

-- The type of the event that a call records.
abbrev pub event_name : Command → String
event_name (begins_identity_verification actor) = "IdentityVerificationRequested"
event_name (marks_identity_verified actor) = "IdentityVerified"
event_name (begins_planning agent) = "PlanningRequested"
event_name (attaches_plan p) = "ExecutionPlanCreated"
event_name (approves_plan a) = "ExecutionPlanApproved"
event_name (rejects_plan by d) = "ExecutionPlanRejected"
event_name (authorizes_execution a) = "ExecutionAuthorized"
event_name (marks_executing agent) = "ExecutionStarted"
event_name (completes n) = "PrivacyRequestCompleted"
event_name (marks_partial n m) = "PrivacyRequestPartiallyCompleted"
event_name (fails category) = "PrivacyRequestFailed"
event_name (marks_needs_review category) = "PrivacyRequestNeedsReview"
event_name (requests_replan actor reason) = "ReplanRequested"
event_name (begins_retry attempt ids version) = "ExecutionAuthorized"
event_name (invalidates_authorization actor reason) = "ExecutionAuthorizationInvalidated"
event_name (accepts_retained_outcome actor reason) = "RetainedOutcomeAccepted"
event_name (cancels actor reason) = "PrivacyRequestCancelled"

abbrev pub event_types : List DomainEvent → List String
event_types = map λ e. e.type

event_types-append :
    (xs : List DomainEvent) (e : DomainEvent)
    → event_types (xs ++ e ∷ []) ≡ event_types xs ++ e.type ∷ []
event_types-append [] e = refl
event_types-append (x ∷ xs) e = ap (◌∷◌ x.type) (event_types-append xs e)

-- A call that succeeds adds one to the version and appends one event, of the call's own type,
-- behind the events that are waiting.
pub call_success_journal :
    (c : Command) (r : Aggregate)
    → (call c r).0 ≡ ok tt
    → ((call c r).1.version ≡ r.version + 1)
      × (event_types (call c r).1.events ≡ event_types r.events ++ event_name c ∷ [])
unfolding call
call_success_journal (attaches_plan p) r h = grind (arith, event_types-append)
call_success_journal _ r h = grind (arith, event_types-append)

-- A call that throws leaves every field as it was, but the clock may have been read once.
pub call_failure_unchanged :
    (c : Command) (r : Aggregate) {e : Error}
    → (call c r).0 ≡ err e
    → ((call c r).1 ≡ r) ⊎ ((call c r).1 ≡ record r { readings = suc r.readings })
unfolding call can_transition
call_failure_unchanged (attaches_plan p) r h = ground arith
call_failure_unchanged _ r h = ground arith
