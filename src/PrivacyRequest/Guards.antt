-- ===== src/PrivacyRequest/Guards.antt =====
-- The statuses in which each call is admitted.
use forget_ops.Prelude.{
  Bool, List, [], any, arith, false, nat_strict, refl, string_strict, ◌==◌, ◌∷◌, ◌≡◌, ◌⊎◌,
}
use forget_ops.PrivacyRequest.Commands.{
  Command, accepts_retained_outcome, approves_plan, attaches_plan, authorizes_execution,
  begins_identity_verification, begins_planning, begins_retry, call, cancels, completes, fails,
  invalidates_authorization, marks_executing, marks_identity_verified, marks_needs_review,
  marks_partial, rejects_plan, requests_replan, run,
}
use forget_ops.PrivacyRequest.Data.{state_conflict}
use forget_ops.PrivacyRequest.Effect.{Aggregate, err}
use forget_ops.PrivacyRequest.Planning.{disposition_target}
use forget_ops.PrivacyRequest.Status.{
  Status, awaiting_approval, can_transition, cancelled, completed, created, executing,
  execution_authorized, failed, identity_verification_pending, identity_verified, needs_review,
  partially_completed, planning, status_strict,
}

-- The statuses from which a call may succeed, as a table of its own.
abbrev pub sources : Command → List Status
sources (begins_identity_verification actor) = created ∷ []
sources (marks_identity_verified actor) = created ∷ identity_verification_pending ∷ []
sources (begins_planning agent) = identity_verified ∷ []
sources (attaches_plan p) = planning ∷ []
sources (approves_plan a) = awaiting_approval ∷ []
sources (rejects_plan by d) = awaiting_approval ∷ []
sources (authorizes_execution a) = planning ∷ awaiting_approval ∷ []
sources (marks_executing agent) = execution_authorized ∷ []
sources (completes n) = executing ∷ []
sources (marks_partial n m) = executing ∷ needs_review ∷ []
sources (fails category) = identity_verification_pending ∷ planning ∷ executing ∷ []
sources (marks_needs_review category) = executing ∷ partially_completed ∷ failed ∷ []
sources (requests_replan actor reason) = partially_completed ∷ failed ∷ needs_review ∷ []
sources (begins_retry attempt ids version) = partially_completed ∷ failed ∷ needs_review ∷ []
sources (invalidates_authorization actor reason) = execution_authorized ∷ []
sources (accepts_retained_outcome actor reason) = partially_completed ∷ needs_review ∷ []
sources (cancels actor reason) =
    created ∷ identity_verification_pending ∷ identity_verified ∷ planning ∷ awaiting_approval
    ∷ execution_authorized ∷ failed ∷ needs_review ∷ []

-- The status that a refusal names as the one asked for.
abbrev pub target : Command → Status
target (begins_identity_verification actor) = identity_verification_pending
target (marks_identity_verified actor) = identity_verified
target (begins_planning agent) = planning
target (attaches_plan p) = awaiting_approval
target (approves_plan a) = awaiting_approval
target (rejects_plan by d) = disposition_target d
target (authorizes_execution a) = execution_authorized
target (marks_executing agent) = executing
target (completes n) = completed
target (marks_partial n m) = partially_completed
target (fails category) = failed
target (marks_needs_review category) = needs_review
target (requests_replan actor reason) = planning
target (begins_retry attempt ids version) = execution_authorized
target (invalidates_authorization actor reason) = awaiting_approval
target (accepts_retained_outcome actor reason) = completed
target (cancels actor reason) = cancelled

abbrev pub is_source : Command → Status → Bool
is_source c s = any (λ t. t == s) (sources c)

-- In a status that is no source of the call, the call throws the conflict between that status
-- and its target, and the aggregate stays as it was, the clock included.
pub call_outside_sources :
    (c : Command) (r : Aggregate)
    → is_source c r.status ≡ false
    → call c r ≡ (err (state_conflict r.status (target c)), r)
unfolding call can_transition
call_outside_sources (attaches_plan p) r h = ground arith
call_outside_sources _ r h = ground arith

abbrev pub IsTerminal : Status → Type 0
IsTerminal s = (s ≡ completed) ⊎ (s ≡ cancelled)

terminal_no_source : (c : Command) (s : Status) → IsTerminal s → is_source c s ≡ false
terminal_no_source (attaches_plan p) s h = ground arith
terminal_no_source _ s h = ground arith

-- A completed or cancelled request stays as it is through every history of calls.
pub terminal_absorbs : (cs : List Command) (r : Aggregate) → IsTerminal r.status → run cs r ≡ r
unfolding run
terminal_absorbs [] r h = refl
terminal_absorbs (c ∷ cs) r h =
    rw (call_outside_sources c r (terminal_no_source c r.status h)) (terminal_absorbs cs r h)
