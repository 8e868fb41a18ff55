-- ===== src/PrivacyRequest/Commands.antt =====
-- The calls that change an aggregate, as data, so that a history is a list of them. A failed call
-- leaves behind what it had changed when it threw.
use forget_ops.Prelude.{List, String, [], ℕ, ◌∷◌}
use forget_ops.PrivacyRequest.Data.{AttachedPlan, ExecutionAuthorization, PlanApproval}
use forget_ops.PrivacyRequest.Effect.{Aggregate, Method}
use forget_ops.PrivacyRequest.Execution.{
  authorize_execution, complete, fail, mark_executing, mark_needs_review, mark_partial,
}
use forget_ops.PrivacyRequest.Planning.{
  Disposition, approve_plan, attach_plan, begin_identity_verification, begin_planning,
  mark_identity_verified, reject_plan,
}
use forget_ops.PrivacyRequest.Recovery.{
  accept_retained_outcome, begin_retry, cancel, invalidate_authorization, request_replan,
}

pub data Command : Type 0 where
  begins_identity_verification marks_identity_verified begins_planning : String → Command
  attaches_plan : AttachedPlan → Command
  approves_plan : PlanApproval → Command
  rejects_plan : String → Disposition → Command
  authorizes_execution : ExecutionAuthorization → Command
  marks_executing : String → Command
  completes : ℕ → Command
  marks_partial : ℕ → ℕ → Command
  fails marks_needs_review : String → Command
  requests_replan : String → String → Command
  begins_retry : String → List String → ℕ → Command
  invalidates_authorization accepts_retained_outcome cancels : String → String → Command

unfoldable pub call : Command → Method (Unit {0})
unfolding begin_identity_verification mark_identity_verified begin_planning attach_plan approve_plan
    reject_plan authorize_execution mark_executing complete mark_partial fail mark_needs_review
    request_replan begin_retry invalidate_authorization accept_retained_outcome cancel
call (begins_identity_verification actor) = begin_identity_verification actor
call (marks_identity_verified actor) = mark_identity_verified actor
call (begins_planning agent) = begin_planning agent
call (attaches_plan p) = attach_plan p
call (approves_plan a) = approve_plan a
call (rejects_plan by d) = reject_plan by d
call (authorizes_execution a) = authorize_execution a
call (marks_executing agent) = mark_executing agent
call (completes n) = complete n
call (marks_partial n m) = mark_partial n m
call (fails category) = fail category
call (marks_needs_review category) = mark_needs_review category
call (requests_replan actor reason) = request_replan actor reason
call (begins_retry attempt ids version) = begin_retry attempt ids version
call (invalidates_authorization actor reason) = invalidate_authorization actor reason
call (accepts_retained_outcome actor reason) = accept_retained_outcome actor reason
call (cancels actor reason) = cancel actor reason

unfoldable pub run : List Command → Aggregate → Aggregate
unfolding call
run [] r = r
run (c ∷ cs) r = run cs (call c r).1
