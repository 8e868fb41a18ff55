-- ===== src/PrivacyRequest/Planning.antt =====
-- The methods of `PrivacyRequestAggregate` up to the decision on a plan.
use forget_ops.Prelude.{Option, String, [], if◌then◌else◌, leb, none, some, ℕ, ◌∷◌}
use forget_ops.PrivacyRequest.Data.{
  AttachedPlan, CreatePrivacyRequest, PlanApproval, flag, number, plan_version_mismatch,
  source_name, text, type_name,
}
use forget_ops.PrivacyRequest.Effect.{Aggregate, Method, get, modify, throw_if, ◌>>=◌, ◌>>◌}
use forget_ops.PrivacyRequest.Status.{
  Status, awaiting_approval, cancelled, created, identity_verification_pending, identity_verified,
  planning,
}
use forget_ops.PrivacyRequest.Steps.{
  assert_plan_binding, assert_status, event, record_event, transition,
}

unfoldable pub create : CreatePrivacyRequest → (ℕ → String) → Aggregate
create input now = record {
  input = input;
  status = created;
  version = 1;
  current_attempt_id = none;
  plan = none;
  approval = none;
  latest_plan_version = 0;
  attempts = [];
  events =
      event "PrivacyRequestCreated" (
        ("requestId", text input.id)
        ∷ ("environmentId", text input.environment_id)
        ∷ ("type", text (type_name input.request_type))
        ∷ ("source", text (source_name input.source))
        ∷ ("policyVersion", number input.policy_version)
        ∷ [])
      ∷ [];
  now = now;
  readings = 0;
}

unfoldable pub begin_identity_verification : String → Method (Unit {0})
unfolding transition
begin_identity_verification actor_id = do
  r ← get
  transition identity_verification_pending (
      event "IdentityVerificationRequested"
        (("requestId", text r.id) ∷ ("actorId", text actor_id) ∷ []))

unfoldable pub mark_identity_verified : String → Method (Unit {0})
unfolding transition
mark_identity_verified actor_id = do
  r ← get
  transition identity_verified
      (event "IdentityVerified" (("requestId", text r.id) ∷ ("actorId", text actor_id) ∷ []))

unfoldable pub begin_planning : String → Method (Unit {0})
unfolding assert_status transition
begin_planning agent_id = do
  assert_status identity_verified planning
  r ← get
  transition planning
      (event "PlanningRequested" (("requestId", text r.id) ∷ ("agentId", text agent_id) ∷ []))

-- The status of a request whose new plan needs approval, or does not.
abbrev pub status_for_plan : AttachedPlan → Status → Status
status_for_plan p s = if p.requires_approval then awaiting_approval else s

unfoldable pub attach_plan : AttachedPlan → Method (Unit {0})
unfolding assert_status record_event
attach_plan p = do
  assert_status planning awaiting_approval
  r ← get
  throw_if (leb p.plan_version r.latest_plan_version) plan_version_mismatch
  modify (λ s. record s {
    plan = some p;
    approval = none;
    latest_plan_version = p.plan_version;
    status = status_for_plan p s.status;
  })
  record_event (
      event "ExecutionPlanCreated" (
        ("requestId", text r.id)
        ∷ ("planId", text p.plan_id)
        ∷ ("planVersion", number p.plan_version)
        ∷ ("planFingerprint", text p.plan_fingerprint)
        ∷ ("requiresApproval", flag p.requires_approval)
        ∷ []))

unfoldable pub approve_plan : PlanApproval → Method (Unit {0})
unfolding assert_status assert_plan_binding record_event
approve_plan a = do
  assert_status awaiting_approval awaiting_approval
  assert_plan_binding a.binding
  r ← get
  modify (λ s. record s { approval = some a })
  record_event (
      event "ExecutionPlanApproved" (
        ("requestId", text r.id)
        ∷ ("planId", text a.plan_id)
        ∷ ("planVersion", number a.plan_version)
        ∷ ("planFingerprint", text a.plan_fingerprint)
        ∷ ("decidedBy", text a.decided_by)
        ∷ []))

pub data Disposition : Type 0 where
  changes_requested plan_rejected : Disposition

abbrev pub disposition_name : Disposition → String
disposition_name changes_requested = "changes_requested"
disposition_name plan_rejected = "plan_rejected"

abbrev pub disposition_target : Disposition → Status
disposition_target changes_requested = planning
disposition_target plan_rejected = cancelled

-- The plan is dropped only when changes are requested.
abbrev pub plan_after : Disposition → Option AttachedPlan → Option AttachedPlan
plan_after changes_requested p = none
plan_after plan_rejected p = p

unfoldable pub reject_plan : String → Disposition → Method (Unit {0})
unfolding assert_status transition
reject_plan decided_by disposition = do
  assert_status awaiting_approval (disposition_target disposition)
  r ← get
  modify (λ s. record s { approval = none; plan = plan_after disposition s.plan })
  transition (disposition_target disposition) (
      event "ExecutionPlanRejected" (
        ("requestId", text r.id)
        ∷ ("decidedBy", text decided_by)
        ∷ ("disposition", text (disposition_name disposition))
        ∷ []))
