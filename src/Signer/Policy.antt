-- ===== src/Signer/Policy.antt =====
-- `assertAuthorizationPolicy`: each `throw` under its condition, in the order of the code.
use forget_ops.Prelude.{
  Bool, List, Option, Outcome, String, [], any, contains, false, if◌then◌else◌, leb, length, ltb,
  nat_beq, nat_strict, none, not, ok, reject_if, require, set_from, some, string_strict, true, ℕ,
  ◌&&◌, ◌==◌, ◌>>=◌, ◌>>◌, ◌||◌, ◌∷◌,
}
use forget_ops.PrivacyRequest.Status.{status_strict}
use forget_ops.Signer.Data.{
  ApprovalState, AuthorizationKind, AuthorizationPolicyInput, AuthorizationPolicyState, PolicyError,
  SignerAgentStatus, agent_not_eligible, approval_evidence_invalid, execution_globally_paused,
  initial, request_not_authorizable, request_version_mismatch, retry, revoked,
  separation_of_duty_violation, step_scope_invalid,
}

abbrev pub authorizable_statuses : List String
authorizable_statuses =
    "planning" ∷ "awaiting_approval" ∷ "partially_completed" ∷ "failed" ∷ "needs_review" ∷ []

abbrev pub is_revoked : SignerAgentStatus → Bool
is_revoked revoked = true
is_revoked _ = false

abbrev pub is_initial : AuthorizationKind → Bool
is_initial initial = true
is_initial retry = false

-- `approval?.planVersion === version`
abbrev pub approves_version : Option ApprovalState → ℕ → Bool
approves_version none v = false
approves_version (some a) v = nat_beq v a.plan_version

-- `plan.requiresApproval && authorizationKind === "initial"`
abbrev pub needs_evidence : AuthorizationPolicyInput → Bool
needs_evidence i = i.state.plan.requires_approval && is_initial i.authorization_kind

-- The first check of the plan's version: its inner condition keeps it from applying to others.
unfoldable pub assert_plan_version : AuthorizationPolicyInput → Outcome PolicyError (Unit {0})
assert_plan_version i =
    let plan = i.state.plan in
    if leb plan.version 0
      || (not (approves_version i.state.approval plan.version)
          && plan.requires_approval
          && is_initial i.authorization_kind)
    then reject_if (needs_evidence i) approval_evidence_invalid
    else ok tt

unfoldable pub evidence_invalid : AuthorizationPolicyState → ApprovalState → Bool
evidence_invalid s a =
    not (nat_beq a.plan_version s.plan.version)
    || not (a.plan_fingerprint == s.plan.fingerprint)
    || ltb s.request.version a.request_version

unfoldable pub assert_approval : AuthorizationPolicyInput → Outcome PolicyError (Unit {0})
assert_approval i =
    if needs_evidence i
    then (do
      approval ← require i.state.approval approval_evidence_invalid
      reject_if (evidence_invalid i.state approval) approval_evidence_invalid
      reject_if (approval.decided_by == i.actor_id) separation_of_duty_violation)
    else ok tt

-- No step, a step that is not allowed, or a step twice.
unfoldable pub scope_invalid : List String → List String → Bool
scope_invalid allowed requested =
    nat_beq (length requested) 0
    || any (λ step. not (contains step allowed)) requested
    || not (nat_beq (length (set_from [] requested)) (length requested))

unfoldable pub assert_authorization_policy :
    AuthorizationPolicyInput → Outcome PolicyError (Unit {0})
assert_authorization_policy i = do
  let s = i.state
  reject_if s.execution_paused execution_globally_paused
  reject_if (s.request.cancelled || s.request.status == "cancelled") request_not_authorizable
  reject_if (not (nat_beq s.request.version i.expected_request_version)) request_version_mismatch
  reject_if (not (contains s.request.status authorizable_statuses)) request_not_authorizable
  reject_if (is_revoked s.agent.status || not (s.agent.environment_id == s.request.environment_id))
      agent_not_eligible
  assert_plan_version i
  assert_approval i
  reject_if (scope_invalid s.plan.step_ids i.requested_step_ids) step_scope_invalid
