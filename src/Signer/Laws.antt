-- ===== src/Signer/Laws.antt =====
-- Exactly which requests the policies let through.
use forget_ops.Prelude.{
  All, Bool-cases, Distinct, Distinct-of_set_size, List, Option, String, [], any, ap, arith,
  contains, eq_iff, false, inl, inr, length, nat_strict, none, not, ok, refl, set_size_of_Distinct,
  some, string_strict, subst, true, ◌<◌, ◌==◌, ◌↔◌, ◌∷◌, ◌≡◌, ◌≢◌, ◌≤◌,
}
use forget_ops.PrivacyRequest.Status.{status_strict}
use forget_ops.Signer.Data.{ApprovalState, AuthorizationPolicyInput, revoked}
use forget_ops.Signer.Policy.{
  assert_approval, assert_authorization_policy, assert_plan_version, authorizable_statuses,
  evidence_invalid, needs_evidence, scope_invalid,
}

-- Some step, each of them allowed, none twice.
pub record IsWithin (allowed requested : List String) : Type 0 where
  pub some_step : requested ≢ []
  pub all_allowed : All (λ step. contains step allowed ≡ true) requested
  pub no_repeat : Distinct requested

pub All-allowed_of_any :
    (allowed xs : List String)
    → any (λ step. not (contains step allowed)) xs ≡ false
    → All (λ step. contains step allowed ≡ true) xs
All-allowed_of_any allowed [] h = tt
All-allowed_of_any allowed (x ∷ xs) h = (ground arith, All-allowed_of_any allowed xs (ground arith))

pub any_of_All_allowed :
    (allowed xs : List String)
    → All (λ step. contains step allowed ≡ true) xs
    → any (λ step. not (contains step allowed)) xs ≡ false
any_of_All_allowed allowed [] h = refl
any_of_All_allowed allowed (x ∷ xs) h = ground (arith, any_of_All_allowed allowed xs h.1)

pub scope_invalid→IsWithin :
    (allowed xs : List String) → scope_invalid allowed xs ≡ false → IsWithin allowed xs
unfolding scope_invalid
scope_invalid→IsWithin allowed xs h = record {
  some_step = λ e. ground (arith, ap length e);
  all_allowed = All-allowed_of_any allowed xs (ground arith);
  no_repeat = Distinct-of_set_size xs (ground arith);
}

pub IsWithin→scope_invalid :
    (allowed xs : List String) → IsWithin allowed xs → scope_invalid allowed xs ≡ false
unfolding scope_invalid
IsWithin→scope_invalid allowed [] w = absurd (w.some_step refl)
IsWithin→scope_invalid allowed (x ∷ xs) w = ground (
  arith,
  any_of_All_allowed allowed (x ∷ xs) w.all_allowed,
  set_size_of_Distinct (x ∷ xs) w.no_repeat,
)

-- The approval of the plan that an initial authorization rests on, by another person.
abbrev pub Evidence : AuthorizationPolicyInput → Option ApprovalState → Type 0
Evidence i none = ⊥
Evidence i (some a) =
    (a.plan_version ≡ i.state.plan.version)
    × (a.plan_fingerprint ≡ i.state.plan.fingerprint)
    × (a.request_version ≤ i.state.request.version)
    × (a.decided_by ≢ i.actor_id)
    × (0 < i.state.plan.version)

-- What the signer promises of an authorization.
pub record IsAuthorizable (i : AuthorizationPolicyInput) : Type 0 where
  pub not_paused : i.state.execution_paused ≡ false
  pub not_cancelled : i.state.request.cancelled ≡ false
  pub version_current : i.state.request.version ≡ i.expected_request_version
  pub status_open : contains i.state.request.status authorizable_statuses ≡ true
  pub agent_active : i.state.agent.status ≢ revoked
  pub agent_at_home : i.state.agent.environment_id ≡ i.state.request.environment_id
  pub evidence : needs_evidence i ≡ true → Evidence i i.state.approval
  pub within_plan : IsWithin i.state.plan.step_ids i.requested_step_ids

-- What the policy lets through before it looks at the approval and the steps.
module _ (i : AuthorizationPolicyInput) (passed : assert_authorization_policy i ≡ ok tt) where
  passed_agent_at_home : i.state.agent.environment_id ≡ i.state.request.environment_id
  unfolding assert_authorization_policy
  passed_agent_at_home =
      ground (arith, eq_iff i.state.agent.environment_id i.state.request.environment_id)

  passed_approval : (assert_plan_version i ≡ ok tt) × (assert_approval i ≡ ok tt)
  unfolding assert_authorization_policy
  passed_approval = ground arith

  passed_scope : scope_invalid i.state.plan.step_ids i.requested_step_ids ≡ false
  unfolding assert_authorization_policy
  passed_scope = ground arith

Evidence-of_approval :
    (i : AuthorizationPolicyInput) (approval : Option ApprovalState)
    → i.state.approval ≡ approval
    → assert_plan_version i ≡ ok tt
    → assert_approval i ≡ ok tt
    → needs_evidence i ≡ true
    → Evidence i approval
unfolding assert_plan_version assert_approval evidence_invalid
Evidence-of_approval i none e p a n = ground arith
Evidence-of_approval i (some x) e p a n =
    ground
      (arith, eq_iff x.plan_fingerprint i.state.plan.fingerprint, eq_iff x.decided_by i.actor_id)

policy_sound :
    (i : AuthorizationPolicyInput) → assert_authorization_policy i ≡ ok tt → IsAuthorizable i
unfolding assert_authorization_policy
policy_sound i h = record {
  not_paused = ground arith;
  not_cancelled = ground arith;
  version_current = ground arith;
  status_open = ground arith;
  agent_active = ground arith;
  agent_at_home = passed_agent_at_home i h;
  evidence =
      Evidence-of_approval i i.state.approval refl (passed_approval i h).0 (passed_approval i h).1;
  within_plan =
      scope_invalid→IsWithin i.state.plan.step_ids i.requested_step_ids (passed_scope i h);
}

open_not_cancelled :
    (s : String) → contains s authorizable_statuses ≡ true → (s == "cancelled") ≡ false
open_not_cancelled s h = elim (Bool-cases (s == "cancelled")) [
  | inl same ↦
      absurd (
        cc (subst (λ t. contains t authorizable_statuses ≡ true) ((eq_iff s "cancelled").0 same) h))
  | inr other ↦ other
]

approval_of_Evidence :
    (i : AuthorizationPolicyInput) (approval : Option ApprovalState)
    → i.state.approval ≡ approval
    → (needs_evidence i ≡ true → Evidence i approval)
    → (assert_plan_version i ≡ ok tt) × (assert_approval i ≡ ok tt)
unfolding assert_plan_version assert_approval evidence_invalid
approval_of_Evidence i none e v = ground arith
approval_of_Evidence i (some x) e v =
    ground
      (arith, eq_iff x.plan_fingerprint i.state.plan.fingerprint, eq_iff x.decided_by i.actor_id)

policy_complete :
    (i : AuthorizationPolicyInput) → IsAuthorizable i → assert_authorization_policy i ≡ ok tt
unfolding assert_authorization_policy
policy_complete i a =
    let approved = approval_of_Evidence i i.state.approval refl a.evidence in
    let scoped = IsWithin→scope_invalid i.state.plan.step_ids i.requested_step_ids a.within_plan in
    ground (
      arith,
      approved,
      scoped,
      open_not_cancelled i.state.request.status a.status_open,
      eq_iff i.state.agent.environment_id i.state.request.environment_id,
    )

-- The signer authorizes an execution exactly when execution is not paused, the request is neither
-- cancelled nor changed and has a status that allows it, the agent is of the same environment
-- and not revoked, the steps are within the plan, and an initial authorization of a plan that
-- requires approval has an approval of that very plan, by somebody else.
pub assert_authorization_policy_lem :
    (i : AuthorizationPolicyInput) → (assert_authorization_policy i ≡ ok tt) ↔ IsAuthorizable i
assert_authorization_policy_lem i = (policy_sound i, policy_complete i)
