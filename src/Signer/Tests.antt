-- ===== src/Signer/Tests.antt =====
-- Runs of the policies, and each theorem at an input where it applies.

use forget_ops.Prelude.{[], err, false, ok, refl, set_from, some, true, ◌↔◌, ◌∷◌, ◌≡◌}
use forget_ops.Signer.Data.{
  AuthorizationPolicyInput, AuthorizationPolicyState, LeasePolicyInput, initial, online,
  separation_of_duty_violation,
}
use forget_ops.Signer.Laws.{IsAuthorizable, assert_authorization_policy_lem}
use forget_ops.Signer.Lease.{
  assert_execution_lease_policy, assert_lease_claims_bound, lease_agent_mismatch, lease_claims,
}
use forget_ops.Signer.LeaseLaws.{IsLeasable, assert_execution_lease_policy_lem, lease_claims_bound}
use forget_ops.Signer.Policy.{
  assert_approval, assert_authorization_policy, assert_plan_version, evidence_invalid,
  scope_invalid,
}

abbrev state_1 : AuthorizationPolicyState
state_1 = record {
  request = record {
    id = "req_1";
    environment_id = "env_1";
    version = 5;
    policy_version = 1;
    status = "awaiting_approval";
    cancelled = false;
  };
  plan = record {
    id = "plan_1";
    version = 2;
    fingerprint = "sha256:a";
    connector_configuration_fingerprint = "sha256:b";
    step_ids = "s1" ∷ "s2" ∷ [];
    requires_approval = true;
  };
  approval = some (record {
    evidence_hash = "sha256:c";
    decided_by = "usr_2";
    decided_at = "2026-07-21T00:00:00.000Z";
    request_version = 5;
    plan_version = 2;
    plan_fingerprint = "sha256:a";
  });
  agent = record { id = "agt_1"; environment_id = "env_1"; status = online };
  execution_paused = false;
}

abbrev request_1 : AuthorizationPolicyInput
request_1 = record {
  state = state_1;
  actor_id = "usr_1";
  expected_request_version = 5;
  requested_step_ids = "s2" ∷ [];
  authorization_kind = initial;
}

policy_passes : assert_authorization_policy request_1 ≡ ok tt
unfolding assert_authorization_policy assert_plan_version assert_approval evidence_invalid
    scope_invalid set_from
policy_passes = refl

policy_same_actor :
    assert_authorization_policy (record request_1 { actor_id = "usr_2" })
    ≡ err separation_of_duty_violation
unfolding assert_authorization_policy assert_plan_version assert_approval evidence_invalid
    scope_invalid set_from
policy_same_actor = refl

assert_authorization_policy_example :
    (assert_authorization_policy request_1 ≡ ok tt) ↔ IsAuthorizable request_1
assert_authorization_policy_example = assert_authorization_policy_lem request_1

abbrev lease_1 : LeasePolicyInput
lease_1 = record {
  authorization = record {
    environment_id = "env_1";
    agent_id = "agt_1";
    request_id = "req_1";
    attempt_id = "att_1";
    plan_version = 2;
    plan_fingerprint = "sha256:a";
    allowed_step_ids = "s1" ∷ "s2" ∷ [];
    expires_at = some 2000;
  };
  state = state_1;
  requested_step_ids = "s1" ∷ [];
  now = 1000;
}

assert_execution_lease_policy_example :
    (assert_execution_lease_policy lease_1 ≡ ok tt) ↔ IsLeasable lease_1
assert_execution_lease_policy_example = assert_execution_lease_policy_lem lease_1

lease_claims_bound_example :
    assert_lease_claims_bound (lease_claims lease_1) lease_1.authorization ≡ ok tt
unfolding assert_execution_lease_policy lease_agent_mismatch scope_invalid set_from
lease_claims_bound_example = lease_claims_bound lease_1 refl
