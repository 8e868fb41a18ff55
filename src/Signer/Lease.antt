-- ===== src/Signer/Lease.antt =====
-- `assertExecutionLeasePolicy` and `assertLeaseClaimsBound`.
use forget_ops.Prelude.{
  Bool, Option, Outcome, any, contains, false, leb, nat_beq, nat_strict, none, not, reject_if, some,
  string_strict, true, ℕ, ◌==◌, ◌>>◌, ◌||◌,
}
use forget_ops.PrivacyRequest.Status.{status_strict}
use forget_ops.Signer.Data.{
  AuthorizationClaims, AuthorizationPolicyState, LeaseClaims, LeasePolicyInput, PolicyError,
  SignerAgentStatus, agent_not_eligible, draining, execution_globally_paused,
  request_not_authorizable, revoked, step_scope_invalid,
}
use forget_ops.Signer.Policy.{scope_invalid}

-- `Date.parse(text) <= now`, which is false for a text that is no date.
abbrev pub is_past : Option ℕ → ℕ → Bool
is_past none now = false
is_past (some t) now = leb t now

abbrev pub is_barred : SignerAgentStatus → Bool
is_barred revoked = true
is_barred draining = true
is_barred _ = false

unfoldable pub lease_agent_mismatch : AuthorizationClaims → AuthorizationPolicyState → Bool
lease_agent_mismatch a s =
    not (a.environment_id == s.request.environment_id)
    || not (a.agent_id == s.agent.id)
    || not (a.request_id == s.request.id)
    || not (nat_beq a.plan_version s.plan.version)
    || not (a.plan_fingerprint == s.plan.fingerprint)
    || is_barred s.agent.status

unfoldable pub assert_execution_lease_policy : LeasePolicyInput → Outcome PolicyError (Unit {0})
assert_execution_lease_policy i = do
  reject_if i.state.execution_paused execution_globally_paused
  reject_if (lease_agent_mismatch i.authorization i.state) agent_not_eligible
  reject_if (is_past i.authorization.expires_at i.now) request_not_authorizable
  reject_if (scope_invalid i.authorization.allowed_step_ids i.requested_step_ids) step_scope_invalid

unfoldable pub assert_lease_claims_bound :
    LeaseClaims → AuthorizationClaims → Outcome PolicyError (Unit {0})
assert_lease_claims_bound l a =
    reject_if
      (not (l.environment_id == a.environment_id)
        || not (l.agent_id == a.agent_id)
        || not (l.request_id == a.request_id)
        || not (l.attempt_id == a.attempt_id)
        || any (λ step. not (contains step a.allowed_step_ids)) l.allowed_step_ids)
      step_scope_invalid

-- The claims that `ExecutionLeaseSigner.issue` makes, as far as the check of their binding reads
-- them.
unfoldable pub lease_claims : LeasePolicyInput → LeaseClaims
lease_claims i = record {
  environment_id = i.authorization.environment_id;
  agent_id = i.authorization.agent_id;
  request_id = i.authorization.request_id;
  attempt_id = i.authorization.attempt_id;
  allowed_step_ids = i.requested_step_ids;
}
