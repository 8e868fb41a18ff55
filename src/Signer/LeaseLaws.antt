-- ===== src/Signer/LeaseLaws.antt =====
-- What an execution lease is issued for.
use forget_ops.Prelude.{
  Option, arith, eq_iff, eq_refl, false, none, ok, refl, some, ℕ, ◌<◌, ◌↔◌, ◌≡◌, ◌≢◌,
}
use forget_ops.Signer.Data.{
  AuthorizationClaims, AuthorizationPolicyState, LeasePolicyInput, draining, revoked,
}
use forget_ops.Signer.Laws.{
  IsWithin, IsWithin→scope_invalid, any_of_All_allowed, scope_invalid→IsWithin,
}
use forget_ops.Signer.Lease.{
  assert_execution_lease_policy, assert_lease_claims_bound, is_past, lease_agent_mismatch,
  lease_claims,
}

-- The authorization is that of the state: of its environment, agent, request and plan.
pub record IsOfState (a : AuthorizationClaims) (s : AuthorizationPolicyState) : Type 0 where
  pub same_environment : a.environment_id ≡ s.request.environment_id
  pub same_agent : a.agent_id ≡ s.agent.id
  pub same_request : a.request_id ≡ s.request.id
  pub same_version : a.plan_version ≡ s.plan.version
  pub same_fingerprint : a.plan_fingerprint ≡ s.plan.fingerprint
  pub not_revoked : s.agent.status ≢ revoked
  pub not_draining : s.agent.status ≢ draining

IsOfState-of_match :
    (a : AuthorizationClaims) (s : AuthorizationPolicyState)
    → lease_agent_mismatch a s ≡ false
    → IsOfState a s
unfolding lease_agent_mismatch
IsOfState-of_match a s h = record {
  same_environment = ground (arith, eq_iff a.environment_id s.request.environment_id);
  same_agent = ground (arith, eq_iff a.agent_id s.agent.id);
  same_request = ground (arith, eq_iff a.request_id s.request.id);
  same_version = ground arith;
  same_fingerprint = ground (arith, eq_iff a.plan_fingerprint s.plan.fingerprint);
  not_revoked = ground arith;
  not_draining = ground arith;
}

match_of_IsOfState :
    (a : AuthorizationClaims) (s : AuthorizationPolicyState)
    → IsOfState a s
    → lease_agent_mismatch a s ≡ false
unfolding lease_agent_mismatch
match_of_IsOfState a s h = ground (
  arith,
  eq_iff a.environment_id s.request.environment_id,
  eq_iff a.agent_id s.agent.id,
  eq_iff a.request_id s.request.id,
  eq_iff a.plan_fingerprint s.plan.fingerprint,
)

-- The end lies behind the present; a text that is no date, and so compares with nothing, passes.
abbrev pub EndsAfter : Option ℕ → ℕ → Type 0
EndsAfter none now = Unit
EndsAfter (some t) now = now < t

EndsAfter-of_not_past :
    (expires_at : Option ℕ) (now : ℕ) → is_past expires_at now ≡ false → EndsAfter expires_at now
EndsAfter-of_not_past none now h = tt
EndsAfter-of_not_past (some t) now h = ground arith

not_past_of_EndsAfter :
    (expires_at : Option ℕ) (now : ℕ) → EndsAfter expires_at now → is_past expires_at now ≡ false
not_past_of_EndsAfter none now h = refl
not_past_of_EndsAfter (some t) now h = ground arith

pub record IsLeasable (i : LeasePolicyInput) : Type 0 where
  pub not_paused : i.state.execution_paused ≡ false
  pub of_state : IsOfState i.authorization i.state
  pub not_expired : EndsAfter i.authorization.expires_at i.now
  pub within_authorization : IsWithin i.authorization.allowed_step_ids i.requested_step_ids

lease_sound : (i : LeasePolicyInput) → assert_execution_lease_policy i ≡ ok tt → IsLeasable i
unfolding assert_execution_lease_policy
lease_sound i h = record {
  not_paused = ground arith;
  of_state = IsOfState-of_match i.authorization i.state (ground arith);
  not_expired = EndsAfter-of_not_past i.authorization.expires_at i.now (ground arith);
  within_authorization =
      scope_invalid→IsWithin i.authorization.allowed_step_ids i.requested_step_ids (ground arith);
}

lease_complete : (i : LeasePolicyInput) → IsLeasable i → assert_execution_lease_policy i ≡ ok tt
unfolding assert_execution_lease_policy
lease_complete i l = ground (
  arith,
  match_of_IsOfState i.authorization i.state l.of_state,
  not_past_of_EndsAfter i.authorization.expires_at i.now l.not_expired,
  IsWithin→scope_invalid i.authorization.allowed_step_ids i.requested_step_ids
      l.within_authorization,
)

-- A lease is granted exactly when execution is not paused, the authorization is that of the
-- request, plan and agent at hand and ends after the present (or at no valid date), the agent is
-- neither revoked nor draining, and the steps are within the authorization, at least one and none
-- twice.
pub assert_execution_lease_policy_lem :
    (i : LeasePolicyInput) → (assert_execution_lease_policy i ≡ ok tt) ↔ IsLeasable i
assert_execution_lease_policy_lem i = (lease_sound i, lease_complete i)

-- The claims of a lease that the policy allows always pass the check that binds them to the
-- authorization.
pub lease_claims_bound :
    (i : LeasePolicyInput)
    → assert_execution_lease_policy i ≡ ok tt
    → assert_lease_claims_bound (lease_claims i) i.authorization ≡ ok tt
unfolding assert_lease_claims_bound lease_claims
lease_claims_bound i h =
    let a = i.authorization in
    ground (
      arith,
      eq_refl a.environment_id,
      eq_refl a.agent_id,
      eq_refl a.request_id,
      eq_refl a.attempt_id,
      any_of_All_allowed a.allowed_step_ids i.requested_step_ids
          (lease_sound i h).within_authorization.all_allowed,
    )
