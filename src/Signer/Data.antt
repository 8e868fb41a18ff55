-- ===== src/Signer/Data.antt =====
-- The types of authorization-policy.ts, and the claims that it reads. A time that the code gets by
-- `Date.parse` is its milliseconds, `none` where the text is no date (NaN).
use forget_ops.Prelude.{Bool, List, Option, String, ℕ}

pub record RequestState : Type 0 where
  pub id : String
  pub environment_id : String
  pub version : ℕ
  pub policy_version : ℕ
  pub status : String
  pub cancelled : Bool

pub record PlanState : Type 0 where
  pub id : String
  pub version : ℕ
  pub fingerprint : String
  pub connector_configuration_fingerprint : String
  pub step_ids : List String
  pub requires_approval : Bool

pub record ApprovalState : Type 0 where
  pub evidence_hash : String
  pub decided_by : String
  pub decided_at : String
  pub request_version : ℕ
  pub plan_version : ℕ
  pub plan_fingerprint : String

pub data SignerAgentStatus : Type 0 where
  online outdated draining revoked : SignerAgentStatus

pub record AgentState : Type 0 where
  pub id : String
  pub environment_id : String
  pub status : SignerAgentStatus

pub record AuthorizationPolicyState : Type 0 where
  pub request : RequestState
  pub plan : PlanState
  pub approval : Option ApprovalState
  pub agent : AgentState
  pub execution_paused : Bool

pub data AuthorizationKind : Type 0 where
  initial retry : AuthorizationKind

pub record AuthorizationPolicyInput : Type 0 where
  pub state : AuthorizationPolicyState
  pub actor_id : String
  pub expected_request_version : ℕ
  pub requested_step_ids : List String
  pub authorization_kind : AuthorizationKind

pub data PolicyError : Type 0 where
  execution_globally_paused request_version_mismatch plan_version_mismatch : PolicyError
  approval_evidence_invalid separation_of_duty_violation agent_not_eligible : PolicyError
  request_not_authorizable step_scope_invalid : PolicyError

-- The claims of an authorization that the policies read.
pub record AuthorizationClaims : Type 0 where
  pub environment_id : String
  pub agent_id : String
  pub request_id : String
  pub attempt_id : String
  pub plan_version : ℕ
  pub plan_fingerprint : String
  pub allowed_step_ids : List String
  pub expires_at : Option ℕ

pub record LeaseClaims : Type 0 where
  pub environment_id : String
  pub agent_id : String
  pub request_id : String
  pub attempt_id : String
  pub allowed_step_ids : List String

pub record LeasePolicyInput : Type 0 where
  pub authorization : AuthorizationClaims
  pub state : AuthorizationPolicyState
  pub requested_step_ids : List String
  pub now : ℕ
