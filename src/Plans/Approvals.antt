-- ===== src/Plans/Approvals.antt =====
-- `ApprovalService`: apps/api/src/modules/approvals/approval-service.ts. The evidence before it has
-- its hash is what `canonicalize` reads; a challenge id is chosen at random where none is given.
use forget_ops.Plans.Data.{PlanProjection}
use forget_ops.Plans.Service.{is_expired}
use forget_ops.Prelude.{
  List, Option, Outcome, String, erase, get_or, insert, lookup, nat_beq, nat_strict, not, ok,
  reject_if, require, string_strict, text_append, ℕ, ◌==◌, ◌>>=◌, ◌>>◌, ◌||◌,
}
use forget_ops.PrivacyRequest.Status.{status_strict}

pub record UnhashedEvidence : Type 0 where
  pub challenge_id : String
  pub request_id : String
  pub request_version : ℕ
  pub plan_id : String
  pub plan_version : ℕ
  pub plan_fingerprint : String
  pub decided_by : String
  pub decided_at : ℕ

pub record ApprovalEvidence : Type 0 where
  pub evidence : UnhashedEvidence
  pub open evidence use *
  pub evidence_hash : String

pub data ApprovalError : Type 0 where
  evidence_invalid separation_of_duty_violation version_mismatch approval_not_found : ApprovalError

pub record ApproveInput : Type 0 where
  pub request_id : String
  pub request_version : ℕ
  pub plan : PlanProjection
  pub requester_actor_id : String
  pub approver_actor_id : String
  pub challenge_id : Option String

unfoldable pub unhashed : ApproveInput → String → ℕ → UnhashedEvidence
unhashed input random_id now = record {
  challenge_id = get_or input.challenge_id random_id;
  request_id = input.request_id;
  request_version = input.request_version;
  plan_id = input.plan.id;
  plan_version = input.plan.version;
  plan_fingerprint = input.plan.fingerprint;
  decided_by = input.approver_actor_id;
  decided_at = now;
}

unfoldable pub approve :
    (UnhashedEvidence → Option String)
    → (String → String)
    → ApproveInput
    → String
    → ℕ
    → List (String × ApprovalEvidence)
    → Outcome ApprovalError (List (String × ApprovalEvidence) × ApprovalEvidence)
approve canonicalize sha256_hex input random_id now approvals = do
  reject_if (input.requester_actor_id == input.approver_actor_id) separation_of_duty_violation
  reject_if (is_expired input.plan.status) version_mismatch
  serialized ← require (canonicalize (unhashed input random_id now)) evidence_invalid
  let approval : ApprovalEvidence = record {
    evidence = unhashed input random_id now;
    evidence_hash = text_append "sha256:" (sha256_hex serialized);
  }
  ok (insert input.request_id approval approvals, approval)

unfoldable pub get_approval :
    String → List (String × ApprovalEvidence) → Outcome ApprovalError ApprovalEvidence
get_approval request approvals = require (lookup request approvals) approval_not_found

unfoldable pub assert_current :
    String
    → ℕ
    → PlanProjection
    → List (String × ApprovalEvidence)
    → Outcome ApprovalError ApprovalEvidence
unfolding get_approval
assert_current request request_version plan approvals = do
  approval ← get_approval request approvals
  reject_if
      (not (nat_beq approval.request_version request_version)
        || not (approval.plan_id == plan.id)
        || not (nat_beq approval.plan_version plan.version)
        || not (approval.plan_fingerprint == plan.fingerprint))
      evidence_invalid
  ok approval

unfoldable pub clear_approval :
    String → List (String × ApprovalEvidence) → List (String × ApprovalEvidence)
clear_approval = erase
