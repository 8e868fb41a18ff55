-- ===== src/Plans/ApprovalLaws.antt =====
-- What an approval is good for.
use forget_ops.Plans.Approvals.{
  ApprovalEvidence, ApproveInput, UnhashedEvidence, approval_not_found, approve, assert_current,
  clear_approval, unhashed,
}
use forget_ops.Plans.Data.{PlanProjection}
use forget_ops.Prelude.{
  List, Option, String, arith, eq_iff, eq_refl, err, lookup-erase, lookup-insert, ok, ℕ, ◌↔◌, ◌≡◌,
  ◌≢◌,
}

-- An approval that is given for a request is current for exactly the request version and the plan's
-- id, version and fingerprint that it was given for, it was decided by another than the requester,
-- and once it is cleared there is none.
pub approve-assert_current :
    (canonicalize : UnhashedEvidence → Option String) (sha256_hex : String → String)
    (input : ApproveInput) (random_id : String) (now : ℕ)
    (approvals after : List (String × ApprovalEvidence)) (approval : ApprovalEvidence)
    → approve canonicalize sha256_hex input random_id now approvals ≡ ok (after, approval)
    → (request_version : ℕ) (plan : PlanProjection)
    → ((assert_current input.request_id request_version plan after ≡ ok approval) ↔ (
        (request_version ≡ input.request_version)
        × (plan.id ≡ input.plan.id)
        × (plan.version ≡ input.plan.version)
        × (plan.fingerprint ≡ input.plan.fingerprint)))
      × (approval.decided_by ≢ input.requester_actor_id)
      × (assert_current input.request_id request_version plan
            (clear_approval input.request_id after)
          ≡ err approval_not_found)
unfolding approve assert_current unhashed clear_approval
approve-assert_current canonicalize sha256_hex input random_id now approvals after approval h
      request_version plan =
    let there = lookup-insert input.request_id input.request_id approval approvals in
    let gone = lookup-erase input.request_id input.request_id after in
    let eq = eq_refl input.request_id in
    let ids = eq_iff approval.plan_id plan.id in
    let prints = eq_iff approval.plan_fingerprint plan.fingerprint in
    let actors = eq_iff input.requester_actor_id input.approver_actor_id in
    (
      (λ c. (ground arith, ground arith, ground arith, ground arith), λ (v, i, n, f). ground arith),
      λ e. ground arith,
      ground arith,
    )
