-- ===== src/PrivacyRequest/Approval.antt =====
-- A plan is carried out only with the approval that it needs.
use forget_ops.Prelude.{
  Bool, List, Option, String, arith, false, is_present, nat_strict, none, not, some, string_strict,
  true, ℕ, ◌==◌, ◌||◌, ◌≡◌, ◌⊎◌,
}
use forget_ops.PrivacyRequest.Commands.{
  Command, attaches_plan, authorizes_execution, begins_retry, call,
}
use forget_ops.PrivacyRequest.Data.{
  AttachedPlan, CreatePrivacyRequest, ExecutionAuthorization, PlanApproval,
}
use forget_ops.PrivacyRequest.Effect.{Aggregate}
use forget_ops.PrivacyRequest.Execution.{authorize_execution}
use forget_ops.PrivacyRequest.Planning.{create}
use forget_ops.PrivacyRequest.Recovery.{begin_retry}
use forget_ops.PrivacyRequest.Status.{
  Status, awaiting_approval, can_transition, cancelled, executing, execution_authorized,
  status_strict,
}
use forget_ops.PrivacyRequest.Steps.{plan_has_binding}

abbrev pub ApprovalBound : Option AttachedPlan → Option PlanApproval → Type 0
ApprovalBound p none = Unit
ApprovalBound p (some a) = plan_has_binding p a.binding ≡ true

abbrev pub PlanIsLatest : Option AttachedPlan → ℕ → Type 0
PlanIsLatest none latest = Unit
PlanIsLatest (some p) latest = p.plan_version ≡ latest

-- No plan, a plan that needs no approval, or a plan with one.
abbrev pub is_cleared : Option AttachedPlan → Option PlanApproval → Bool
is_cleared none a = true
is_cleared (some p) a = not p.requires_approval || is_present a

-- The statuses in which a plan may still wait for its approval, or never get it.
abbrev pub may_wait : Status → Bool
may_wait s = s == awaiting_approval || s == cancelled

-- The statuses in which there is an authorized attempt.
abbrev pub is_under_way : Status → Bool
is_under_way s = s == execution_authorized || s == executing

pub record ApprovalInv (r : Aggregate) : Type 0 where
  pub approval_bound : ApprovalBound r.plan r.approval
  pub plan_latest : PlanIsLatest r.plan r.latest_plan_version
  pub plan_cleared : may_wait r.status ≡ false → is_cleared r.plan r.approval ≡ true
  pub plan_present : is_under_way r.status ≡ true → is_present r.plan ≡ true

pub create-ApprovalInv :
    (input : CreatePrivacyRequest) (now : ℕ → String) → ApprovalInv (create input now)
unfolding create
create-ApprovalInv input now = ground arith

-- What `authorizeExecution` and `beginRetry` do to the fields that the invariant reads.
record AuthorizeEffect (r s : Aggregate) : Type 0 where
  plan_kept : s.plan ≡ r.plan
  approval_kept : s.approval ≡ r.approval
  latest_kept : s.latest_plan_version ≡ r.latest_plan_version
  moved :
      (s.status ≡ r.status)
      ⊎ ((s.status ≡ execution_authorized)
          × (is_present r.plan ≡ true)
          × ((is_cleared r.plan r.approval ≡ true) ⊎ (may_wait r.status ≡ false)))

authorize-AuthorizeEffect :
    (a : ExecutionAuthorization) (r : Aggregate) → AuthorizeEffect r (authorize_execution a r).1
unfolding authorize_execution can_transition
authorize-AuthorizeEffect a r = ground arith

retry-AuthorizeEffect :
    (id : String) (ids : List String) (version : ℕ) (r : Aggregate)
    → AuthorizeEffect r (begin_retry id ids version r).1
unfolding begin_retry can_transition
retry-AuthorizeEffect id ids version r = ground arith

AuthorizeEffect-ApprovalInv :
    {r s : Aggregate} → AuthorizeEffect r s → ApprovalInv r → ApprovalInv s
AuthorizeEffect-ApprovalInv e h = ground arith

-- Every call, also one that throws, keeps the invariant.
pub call-ApprovalInv : (c : Command) (r : Aggregate) → ApprovalInv r → ApprovalInv (call c r).1
unfolding call can_transition
call-ApprovalInv (attaches_plan p) r h = ground arith
call-ApprovalInv (authorizes_execution a) r h =
    AuthorizeEffect-ApprovalInv (authorize-AuthorizeEffect a r) h
call-ApprovalInv (begins_retry id ids version) r h =
    AuthorizeEffect-ApprovalInv (retry-AuthorizeEffect id ids version r) h
call-ApprovalInv _ r h = ground arith
