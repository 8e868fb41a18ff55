-- ===== src/Plans/Tests.antt =====
-- Runs of the plan and approval services on a plan of two steps.
use forget_ops.Plans.ApprovalLaws.{approve-assert_current}
use forget_ops.Plans.Approvals.{
  ApprovalEvidence, ApproveInput, UnhashedEvidence, approval_not_found, approve, assert_current,
  clear_approval, unhashed,
}
use forget_ops.Plans.Data.{
  CreatePlanInput, NormalizedPlan, PlanProjection, PlanStep, erase_data, export, high, low,
  plan_version_mismatch,
}
use forget_ops.Plans.Laws.{PlanCall, approves, created_version_spent, gets, plan_run}
use forget_ops.Plans.Selection.{Selected, select_steps-Selected}
use forget_ops.Plans.Service.{
  create_plan, dependencies_invalid, gather_ids, get_plan, new_plan, plan_fingerprint, select_steps,
  selection_invalid, step_invalid, validate_steps,
}
use forget_ops.Plans.Steps.{IsPlan, validate_steps_lem}
use forget_ops.Prelude.{
  List, Option, String, [], arith, err, insert, lookup, none, ok, refl, set_add, set_from, some,
  ◌<◌, ◌↔◌, ◌∷◌, ◌≡◌, ◌≢◌,
}

abbrev export_step : PlanStep
export_step = record {
  id = "export";
  connector = "postgres";
  resource = "users";
  action = export;
  estimated_count = some 3;
  risk = low;
  dependencies = [];
}

abbrev erase_step : PlanStep
erase_step = record {
  id = "erase";
  connector = "postgres";
  resource = "users";
  action = erase_data;
  estimated_count = some 3;
  risk = high;
  dependencies = "export" ∷ [];
}

abbrev two_steps : List PlanStep
two_steps = export_step ∷ erase_step ∷ []

abbrev plan_input : CreatePlanInput
plan_input = record {
  id = "plan";
  request_id = "request";
  version = 2;
  connector_configuration_fingerprint = "configuration";
  steps = two_steps;
  requires_approval = none;
  ttl_ms = none;
}

abbrev plan_text : NormalizedPlan → Option String
plan_text value = some value.connector_configuration_fingerprint

abbrev same_text : String → String
same_text value = value

abbrev the_plan : PlanProjection
the_plan = new_plan plan_input "sha256:configuration" 100

abbrev plans : List (String × PlanProjection)
plans = ("request", the_plan) ∷ []

abbrev history : List PlanCall
history = approves "request" 2 200 ∷ gets "request" 99999999 ∷ []

created : create_plan plan_text same_text plan_input 100 [] ≡ ok (plans, the_plan)
unfolding create_plan validate_steps gather_ids step_invalid set_add dependencies_invalid
    plan_fingerprint new_plan lookup insert
created = refl

created_version_spent_example :
    create_plan plan_text same_text plan_input 300 (plan_run plan_text same_text history plans)
    ≡ err plan_version_mismatch
created_version_spent_example =
    created_version_spent plan_text same_text plan_input 100 [] plans the_plan created history
      plan_input 300 refl (omega arith)

validate_steps_example : (validate_steps two_steps ≡ ok tt) ↔ IsPlan two_steps
validate_steps_example = validate_steps_lem two_steps

there : lookup "request" plans ≡ some the_plan
unfolding lookup
there = refl

selected : select_steps "request" ("erase" ∷ []) 200 plans ≡ (plans, ok (erase_step ∷ []))
unfolding select_steps get_plan selection_invalid set_from set_add lookup new_plan
selected = refl

select_steps-Selected_example :
    (plans ≡ plans)
    × (200 < the_plan.expires_at)
    × Selected ("erase" ∷ []) the_plan.steps (erase_step ∷ [])
select_steps-Selected_example =
    select_steps-Selected "request" ("erase" ∷ []) 200 plans plans the_plan (erase_step ∷ []) there
      selected

abbrev approve_input : ApproveInput
approve_input = record {
  request_id = "request";
  request_version = 4;
  plan = the_plan;
  requester_actor_id = "ann";
  approver_actor_id = "bob";
  challenge_id = none;
}

abbrev evidence_text : UnhashedEvidence → Option String
evidence_text value = some value.plan_id

abbrev approval : ApprovalEvidence
approval = record {
  evidence = unhashed approve_input "challenge" 150;
  evidence_hash = "sha256:plan";
}

given :
    approve evidence_text same_text approve_input "challenge" 150 []
    ≡ ok (("request", approval) ∷ [], approval)
unfolding approve unhashed insert new_plan
given = refl

approve-assert_current_example :
    ((assert_current "request" 4 the_plan (("request", approval) ∷ []) ≡ ok approval) ↔ (
      (4 ≡ approve_input.request_version)
      × (the_plan.id ≡ the_plan.id)
      × (the_plan.version ≡ the_plan.version)
      × (the_plan.fingerprint ≡ the_plan.fingerprint)))
    × (approval.decided_by ≢ approve_input.requester_actor_id)
    × (assert_current "request" 4 the_plan (clear_approval "request" (("request", approval) ∷ []))
        ≡ err approval_not_found)
approve-assert_current_example =
    approve-assert_current evidence_text same_text approve_input "challenge" 150 []
      (("request", approval) ∷ []) approval given 4 the_plan
