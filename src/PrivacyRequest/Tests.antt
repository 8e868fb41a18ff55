-- ===== src/PrivacyRequest/Tests.antt =====
-- Runs of the aggregate, and each theorem at an input where it applies.

use forget_ops.Prelude.{
  List, String, [], arith, false, inr, refl, true, ℕ, ◌++◌, ◌∷◌, ◌≡◌, ◌≢◌, ◌⊎◌,
}
use forget_ops.PrivacyRequest.Approval.{ApprovalInv, call-ApprovalInv, create-ApprovalInv}
use forget_ops.PrivacyRequest.Atomicity.{call_failure_atomic}
use forget_ops.PrivacyRequest.Commands.{
  Command, approves_plan, attaches_plan, authorizes_execution, begins_planning, call, completes,
  fails, marks_executing, marks_identity_verified, requests_replan, run,
}
use forget_ops.PrivacyRequest.Data.{
  AttachedPlan, CreatePrivacyRequest, ExecutionAuthorization, PlanBinding, delete, privacy_portal,
  range_error, state_conflict, step_scope_invalid,
}
use forget_ops.PrivacyRequest.Effect.{Aggregate, err, ok}
use forget_ops.PrivacyRequest.Growth.{GrowsTo, run-GrowsTo}
use forget_ops.PrivacyRequest.Guards.{call_outside_sources, terminal_absorbs}
use forget_ops.PrivacyRequest.Histories.{Authorized, history, history-Authorized, history-LedgerInv}
use forget_ops.PrivacyRequest.Journal.{call_success_journal, event_types}
use forget_ops.PrivacyRequest.Ledger.{LedgerInv, create-LedgerInv}
use forget_ops.PrivacyRequest.LedgerInvariant.{call-LedgerInv}
use forget_ops.PrivacyRequest.Lifecycle.{call-can_transition}
use forget_ops.PrivacyRequest.PlanVersions.{attached_version_spent}
use forget_ops.PrivacyRequest.Planning.{attach_plan, create}
use forget_ops.PrivacyRequest.Status.{
  can_transition, cancelled, completed, created, executing, identity_verification_pending,
  identity_verified, planning,
}
use forget_ops.PrivacyRequest.StepScopes.{IsScope, normalize_allowed_step_ids_lem}
use forget_ops.PrivacyRequest.Steps.{attempt_id_taken, find_attempt, replace_attempt, same_binding}
use forget_ops.PrivacyRequest.Unverified.{unverified_may_plan}
use forget_ops.PrivacyRequest.Validation.{
  normalize_allowed_step_ids, normalize_audit_reason, step_ids_invalid,
}

abbrev draft : CreatePrivacyRequest
draft = record {
  id = "req_1";
  environment_id = "env_1";
  request_type = delete;
  source = privacy_portal;
  policy_version = 3;
  created_by_actor_id = "usr_1";
  deadline_at = "2026-08-20T00:00:00.000Z";
}

abbrev clock : ℕ → String
clock n = "2026-07-21T00:00:00.000Z"

abbrev bound : PlanBinding
bound = record { plan_id = "plan_1"; plan_version = 1; plan_fingerprint = "sha256:a" }

abbrev plan_1 : AttachedPlan
plan_1 = record { binding = bound; requires_approval = true }

abbrev authorization_1 : ExecutionAuthorization
authorization_1 = record {
  binding = bound;
  agent_id = "agt_1";
  attempt_id = "att_1";
  allowed_step_ids = "step_1" ∷ "step_2" ∷ [];
}

abbrev until_plan : List Command
until_plan = marks_identity_verified "usr_1" ∷ begins_planning "agt_1" ∷ attaches_plan plan_1 ∷ []

abbrev until_approved : List Command
until_approved =
    marks_identity_verified "usr_1"
    ∷ begins_planning "agt_1"
    ∷ attaches_plan plan_1
    ∷ approves_plan (record { binding = bound; decided_by = "usr_2" })
    ∷ []

abbrev until_executing : List Command
until_executing =
    until_approved ++ authorizes_execution authorization_1 ∷ marks_executing "agt_1" ∷ []

abbrev executed : Aggregate
executed = history draft clock until_executing

executing_test : executed.status ≡ executing
unfolding run call can_transition create same_binding normalize_allowed_step_ids step_ids_invalid
    attempt_id_taken find_attempt replace_attempt
executing_test = refl

history-Authorized_example : Authorized executed
unfolding run call can_transition create same_binding normalize_allowed_step_ids step_ids_invalid
    attempt_id_taken find_attempt replace_attempt
history-Authorized_example = history-Authorized draft clock until_executing refl

call-LedgerInv_example : LedgerInv (call (completes 4) executed).1
call-LedgerInv_example =
    call-LedgerInv (completes 4) executed (history-LedgerInv draft clock until_executing)

call-ApprovalInv_example : ApprovalInv (call (attaches_plan plan_1) (create draft clock)).1
call-ApprovalInv_example =
    call-ApprovalInv (attaches_plan plan_1) (create draft clock) (create-ApprovalInv draft clock)

run-GrowsTo_example : GrowsTo executed.attempts (run (completes 4 ∷ []) executed).attempts
run-GrowsTo_example =
    run-GrowsTo (completes 4 ∷ []) executed (history-LedgerInv draft clock until_executing)

call_failure_atomic_example : (call (completes 4) (create draft clock)).1 ≡ create draft clock
unfolding call create
call_failure_atomic_example =
    call_failure_atomic (completes 4) (create draft clock) {e = state_conflict created completed}
      (create-LedgerInv draft clock) refl

call_outside_sources_example :
    call (completes 4) (create draft clock)
    ≡ (err (state_conflict created completed), create draft clock)
unfolding create
call_outside_sources_example = call_outside_sources (completes 4) (create draft clock) refl

abbrev withdrawn : Aggregate
withdrawn = record (create draft clock) { status = cancelled }

terminal_absorbs_example : run until_executing withdrawn ≡ withdrawn
terminal_absorbs_example = terminal_absorbs until_executing withdrawn (inr refl)

call-can_transition_example :
    (can_transition created identity_verified ≡ true)
    ⊎ ((false ≡ true) × (identity_verified ≡ created))
unfolding call can_transition create
call-can_transition_example =
    call-can_transition (marks_identity_verified "usr_1") (create draft clock) refl

call_success_journal_example :
    ((call (marks_identity_verified "usr_1") (create draft clock)).1.version ≡ 2)
    × (event_types (call (marks_identity_verified "usr_1") (create draft clock)).1.events
        ≡ "PrivacyRequestCreated" ∷ "IdentityVerified" ∷ [])
unfolding call can_transition create
call_success_journal_example =
    call_success_journal (marks_identity_verified "usr_1") (create draft clock) refl

abbrev in_planning : Aggregate
in_planning = record (create draft clock) { status = planning }

attached_version_spent_example :
    (attach_plan plan_1 (run (fails "timeout" ∷ []) (attach_plan plan_1 in_planning).1)).0 ≢ ok tt
unfolding attach_plan create
attached_version_spent_example =
    attached_version_spent plan_1 plan_1 (fails "timeout" ∷ []) in_planning refl (omega arith)

normalize_allowed_step_ids_example :
    ((normalize_allowed_step_ids ("a" ∷ "a" ∷ []) ≡ ok ("a" ∷ "a" ∷ [])) × IsScope ("a" ∷ "a" ∷ []))
    ⊎ ((normalize_allowed_step_ids ("a" ∷ "a" ∷ []) ≡ err (range_error step_scope_invalid))
        × (¬ IsScope ("a" ∷ "a" ∷ [])))
normalize_allowed_step_ids_example = normalize_allowed_step_ids_lem ("a" ∷ "a" ∷ [])

abbrev pending : Aggregate
pending = record (create draft clock) { status = identity_verification_pending }

unverified_may_plan_example :
    let s = run (fails "timeout" ∷ requests_replan "usr_1" "retry" ∷ []) pending in
    (s.status ≡ planning)
    × (event_types s.events
        ≡ event_types pending.events ++ "PrivacyRequestFailed" ∷ "ReplanRequested" ∷ [])
unfolding normalize_audit_reason
unverified_may_plan_example = unverified_may_plan pending "timeout" "usr_1" "retry" refl refl
