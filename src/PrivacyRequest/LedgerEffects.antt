-- ===== src/PrivacyRequest/LedgerEffects.antt =====
-- What each call does to the attempts: keep them, settle the current one, or add one.
use forget_ops.Prelude.{
  Bool, Bool-cases, List, Option, Option-cases, String, arith, eq_refl, false, inl, inr, is_present,
  length, none, some, true, ℕ, ◌+◌, ◌≡◌,
}
use forget_ops.PrivacyRequest.Commands.{
  Command, authorizes_execution, begins_retry, call, cancels, completes, fails,
  invalidates_authorization, marks_executing, marks_needs_review, marks_partial,
}
use forget_ops.PrivacyRequest.Data.{
  AttachedPlan, AttemptKind, AttemptStatus, Error, ExecutionAttempt, ExecutionAuthorization,
  PlanBinding, authorized, initial, partially_succeeded, retry, running, succeeded,
}
use forget_ops.PrivacyRequest.Effect.{Aggregate, Result-cases, err, ok}
use forget_ops.PrivacyRequest.Execution.{authorize_execution}
use forget_ops.PrivacyRequest.Journal.{call_failure_unchanged}
use forget_ops.PrivacyRequest.Ledger.{Appended, Kept, Updated}
use forget_ops.PrivacyRequest.Recovery.{begin_retry}
use forget_ops.PrivacyRequest.Status.{Status, can_transition, executing, execution_authorized}
use forget_ops.PrivacyRequest.Steps.{find_attempt, same_binding}
use forget_ops.PrivacyRequest.Validation.{normalize_allowed_step_ids}

-- The status that a call gives to the current attempt, by the status of the request.
abbrev pub settle_to : Command → Status → Option AttemptStatus
settle_to (marks_executing agent) execution_authorized = some running
settle_to (completes n) executing = some succeeded
settle_to (marks_partial n m) executing = some partially_succeeded
settle_to (fails category) executing = some AttemptStatus.failed
settle_to (marks_needs_review category) executing = some AttemptStatus.needs_review
settle_to (invalidates_authorization actor reason) execution_authorized =
    some AttemptStatus.cancelled
settle_to (cancels actor reason) execution_authorized = some AttemptStatus.cancelled
settle_to _ _ = none

-- A running attempt has no date of completion.
abbrev pub settled_at : AttemptStatus → Aggregate → Option String
settled_at running r = none
settled_at _ r = some (r.now r.readings)

abbrev pub adds_attempt : Command → Bool
adds_attempt (authorizes_execution a) = true
adds_attempt (begins_retry id step_ids version) = true
adds_attempt _ = false

-- A call that settles the current attempt finds it.
call_found :
    (c : Command) (r : Aggregate) {s : AttemptStatus}
    → (call c r).0 ≡ ok tt
    → settle_to c r.status ≡ some s
    → is_present (find_attempt r.current_attempt_id r.attempts) ≡ true
unfolding call can_transition
call_found (marks_executing agent) r h e = ground arith
call_found (completes n) r h e = ground arith
call_found (marks_partial n m) r h e = ground arith
call_found (fails category) r h e = ground arith
call_found (marks_needs_review category) r h e = ground arith
call_found (invalidates_authorization actor reason) r h e = ground arith
call_found (cancels actor reason) r h e = ground arith
call_found _ r h e = cc

call-Updated :
    (c : Command) (r : Aggregate) (s : AttemptStatus) (a : ExecutionAttempt)
    → (call c r).0 ≡ ok tt
    → settle_to c r.status ≡ some s
    → find_attempt r.current_attempt_id r.attempts ≡ some a
    → Updated s (settled_at s r) a r (call c r).1
unfolding call can_transition
call-Updated (marks_executing agent) r s a h e f = ground arith
call-Updated (completes n) r s a h e f = ground arith
call-Updated (marks_partial n m) r s a h e f = ground arith
call-Updated (fails category) r s a h e f = ground arith
call-Updated (marks_needs_review category) r s a h e f = ground arith
call-Updated (invalidates_authorization actor reason) r s a h e f = ground arith
call-Updated (cancels actor reason) r s a h e f = ground arith
call-Updated _ r s a h e f = absurd (cc)

call-Kept :
    (c : Command) (r : Aggregate)
    → (call c r).0 ≡ ok tt
    → settle_to c r.status ≡ none
    → adds_attempt c ≡ false
    → Kept r (call c r).1
unfolding call can_transition
call-Kept (authorizes_execution a) r h e f = absurd (cc)
call-Kept (begins_retry id step_ids version) r h e f = absurd (cc)
call-Kept _ r h e f = ground arith

-- A call that throws keeps the attempts.
call_failure-Kept :
    (c : Command) (r : Aggregate) {e : Error} → (call c r).0 ≡ err e → Kept r (call c r).1
call_failure-Kept c r h = ground (arith, call_failure_unchanged c r h)

same_binding_refl : (b : PlanBinding) → same_binding b b ≡ true
unfolding same_binding
same_binding_refl b = ground (arith, eq_refl b.plan_id, eq_refl b.plan_fingerprint)

-- The attempt that `buildAttempt` makes.
abbrev pub built_attempt :
    Aggregate → String → AttemptKind → PlanBinding → List String → ExecutionAttempt
built_attempt r id kind binding step_ids = record {
  id = id;
  request_id = r.id;
  attempt_number = length r.attempts + 1;
  kind = kind;
  binding = binding;
  allowed_step_ids = step_ids;
  status = authorized;
  created_at = r.now r.readings;
  completed_at = none;
}

authorize-Appended :
    (a : ExecutionAuthorization) (r : Aggregate)
    → (authorize_execution a r).0 ≡ ok tt
    → Appended
        (built_attempt r a.attempt_id initial a.binding a.allowed_step_ids)
        r
        (authorize_execution a r).1
unfolding authorize_execution can_transition normalize_allowed_step_ids
authorize-Appended a r h = ground arith

retry-Appended :
    (id : String) (step_ids : List String) (version : ℕ) (r : Aggregate) (p : AttachedPlan)
    → r.plan ≡ some p
    → (begin_retry id step_ids version r).0 ≡ ok tt
    → Appended (built_attempt r id retry p.binding step_ids) r (begin_retry id step_ids version r).1
unfolding begin_retry can_transition normalize_allowed_step_ids
retry-Appended id step_ids version r p e h = ground (arith, same_binding_refl p.binding)

retry_needs_plan :
    (id : String) (step_ids : List String) (version : ℕ) (r : Aggregate)
    → (begin_retry id step_ids version r).0 ≡ ok tt
    → is_present r.plan ≡ true
unfolding begin_retry
retry_needs_plan id step_ids version r h = ground arith

-- Every call keeps the attempts, settles the current one, or adds one.
pub data LedgerEffect (r s : Aggregate) : Type 0 where
  keeps : Kept r s → LedgerEffect r s
  settles :
      {status : AttemptStatus} {at : Option String} {a : ExecutionAttempt}
      → Updated status at a r s
      → LedgerEffect r s
  adds : {a : ExecutionAttempt} → Appended a r s → LedgerEffect r s

success-LedgerEffect :
    (c : Command) (r : Aggregate)
    → adds_attempt c ≡ false
    → (call c r).0 ≡ ok tt
    → LedgerEffect r (call c r).1
success-LedgerEffect c r f h = elim (Option-cases (settle_to c r.status)) [
  | inl e ↦ keeps (call-Kept c r h e f)
  | inr (s, e) ↦ elim (Option-cases (find_attempt r.current_attempt_id r.attempts)) [
    | inl missing ↦ absurd (cc (call_found c r h e, missing))
    | inr (a, found) ↦ settles (call-Updated c r s a h e found)
  ]
]

adding-LedgerEffect :
    (c : Command) (r : Aggregate)
    → adds_attempt c ≡ true
    → (call c r).0 ≡ ok tt
    → LedgerEffect r (call c r).1
unfolding call
adding-LedgerEffect (authorizes_execution a) r f h = adds (authorize-Appended a r h)
adding-LedgerEffect (begins_retry id step_ids version) r f h = elim (Option-cases r.plan) [
  | inl missing ↦ absurd (cc (retry_needs_plan id step_ids version r h, missing))
  | inr (p, e) ↦ adds (retry-Appended id step_ids version r p e h)
]
adding-LedgerEffect _ r f h = absurd (cc)

pub call-LedgerEffect : (c : Command) (r : Aggregate) → LedgerEffect r (call c r).1
call-LedgerEffect c r = elim (Result-cases (call c r).0) [
  | inr (e, thrown) ↦ keeps (call_failure-Kept c r thrown)
  | inl done ↦ elim (Bool-cases (adds_attempt c)) [
    | inl adding ↦ adding-LedgerEffect c r adding done
    | inr f ↦ success-LedgerEffect c r f done
  ]
]
