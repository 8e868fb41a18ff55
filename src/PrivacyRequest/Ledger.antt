-- ===== src/PrivacyRequest/Ledger.antt =====
-- What holds of an aggregate's attempts between two calls.
use forget_ops.Prelude.{
  All, Bool, Distinct, Option, String, [], false, is_present, is_some_text, length, none, not, some,
  true, ℕ, ◌++◌, ◌+◌, ◌∷◌, ◌≡◌, ◌⊎◌,
}
use forget_ops.PrivacyRequest.Attempts.{CountsFrom, attempt_ids, attempt_numbers}
use forget_ops.PrivacyRequest.Data.{
  AttachedPlan, AttemptStatus, CreatePrivacyRequest, ExecutionAttempt, authorized, running,
}
use forget_ops.PrivacyRequest.Effect.{Aggregate}
use forget_ops.PrivacyRequest.Planning.{create}
use forget_ops.PrivacyRequest.Status.{Status, executing, execution_authorized}
use forget_ops.PrivacyRequest.Steps.{
  attempt_id_taken, find_attempt, plan_has_binding, replace_attempt,
}
use forget_ops.PrivacyRequest.Validation.{step_ids_invalid}

abbrev pub is_open : AttemptStatus → Bool
is_open authorized = true
is_open running = true
is_open _ = false

-- The status of the current attempt while a request is under way.
abbrev pub phase : Status → Option AttemptStatus
phase execution_authorized = some authorized
phase executing = some running
phase _ = none

-- One attempt of the request `id`, whose status and current attempt are given.
pub record EntryInv (id : String) (s : Status) (current : Option String) (a : ExecutionAttempt)
    : Type 0 where
  pub open_is_current :
      is_open a.status ≡ true → (is_some_text current a.id ≡ true) × (phase s ≡ some a.status)
  pub closed_is_dated : is_present a.completed_at ≡ not (is_open a.status)
  pub of_request : a.request_id ≡ id
  pub scoped : step_ids_invalid a.allowed_step_ids ≡ false

-- The current attempt is there, has the status given and is bound to the plan.
abbrev pub CurrentIs : AttemptStatus → Option AttachedPlan → Option ExecutionAttempt → Type 0
CurrentIs s plan none = ⊥
CurrentIs s plan (some a) = (a.status ≡ s) × (plan_has_binding plan a.binding ≡ true)

abbrev pub InPhase : Option AttemptStatus → Option AttachedPlan → Option ExecutionAttempt → Type 0
InPhase none plan found = Unit
InPhase (some s) plan found = CurrentIs s plan found

pub record LedgerInv (r : Aggregate) : Type 0 where
  pub entries : All (EntryInv r.id r.status r.current_attempt_id) r.attempts
  pub numbered : CountsFrom 1 (attempt_numbers r.attempts)
  pub distinct : Distinct (attempt_ids r.attempts)
  pub in_phase : InPhase (phase r.status) r.plan (find_attempt r.current_attempt_id r.attempts)

pub create-LedgerInv :
    (input : CreatePrivacyRequest) (now : ℕ → String) → LedgerInv (create input now)
unfolding create
create-LedgerInv input now = record { entries = tt; numbered = tt; distinct = tt; in_phase = tt }

-- The attempts stay, and either what binds them stays or no attempt is open before and after.
pub record Kept (r s : Aggregate) : Type 0 where
  pub input_kept : s.input ≡ r.input
  pub attempts_kept : s.attempts ≡ r.attempts
  pub current_kept : s.current_attempt_id ≡ r.current_attempt_id
  pub quiet :
      ((s.status ≡ r.status) × (s.plan ≡ r.plan))
      ⊎ ((phase r.status ≡ none) × (phase s.status ≡ none))

abbrev pub settle : AttemptStatus → Option String → ExecutionAttempt → ExecutionAttempt
settle status completed_at a = record a { status = status; completed_at = completed_at }

-- The current attempt takes a new status.
pub record Updated (status : AttemptStatus) (at : Option String) (a : ExecutionAttempt)
    (r s : Aggregate) : Type 0 where
  pub found : find_attempt r.current_attempt_id r.attempts ≡ some a
  pub was_open : is_present (phase r.status) ≡ true
  pub input_kept : s.input ≡ r.input
  pub plan_kept : s.plan ≡ r.plan
  pub attempts_updated : s.attempts ≡ replace_attempt (settle status at a) r.attempts
  pub current_kept : s.current_attempt_id ≡ r.current_attempt_id
  pub new_phase :
      (phase s.status ≡ some status) ⊎ ((phase s.status ≡ none) × (is_open status ≡ false))
  pub dated : is_present at ≡ not (is_open status)

-- A new attempt becomes the current one.
pub record Appended (a : ExecutionAttempt) (r s : Aggregate) : Type 0 where
  pub was_closed : phase r.status ≡ none
  pub input_kept : s.input ≡ r.input
  pub attempts_appended : s.attempts ≡ r.attempts ++ a ∷ []
  pub current_new : s.current_attempt_id ≡ some a.id
  pub authorized_now : s.status ≡ execution_authorized
  pub bound : plan_has_binding s.plan a.binding ≡ true
  pub id_new : attempt_id_taken a.id r.attempts ≡ false
  pub number_next : a.attempt_number ≡ length r.attempts + 1
  pub starts_authorized : a.status ≡ authorized
  pub starts_undated : a.completed_at ≡ none
  pub of_request : a.request_id ≡ r.id
  pub scoped : step_ids_invalid a.allowed_step_ids ≡ false
