-- ===== src/PrivacyRequest/Histories.antt =====
-- What holds of a request after any history of calls.
use forget_ops.Prelude.{
  Bool, List, Option, Option-cases, String, [], arith, false, if◌then◌else◌, inl, inr, is_present,
  none, some, true, ℕ, ◌+◌, ◌∷◌, ◌≡◌,
}
use forget_ops.PrivacyRequest.Approval.{
  ApprovalInv, call-ApprovalInv, create-ApprovalInv, is_under_way,
}
use forget_ops.PrivacyRequest.Attempts.{All-find_attempt}
use forget_ops.PrivacyRequest.Commands.{Command, call, run}
use forget_ops.PrivacyRequest.Data.{
  AttachedPlan, CreatePrivacyRequest, ExecutionAttempt, PlanApproval,
}
use forget_ops.PrivacyRequest.Effect.{Aggregate, Result, Result-cases, err, ok}
use forget_ops.PrivacyRequest.Journal.{call_failure_unchanged, call_success_journal}
use forget_ops.PrivacyRequest.Ledger.{EntryInv, LedgerInv, create-LedgerInv, is_open, phase}
use forget_ops.PrivacyRequest.LedgerInvariant.{call-LedgerInv, under_way_found}
use forget_ops.PrivacyRequest.Planning.{create}
use forget_ops.PrivacyRequest.Status.{Status}
use forget_ops.PrivacyRequest.StepScopes.{IsScope, IsScope-of_valid}
use forget_ops.PrivacyRequest.Steps.{find_attempt, same_binding}

-- The calls of a history that do not throw.
abbrev is_ok : Result (Unit {0}) → Bool
is_ok (ok a) = true
is_ok (err e) = false

pub successes : List Command → Aggregate → ℕ
successes [] r = 0
successes (c ∷ cs) r =
    let rest = successes cs (call c r).1 in if is_ok (call c r).0 then rest + 1 else rest

call-version :
    (c : Command) (r : Aggregate)
    → (call c r).1.version ≡ (if is_ok (call c r).0 then r.version + 1 else r.version)
call-version c r = elim (Result-cases (call c r).0) [
  | inl done ↦ rw done ((call_success_journal c r done).0)
  | inr (e, thrown) ↦ rw thrown (ground (arith, call_failure_unchanged c r thrown))
]

-- The version counts the calls that succeeded: it grows by one with each, and never otherwise.
run-version : (cs : List Command) (r : Aggregate) → (run cs r).version ≡ r.version + successes cs r
unfolding run successes
run-version [] r = omega arith
run-version (c ∷ cs) r = ground (arith, call-version c r, run-version cs (call c r).1)

run-ApprovalInv : (cs : List Command) (r : Aggregate) → ApprovalInv r → ApprovalInv (run cs r)
unfolding run
run-ApprovalInv [] r h = h
run-ApprovalInv (c ∷ cs) r h = run-ApprovalInv cs (call c r).1 (call-ApprovalInv c r h)

pub run-LedgerInv : (cs : List Command) (r : Aggregate) → LedgerInv r → LedgerInv (run cs r)
unfolding run
run-LedgerInv [] r h = h
run-LedgerInv (c ∷ cs) r h = run-LedgerInv cs (call c r).1 (call-LedgerInv c r h)

-- A request after a history of calls, from its creation.
abbrev pub history : CreatePrivacyRequest → (ℕ → String) → List Command → Aggregate
history input now cs = run cs (create input now)

pub history-LedgerInv :
    (input : CreatePrivacyRequest) (now : ℕ → String) (cs : List Command)
    → LedgerInv (history input now cs)
history-LedgerInv input now cs = run-LedgerInv cs (create input now) (create-LedgerInv input now)

history-ApprovalInv :
    (input : CreatePrivacyRequest) (now : ℕ → String) (cs : List Command)
    → ApprovalInv (history input now cs)
history-ApprovalInv input now cs =
    run-ApprovalInv cs (create input now) (create-ApprovalInv input now)

-- Both are bound to one plan.
abbrev pub Approves : AttachedPlan → Option PlanApproval → Type 0
Approves p none = ⊥
Approves p (some a) = same_binding p.binding a.binding ≡ true

-- The plan that a request under way carries out, and the attempt that carries it out.
pub record Authorized (r : Aggregate) : Type 0 where
  pub plan : AttachedPlan
  pub plan_attached : r.plan ≡ some plan
  pub plan_latest : plan.plan_version ≡ r.latest_plan_version
  pub plan_approved : plan.requires_approval ≡ true → Approves plan r.approval
  pub attempt : ExecutionAttempt
  pub attempt_current : find_attempt r.current_attempt_id r.attempts ≡ some attempt
  pub attempt_bound : same_binding plan.binding attempt.binding ≡ true
  pub attempt_open : is_open attempt.status ≡ true
  pub attempt_scoped : IsScope attempt.allowed_step_ids

under_way-Authorized :
    (r : Aggregate) (p : AttachedPlan) (a : ExecutionAttempt)
    → ApprovalInv r
    → LedgerInv r
    → EntryInv r.id r.status r.current_attempt_id a
    → is_under_way r.status ≡ true
    → r.plan ≡ some p
    → find_attempt r.current_attempt_id r.attempts ≡ some a
    → Authorized r
under_way-Authorized r p a h l e u plan_there found = record {
  plan = p;
  plan_attached = plan_there;
  plan_latest = ground arith;
  plan_approved = λ q. ground (arith);
  attempt = a;
  attempt_current = found;
  attempt_bound = ground (arith, l.in_phase);
  attempt_open = ground (arith, l.in_phase);
  attempt_scoped = IsScope-of_valid a.allowed_step_ids e.scoped;
}

under_way-phase : (s : Status) → is_under_way s ≡ true → is_present (phase s) ≡ true
under_way-phase s h = ground arith

-- After every history, a request that is authorized or executing has a plan, the latest that was
-- attached, and a current attempt that is open, is bound to that plan and has a valid step scope;
-- if the plan requires approval, there is an approval bound to it too.
pub history-Authorized :
    (input : CreatePrivacyRequest) (now : ℕ → String) (cs : List Command)
    → is_under_way (history input now cs).status ≡ true
    → Authorized (history input now cs)
history-Authorized input now cs u =
    let r = history input now cs in
    let h = history-ApprovalInv input now cs in
    let l = history-LedgerInv input now cs in
    elim (Option-cases r.plan) [
      | inl missing ↦ absurd (cc (h.plan_present u, missing))
      | inr (p, plan_there) ↦ elim (Option-cases (find_attempt r.current_attempt_id r.attempts)) [
        | inl missing ↦ absurd (cc (under_way_found r l (under_way-phase r.status u), missing))
        | inr (a, found) ↦
            under_way-Authorized r p a h l
              (All-find_attempt (EntryInv r.id r.status r.current_attempt_id) r.current_attempt_id
                r.attempts a found l.entries)
              u plan_there found
      ]
    ]
