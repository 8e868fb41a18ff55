-- ===== src/PrivacyRequest/Lifecycle.antt =====
-- Which statuses a call may move a request between.
use forget_ops.Prelude.{Bool, arith, false, not, true, ◌≡◌, ◌⊎◌}
use forget_ops.PrivacyRequest.Commands.{Command, approves_plan, attaches_plan, call}
use forget_ops.PrivacyRequest.Effect.{Aggregate, ok}
use forget_ops.PrivacyRequest.Status.{can_transition}

-- The calls that decide on a plan and may leave the status as it was.
abbrev pub keeps_status : Command → Bool
keeps_status (attaches_plan p) = not p.requires_approval
keeps_status (approves_plan a) = true
keeps_status _ = false

-- A call that succeeds moves the status along an edge of the table, or is `attachPlan` of a plan
-- that needs no approval or `approvePlan`, which leave it as it was.
pub call-can_transition :
    (c : Command) (r : Aggregate)
    → (call c r).0 ≡ ok tt
    → (can_transition r.status (call c r).1.status ≡ true)
      ⊎ ((keeps_status c ≡ true) × ((call c r).1.status ≡ r.status))
unfolding call can_transition
call-can_transition (attaches_plan p) r h = ground arith
call-can_transition _ r h = ground arith
