-- ===== src/PrivacyRequest/Atomicity.antt =====
-- A call that throws leaves the aggregate as it was.
use forget_ops.Prelude.{arith, is_present, true, ◌≡◌}
use forget_ops.PrivacyRequest.Commands.{Command, attaches_plan, call}
use forget_ops.PrivacyRequest.Data.{Error}
use forget_ops.PrivacyRequest.Effect.{Aggregate, err}
use forget_ops.PrivacyRequest.Journal.{call_failure_unchanged}
use forget_ops.PrivacyRequest.Ledger.{LedgerInv, phase}
use forget_ops.PrivacyRequest.LedgerInvariant.{under_way_found}
use forget_ops.PrivacyRequest.Status.{can_transition}
use forget_ops.PrivacyRequest.Steps.{find_attempt}

-- A call that throws with the current attempt in place has not read the clock.
call_failure_readings :
    (c : Command) (r : Aggregate) {e : Error}
    → (is_present (phase r.status) ≡ true
        → is_present (find_attempt r.current_attempt_id r.attempts) ≡ true)
    → (call c r).0 ≡ err e
    → (call c r).1.readings ≡ r.readings
unfolding call can_transition
call_failure_readings (attaches_plan p) r h f = ground arith
call_failure_readings _ r h f = ground arith

-- In an aggregate whose attempts are well formed, a call that throws changes nothing at all, not
-- even the clock.
pub call_failure_atomic :
    (c : Command) (r : Aggregate) {e : Error}
    → LedgerInv r
    → (call c r).0 ≡ err e
    → (call c r).1 ≡ r
call_failure_atomic c r h f =
    ground (arith, call_failure_unchanged c r f, call_failure_readings c r (under_way_found r h) f)
