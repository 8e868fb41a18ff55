-- ===== src/PrivacyRequest/Unverified.antt =====
-- A request whose identity verification failed.
use mathlib.Core.List.{append_assoc}
use forget_ops.Prelude.{String, [], ap, arith, ◌++◌, ◌∙◌, ◌∷◌, ◌≡◌}
use forget_ops.PrivacyRequest.Commands.{call, fails, requests_replan, run}
use forget_ops.PrivacyRequest.Effect.{Aggregate, ok}
use forget_ops.PrivacyRequest.Journal.{call_success_journal, event_types}
use forget_ops.PrivacyRequest.Status.{
  can_transition, failed, identity_verification_pending, planning,
}
use forget_ops.PrivacyRequest.Validation.{normalize_audit_reason}

fail_pending :
    (category : String) (r : Aggregate)
    → r.status ≡ identity_verification_pending
    → ((call (fails category) r).0 ≡ ok tt) × ((call (fails category) r).1.status ≡ failed)
unfolding call can_transition
fail_pending category r h = ground arith

replan_failed :
    (actor reason : String) (r : Aggregate)
    → r.status ≡ failed
    → normalize_audit_reason reason ≡ ok reason
    → ((call (requests_replan actor reason) r).0 ≡ ok tt)
      × ((call (requests_replan actor reason) r).1.status ≡ planning)
unfolding call can_transition
replan_failed actor reason r h k = ground arith

-- From a request that waits for its identity to be verified, a failure and a demand to plan
-- again, with a well-formed reason, lead to planning, and the two events that they record are no
-- verification.
pub unverified_may_plan :
    (r : Aggregate) (category actor reason : String)
    → r.status ≡ identity_verification_pending
    → normalize_audit_reason reason ≡ ok reason
    → let s = run (fails category ∷ requests_replan actor reason ∷ []) r in
      (s.status ≡ planning)
      × (event_types s.events
          ≡ event_types r.events ++ "PrivacyRequestFailed" ∷ "ReplanRequested" ∷ [])
unfolding run
unverified_may_plan r category actor reason h well_formed =
    let failing = fail_pending category r h in
    let s = (call (fails category) r).1 in
    let replan = replan_failed actor reason s failing.1 well_formed in
    (
      replan.1,
      (call_success_journal (requests_replan actor reason) s replan.0).1
          ∙ (ap (λ ts. ts ++ "ReplanRequested" ∷ [])
                (call_success_journal (fails category) r failing.0).1
              ∙ append_assoc (event_types r.events) ("PrivacyRequestFailed" ∷ [])
                  ("ReplanRequested" ∷ [])),
    )
