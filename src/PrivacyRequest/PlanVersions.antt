-- ===== src/PrivacyRequest/PlanVersions.antt =====
-- The versions of the plans that a request is given.
use forget_ops.Prelude.{List, [], arith, ◌∷◌, ◌≡◌, ◌≢◌, ◌≤◌}
use forget_ops.PrivacyRequest.Commands.{Command, attaches_plan, call, run}
use forget_ops.PrivacyRequest.Data.{AttachedPlan}
use forget_ops.PrivacyRequest.Effect.{Aggregate, ok}
use forget_ops.PrivacyRequest.Planning.{attach_plan}
use forget_ops.PrivacyRequest.Status.{can_transition}

call-latest-le :
    (c : Command) (r : Aggregate) → r.latest_plan_version ≤ (call c r).1.latest_plan_version
unfolding call can_transition
call-latest-le (attaches_plan p) r = ground arith
call-latest-le _ r = ground arith

-- The latest plan version never falls.
run-latest-le :
    (cs : List Command) (r : Aggregate) → r.latest_plan_version ≤ (run cs r).latest_plan_version
unfolding run
run-latest-le [] r = omega arith
run-latest-le (c ∷ cs) r = omega (arith, call-latest-le c r, run-latest-le cs (call c r).1)

attach_sets_latest :
    (p : AttachedPlan) (r : Aggregate)
    → (attach_plan p r).0 ≡ ok tt
    → (attach_plan p r).1.latest_plan_version ≡ p.plan_version
unfolding attach_plan
attach_sets_latest p r h = ground arith

attach_stale :
    (p : AttachedPlan) (r : Aggregate)
    → p.plan_version ≤ r.latest_plan_version
    → (attach_plan p r).0 ≢ ok tt
unfolding attach_plan
attach_stale p r h = ground arith

-- Once a plan is attached, no history of calls lets a plan of the same or a lower version be
-- attached to the request.
pub attached_version_spent :
    (p q : AttachedPlan) (cs : List Command) (r : Aggregate)
    → (attach_plan p r).0 ≡ ok tt
    → q.plan_version ≤ p.plan_version
    → (attach_plan q (run cs (attach_plan p r).1)).0 ≢ ok tt
attached_version_spent p q cs r h le =
    let s = (attach_plan p r).1 in
    attach_stale q (run cs s) (omega (arith, attach_sets_latest p r h, run-latest-le cs s))
