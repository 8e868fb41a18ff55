-- ===== src/Gateway/Exclusion.antt =====
-- A live lease excludes every other agent.
use forget_ops.Gateway.Calls.{GatewayCall, gateway_call, gateway_run}
use forget_ops.Gateway.Data.{AgentJob, GatewayDb, JobMutation}
use forget_ops.Gateway.Jobs.{extended, heartbeat, is_leased_by, job_lease_ms, lease, leased}
use forget_ops.Gateway.Leases.{
  CalledWithin, HeldBy, JobEffect, added, call-JobEffect, kept, longer, taken,
}
use forget_ops.Prelude.{
  All, List, Option-cases, String, [], arith, eq_iff, eq_refl, inl, inr, lookup, lookup-insert,
  none, refl, some, subst, sym, true, ℕ, ◌+◌, ◌<◌, ◌∙◌, ◌∷◌, ◌≡◌, ◌≢◌, ◌≤◌,
}

effect-HeldBy :
    (agent_id id : String) (start ends : ℕ) (db after : GatewayDb) (c : GatewayCall)
    → ends ≤ start + job_lease_ms
    → CalledWithin start ends c
    → JobEffect db id after c
    → HeldBy agent_id id ends db
    → HeldBy agent_id id ends after
effect-HeldBy agent_id id start ends db after c short within (kept _ same) h = record {
  job = h.job;
  there = same ∙ h.there;
  holder = h.holder;
  until = h.until;
  lease_ends = h.lease_ends;
  long_enough = h.long_enough;
}
effect-HeldBy agent_id id start ends db after c short within (taken input job _ found over set) h =
    absurd (ground (arith, h.there, found, h.lease_ends, h.long_enough))
effect-HeldBy agent_id id start ends db after c short within (longer input job _ found own set) h =
    record {
      job = extended input job;
      there = set;
      holder = ground (arith, h.there, found, h.holder);
      until = input.now + job_lease_ms;
      lease_ends = refl;
      long_enough = omega arith;
    }
effect-HeldBy agent_id id start ends db after c short within (added input now absent set) h =
    absurd (ground (arith, h.there, absent))

run-HeldBy :
    (agent_id id : String) (start ends : ℕ) (cs : List GatewayCall) (db : GatewayDb)
    → ends ≤ start + job_lease_ms
    → All (CalledWithin start ends) cs
    → HeldBy agent_id id ends db
    → HeldBy agent_id id ends (gateway_run cs db)
run-HeldBy agent_id id start ends [] db short within h = h
run-HeldBy agent_id id start ends (c ∷ cs) db short within h =
    run-HeldBy agent_id id start ends cs (gateway_call c db) short within.1 (
      effect-HeldBy agent_id id start ends db (gateway_call c db) c short within.0
        (call-JobEffect c id db) h)

leased_by :
    (agent_id : String) (job : AgentJob)
    → is_leased_by agent_id job ≡ true
    → job.leased_by_agent_id ≡ some agent_id
leased_by agent_id job h = elim (Option-cases job.leased_by_agent_id) [
  | inl nobody ↦ absurd (ground arith)
  | inr (holder, holds) ↦ ground (arith, eq_iff holder agent_id)
]

-- What a lease gives is the job's row, leased by the agent.
lease_gives :
    (input : JobMutation) (db after : GatewayDb) (job : AgentJob)
    → lease input db ≡ (after, some job)
    → (lookup input.job_id after.jobs ≡ some job) × (is_leased_by input.agent_id job ≡ true)
unfolding lease
lease_gives input db after job h = elim (Option-cases (lookup input.job_id db.jobs)) [
  | inl absent ↦ absurd (ground arith)
  | inr (row, there) ↦
      let own = lookup-insert input.job_id input.job_id (leased input row) db.jobs in
      let same = eq_refl input.job_id in
      let me = eq_refl input.agent_id in (ground arith, ground arith)
]

lease-HeldBy :
    (input : JobMutation) (db after : GatewayDb) (job : AgentJob) (ends : ℕ)
    → lease input db ≡ (after, some job)
    → job.lease_expires_at ≡ some ends
    → HeldBy input.agent_id input.job_id ends after
lease-HeldBy input db after job ends h e =
    let given = lease_gives input db after job h in
    record {
      job = job;
      there = given.0;
      holder = leased_by input.agent_id job given.1;
      until = ends;
      lease_ends = e;
      long_enough = omega arith;
    }

held_refuses :
    (agent_id : String) (other : JobMutation) (ends : ℕ) (db : GatewayDb)
    → HeldBy agent_id other.job_id ends db
    → other.agent_id ≢ agent_id
    → other.now < ends
    → ((lease other db).1 ≡ none) × ((heartbeat other db).1 ≡ none)
unfolding lease heartbeat
held_refuses agent_id other ends db h differ before =
    let names = eq_iff agent_id other.agent_id in
    (
      ground (arith, h.there, h.holder, h.lease_ends, h.long_enough),
      ground (arith, h.there, h.holder),
    )

-- After an agent was given the lease of a job up to a time that is at most a minute after the call,
-- no other agent is given the job's lease, or its extension, before that time, whatever calls come in
-- between, as long as the leases and heartbeats among them come no sooner than the call and before
-- that time.
pub lease_excludes :
    (input other : JobMutation) (db after : GatewayDb) (job : AgentJob) (ends : ℕ)
    (cs : List GatewayCall)
    → lease input db ≡ (after, some job)
    → job.lease_expires_at ≡ some ends
    → ends ≤ input.now + job_lease_ms
    → All (CalledWithin input.now ends) cs
    → other.job_id ≡ input.job_id
    → other.agent_id ≢ input.agent_id
    → other.now < ends
    → ((lease other (gateway_run cs after)).1 ≡ none)
      × ((heartbeat other (gateway_run cs after)).1 ≡ none)
lease_excludes input other db after job ends cs h e short within same differ before =
    let holds =
      run-HeldBy input.agent_id input.job_id input.now ends cs after short within
        (lease-HeldBy input db after job ends h e) in
    held_refuses input.agent_id other ends (gateway_run cs after)
      (subst (λ id. HeldBy input.agent_id id ends (gateway_run cs after)) (sym same) holds) differ
      before
