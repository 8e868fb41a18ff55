-- ===== src/Gateway/Waiting.antt =====
-- No lease outlasts its minute, so that a job whose agent is gone is given to another.
use forget_ops.Gateway.Calls.{GatewayCall, beats, gateway_call, gateway_run, leases}
use forget_ops.Gateway.Data.{AgentJob, GatewayDb, JobLookup, JobMutation}
use forget_ops.Gateway.Jobs.{
  can_lease, can_work, first_waiting, is_live, is_waiting, job_lease_ms, lease, leased, poll,
  visible_job,
}
use forget_ops.Gateway.Leases.{JobEffect, added, call-JobEffect, kept, longer, taken}
use forget_ops.Prelude.{
  All, Bool, Bool-cases, List, Option, Option-cases, String, [], arith, false, inl, inr, is_present,
  lookup, nat_strict, none, some, string_strict, subst, true, ℕ, ◌+◌, ◌==◌, ◌∷◌, ◌≡◌, ◌≤◌,
}
use forget_ops.PrivacyRequest.Status.{status_strict}

-- The leases and heartbeats among the calls come no later.
abbrev pub CalledBy : ℕ → GatewayCall → Type 0
CalledBy end (leases input) = input.now ≤ end
CalledBy end (beats input) = input.now ≤ end
CalledBy end c = Unit

-- The lease of the job, if it has one, ends by then.
abbrev pub EndsBy : ℕ → Option AgentJob → Type 0
EndsBy end none = Unit
EndsBy end (some job) = (ends : ℕ) → job.lease_expires_at ≡ some ends → ends ≤ end

effect-EndsBy :
    (end : ℕ) (id : String) (db after : GatewayDb) (c : GatewayCall)
    → CalledBy end c
    → JobEffect db id after c
    → EndsBy (end + job_lease_ms) (lookup id db.jobs)
    → EndsBy (end + job_lease_ms) (lookup id after.jobs)
effect-EndsBy end id db after c by (kept _ same) h = rw same h
effect-EndsBy end id db after c by (taken input job _ found over set) h =
    rw set (λ ends e. ground arith)
effect-EndsBy end id db after c by (longer input job _ found own set) h =
    rw set (λ ends e. ground arith)
effect-EndsBy end id db after c by (added input now absent set) h = rw set (λ ends e. ground arith)

-- Through every history whose leases and heartbeats come no later than a time, the lease of a job
-- ends at most a minute after that time, if it did so before.
pub run-EndsBy :
    (cs : List GatewayCall) (end : ℕ) (id : String) (db : GatewayDb)
    → All (CalledBy end) cs
    → EndsBy (end + job_lease_ms) (lookup id db.jobs)
    → EndsBy (end + job_lease_ms) (lookup id (gateway_run cs db).jobs)
run-EndsBy [] end id db by h = h
run-EndsBy (c ∷ cs) end id db by h =
    run-EndsBy cs end id (gateway_call c db) by.1
      (effect-EndsBy end id db (gateway_call c db) c by.0 (call-JobEffect c id db) h)

over_by :
    (job : AgentJob) (end now : ℕ)
    → EndsBy end (some job)
    → end ≤ now
    → is_live job.lease_expires_at now ≡ false
over_by job end now h le = elim (Option-cases job.lease_expires_at) [
  | inl never ↦ ground arith
  | inr (ends, until) ↦ ground (arith, h ends until)
]

offers_some :
    (collate : String → String → Bool) (input : JobLookup) (id : String) (job : AgentJob)
    (jobs : List (String × AgentJob))
    → lookup id jobs ≡ some job
    → is_waiting input job ≡ true
    → is_present (first_waiting collate input jobs) ≡ true
unfolding first_waiting lookup
offers_some collate input id job [] there waits = absurd (ground arith)
offers_some collate input id job ((key, row) ∷ rest) there waits = elim (Bool-cases (key == id)) [
  | inl same ↦ ground (arith, Option-cases (first_waiting collate input rest))
  | inr differ ↦ ground (arith, offers_some collate input id job rest (ground arith) waits)
]

abbrev pub lookup_for : JobMutation → JobLookup
lookup_for input = record {
  tenant_id = input.tenant_id;
  agent_id = input.agent_id;
  environment_id = input.environment_id;
  now = input.now;
}

-- A minute after the last lease and heartbeat of a history, an agent that may work for the job's
-- environment is offered some job, and is given the lease of the job for the next minute, as one more
-- attempt, whoever held it before, if the job is there for the tenant, not completed, available and
-- not expired.
pub lease_recovered :
    (collate : String → String → Bool) (cs : List GatewayCall) (end : ℕ) (input : JobMutation)
    (db : GatewayDb) (job : AgentJob)
    → All (CalledBy end) cs
    → EndsBy (end + job_lease_ms) (lookup input.job_id db.jobs)
    → end + job_lease_ms ≤ input.now
    → can_work input.tenant_id input.agent_id input.environment_id (gateway_run cs db) ≡ true
    → visible_job input (gateway_run cs db) ≡ some job
    → can_lease job input.now ≡ true
    → (is_present (poll collate (lookup_for input) (gateway_run cs db)) ≡ true)
      × ((lease input (gateway_run cs db)).1 ≡ some (leased input job))
unfolding lease visible_job poll
lease_recovered collate cs end input db job h by late works visible ready =
    let after = gateway_run cs db in
    let found : lookup input.job_id after.jobs ≡ some job = ground arith in
    let last = subst (EndsBy (end + job_lease_ms)) found (run-EndsBy cs end input.job_id db h by) in
    let over = over_by job (end + job_lease_ms) input.now last late in
    (
      ground (
        arith,
        offers_some collate (lookup_for input) input.job_id job after.jobs found (ground arith),
      ),
      ground (arith, found, over),
    )
