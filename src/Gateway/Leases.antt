-- ===== src/Gateway/Leases.antt =====
-- A live lease excludes every other agent.
use forget_ops.Gateway.Calls.{
  GatewayCall, beats, claims, closes, enqueued, enqueues, gateway_call, leases, numbers, opens,
}
use forget_ops.Gateway.Data.{AgentJob, EnqueueAgentJobInput, GatewayDb, JobMutation}
use forget_ops.Gateway.Jobs.{
  can_extend, can_lease, can_work, enqueue, extended, heartbeat, is_live, lease, leased, new_job,
  visible_job,
}
use forget_ops.Gateway.Messages.{claim_agent_message, next_control_sequence, store_receipt}
use forget_ops.Gateway.Transports.{claim_transport, release_transport}
use forget_ops.Prelude.{
  Bool, Bool-cases, List, Option-cases, Outcome-cases, String, ap, arith, eq_iff, false, inl, inr,
  insert, is_present, lookup, lookup-insert, nat_strict, none, not, refl, some, string_strict,
  subst, true, ℕ, ◌&&◌, ◌<◌, ◌==◌, ◌≡◌, ◌≤◌, ◌⊎◌,
}
use forget_ops.PrivacyRequest.Status.{status_strict}

-- The job is leased by the agent, at least until then.
pub record HeldBy (agent_id id : String) (ends : ℕ) (db : GatewayDb) : Type 0 where
  pub job : AgentJob
  pub there : lookup id db.jobs ≡ some job
  pub holder : job.leased_by_agent_id ≡ some agent_id
  pub until : ℕ
  pub lease_ends : job.lease_expires_at ≡ some until
  pub long_enough : ends ≤ until

-- The leases and heartbeats among the calls fall into that time.
abbrev pub CalledWithin : ℕ → ℕ → GatewayCall → Type 0
CalledWithin start ends (leases input) = (start ≤ input.now) × (input.now < ends)
CalledWithin start ends (beats input) = (start ≤ input.now) × (input.now < ends)
CalledWithin start ends c = Unit

-- The test under which `lease` writes.
abbrev takes : JobMutation → AgentJob → GatewayDb → Bool
takes input job db =
    can_work input.tenant_id input.agent_id input.environment_id db
    && is_present (visible_job input db)
    && can_lease job input.now
    && not (is_live job.lease_expires_at input.now)

-- The test under which `heartbeat` writes.
abbrev extends : JobMutation → AgentJob → GatewayDb → Bool
extends input job db =
    is_present (visible_job input db)
    && can_extend input job
    && can_work input.tenant_id input.agent_id job.environment_id db

-- What a lease does to the jobs: nothing, or it writes one whose lease is not live.
lease-cases :
    (input : JobMutation) (db : GatewayDb)
    → ((lease input db).0.jobs ≡ db.jobs)
      ⊎ ((job : AgentJob) × (lookup input.job_id db.jobs ≡ some job)
          × (is_live job.lease_expires_at input.now ≡ false)
          × ((lease input db).0.jobs ≡ insert input.job_id (leased input job) db.jobs))
unfolding lease
lease-cases input db = elim (Option-cases (lookup input.job_id db.jobs)) [
  | inl absent ↦ inl (ground arith)
  | inr (job, there) ↦ elim (Bool-cases (takes input job db)) [
    | inr kept ↦ inl (ground arith)
    | inl taken ↦ inr (job, there, ground arith, ground arith)
  ]
]

-- What a heartbeat does to the jobs: nothing, or it extends the lease of the agent.
heartbeat-cases :
    (input : JobMutation) (db : GatewayDb)
    → ((heartbeat input db).0.jobs ≡ db.jobs)
      ⊎ ((job : AgentJob) × (lookup input.job_id db.jobs ≡ some job)
          × (can_extend input job ≡ true)
          × ((heartbeat input db).0.jobs ≡ insert input.job_id (extended input job) db.jobs))
unfolding heartbeat
heartbeat-cases input db = elim (Option-cases (lookup input.job_id db.jobs)) [
  | inl absent ↦ inl (ground arith)
  | inr (job, there) ↦ elim (Bool-cases (extends input job db)) [
    | inr kept ↦ inl (ground arith)
    | inl longer ↦ inr (job, there, ground arith, ground arith)
  ]
]

enqueue-cases :
    (input : EnqueueAgentJobInput) (now : ℕ) (db : GatewayDb)
    → ((enqueued db (enqueue input now db)).jobs ≡ db.jobs)
      ⊎ ((lookup input.id db.jobs ≡ none)
          × ((enqueued db (enqueue input now db)).jobs
              ≡ insert input.id (new_job input now) db.jobs))
unfolding enqueue
enqueue-cases input now db = elim (Option-cases (lookup input.id db.jobs)) [
  | inl absent ↦ elim (Outcome-cases (enqueue input now db)) [
    | inr (e, refused_call) ↦ inl (ap (λ o. (enqueued db o).jobs) refused_call)
    | inl ((after, job), done) ↦ inr (absent, ground arith)
  ]
  | inr (job, there) ↦ inl (ground arith)
]

-- What a call does to the row of a job: nothing, or it takes the lease, extends it, or adds the job.
pub data JobEffect (db : GatewayDb) (id : String) (after : GatewayDb) : GatewayCall → Type 0 where
  kept : (c : GatewayCall) → lookup id after.jobs ≡ lookup id db.jobs → JobEffect db id after c
  taken :
      (input : JobMutation) (job : AgentJob)
      → input.job_id ≡ id
      → lookup id db.jobs ≡ some job
      → is_live job.lease_expires_at input.now ≡ false
      → lookup id after.jobs ≡ some (leased input job)
      → JobEffect db id after (leases input)
  longer :
      (input : JobMutation) (job : AgentJob)
      → input.job_id ≡ id
      → lookup id db.jobs ≡ some job
      → can_extend input job ≡ true
      → lookup id after.jobs ≡ some (extended input job)
      → JobEffect db id after (beats input)
  added :
      (input : EnqueueAgentJobInput) (now : ℕ)
      → lookup id db.jobs ≡ none
      → lookup id after.jobs ≡ some (new_job input now)
      → JobEffect db id after (enqueues input now)

-- A row that was written, as it is seen under any id.
written :
    (id other : String) (job : AgentJob) (jobs after : List (String × AgentJob))
    → after ≡ insert other job jobs
    → ((other ≡ id) × (lookup id after ≡ some job)) ⊎ (lookup id after ≡ lookup id jobs)
written id other job jobs after set = elim (Bool-cases (other == id)) [
  | inl same ↦ inl ((eq_iff other id).0 same, rw (set, lookup-insert other id job jobs, same) refl)
  | inr differ ↦ inr (rw (set, lookup-insert other id job jobs, differ) refl)
]

pub call-JobEffect :
    (c : GatewayCall) (id : String) (db : GatewayDb) → JobEffect db id (gateway_call c db) c
unfolding claim_agent_message store_receipt claim_transport release_transport next_control_sequence
call-JobEffect (claims input) id db = kept (claims input) (ground arith)
call-JobEffect (opens input) id db = kept (opens input) (ground arith)
call-JobEffect (closes input) id db = kept (closes input) (ground arith)
call-JobEffect (numbers tenant agent_id) id db = kept (numbers tenant agent_id) (ground arith)
call-JobEffect (enqueues input now) id db = elim (enqueue-cases input now db) [
  | inl same ↦ kept (enqueues input now) (ap (lookup id) same)
  | inr (absent, set) ↦ elim (written id input.id (new_job input now) db.jobs _ set) [
    | inr other ↦ kept (enqueues input now) other
    | inl (same, there) ↦ added input now (subst (λ i. lookup i db.jobs ≡ none) same absent) there
  ]
]
call-JobEffect (leases input) id db = elim (lease-cases input db) [
  | inl same ↦ kept (leases input) (ap (lookup id) same)
  | inr (job, found, over, set) ↦ elim (written id input.job_id (leased input job) db.jobs _ set) [
    | inr other ↦ kept (leases input) other
    | inl (same, there) ↦
        taken input job same (subst (λ i. lookup i db.jobs ≡ some job) same found) over there
  ]
]
call-JobEffect (beats input) id db = elim (heartbeat-cases input db) [
  | inl same ↦ kept (beats input) (ap (lookup id) same)
  | inr (job, found, own, set) ↦ elim (written id input.job_id (extended input job) db.jobs _ set) [
    | inr other ↦ kept (beats input) other
    | inl (same, there) ↦
        longer input job same (subst (λ i. lookup i db.jobs ≡ some job) same found) own there
  ]
]
