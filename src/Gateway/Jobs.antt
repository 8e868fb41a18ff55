-- ===== src/Gateway/Jobs.antt =====
-- `enqueue`, `poll`, `lease` and `heartbeat`.
use forget_ops.Gateway.Data.{
  AgentJob, EnqueueAgentJobInput, GatewayDb, JobLookup, JobMutation, RequestScope,
  is_available_status, visible_agent,
}
use forget_ops.Prelude.{
  Bool, List, Option, Outcome, String, [], false, if◌then◌else◌, insert, is_present, is_some_text,
  leb, lookup, ltb, nat_beq, nat_strict, none, not, ok, reject_if, some, string_strict, ℕ, ◌&&◌,
  ◌+◌, ◌==◌, ◌>>◌, ◌||◌, ◌∷◌,
}
use forget_ops.PrivacyRequest.Status.{status_strict}

abbrev pub job_lease_ms : ℕ
job_lease_ms = 60000

-- `scope_missing` is the error of the code, the others are those of the table's constraints.
pub data JobError : Type 0 where
  scope_missing duplicate_job plan_version_invalid : JobError

abbrev pub is_zero : Option ℕ → Bool
is_zero none = false
is_zero (some n) = nat_beq n 0

abbrev pub in_scope : EnqueueAgentJobInput → Option RequestScope → Bool
in_scope input none = false
in_scope input (some r) = r.tenant_id == input.tenant_id && r.environment_id == input.environment_id

abbrev pub new_job : EnqueueAgentJobInput → ℕ → AgentJob
new_job input created_at = record {
  id = input.id;
  tenant_id = input.tenant_id;
  request_id = input.request_id;
  environment_id = input.environment_id;
  kind = input.kind;
  plan_version = input.plan_version;
  payload_ciphertext = input.payload_ciphertext;
  authorization = input.authorization;
  available_at = input.available_at;
  expires_at = input.expires_at;
  leased_by_agent_id = none;
  lease_expires_at = none;
  attempt = 0;
  completed_at = none;
  created_at = created_at;
}

unfoldable pub enqueue :
    EnqueueAgentJobInput → ℕ → GatewayDb → Outcome JobError (GatewayDb × AgentJob)
enqueue input created_at db = do
  reject_if (not (in_scope input (lookup input.request_id db.requests))) scope_missing
  reject_if (is_zero input.plan_version) plan_version_invalid
  reject_if (is_present (lookup input.id db.jobs)) duplicate_job
  let job = new_job input created_at
  ok (record db { jobs = insert input.id job db.jobs }, job)

-- The agent of the environment is there for the tenant, and online or outdated.
unfoldable pub can_work : String → String → String → GatewayDb → Bool
can_work tenant agent environment db = elim (visible_agent tenant agent db) [
  | none ↦ false
  | some a ↦ a.environment_id == environment && is_available_status a.status
]

-- `lease_expires_at > now`, which is not true of null.
abbrev pub is_live : Option ℕ → ℕ → Bool
is_live none now = false
is_live (some ends) now = ltb now ends

-- `canLease`
abbrev pub can_lease : AgentJob → ℕ → Bool
can_lease job now =
    not (is_present job.completed_at) && leb job.available_at now && ltb now job.expires_at

-- The `where` of `poll`, but for the agent.
abbrev pub is_waiting : JobLookup → AgentJob → Bool
is_waiting input job =
    job.tenant_id == input.tenant_id
    && job.environment_id == input.environment_id
    && can_lease job input.now
    && not (is_live job.lease_expires_at input.now)

-- `order by available_at, id`: `collate` is the database's order of texts.
abbrev pub goes_before : (String → String → Bool) → AgentJob → AgentJob → Bool
goes_before collate x y =
    ltb x.available_at y.available_at || nat_beq x.available_at y.available_at && collate x.id y.id

-- The first of the waiting jobs in that order.
unfoldable pub first_waiting :
    (String → String → Bool) → JobLookup → List (String × AgentJob) → Option AgentJob
first_waiting collate input [] = none
first_waiting collate input ((id, job) ∷ rest) =
    let other = first_waiting collate input rest in
    if not (is_waiting input job) then other else elim other [
      | none ↦ some job
      | some o ↦ if goes_before collate job o then some job else some o
    ]

unfoldable pub poll : (String → String → Bool) → JobLookup → GatewayDb → Option AgentJob
poll collate input db =
    if can_work input.tenant_id input.agent_id input.environment_id db
    then first_waiting collate input db.jobs
    else none

-- The job's row, which the tenant sees as its own.
unfoldable pub visible_job : JobMutation → GatewayDb → Option AgentJob
visible_job input db = elim (lookup input.job_id db.jobs) [
  | none ↦ none
  | some job ↦
      if job.tenant_id == input.tenant_id && job.environment_id == input.environment_id
      then some job
      else none
]

abbrev pub is_leased_by : String → AgentJob → Bool
is_leased_by agent job = is_some_text job.leased_by_agent_id agent

abbrev pub leased : JobMutation → AgentJob → AgentJob
leased input job = record job {
  leased_by_agent_id = some input.agent_id;
  lease_expires_at = some (input.now + job_lease_ms);
  attempt = job.attempt + 1;
}

abbrev pub set_job : String → AgentJob → GatewayDb → GatewayDb
set_job id job db = record db { jobs = insert id job db.jobs }

unfoldable pub lease : JobMutation → GatewayDb → GatewayDb × Option AgentJob
unfolding can_work visible_job
lease input db =
    if not (can_work input.tenant_id input.agent_id input.environment_id db)
    then (db, none)
    else elim (visible_job input db) [
      | none ↦ (db, none)
      | some job ↦
          if not (can_lease job input.now)
          then (db, none)
          else if is_live job.lease_expires_at input.now
          then (db, if is_leased_by input.agent_id job then some job else none)
          else (set_job input.job_id (leased input job) db, some (leased input job))
    ]

abbrev pub extended : JobMutation → AgentJob → AgentJob
extended input job = record job { lease_expires_at = some (input.now + job_lease_ms) }

abbrev pub can_extend : JobMutation → AgentJob → Bool
can_extend input job =
    is_leased_by input.agent_id job
    && is_live job.lease_expires_at input.now
    && ltb input.now job.expires_at
    && not (is_present job.completed_at)

unfoldable pub heartbeat : JobMutation → GatewayDb → GatewayDb × Option AgentJob
unfolding can_work visible_job
heartbeat input db = elim (visible_job input db) [
  | none ↦ (db, none)
  | some job ↦
      if can_extend input job && can_work input.tenant_id input.agent_id job.environment_id db
      then (set_job input.job_id (extended input job) db, some (extended input job))
      else (db, none)
]
