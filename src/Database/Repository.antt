-- ===== src/Database/Repository.antt =====
-- `PrivacyRequestRepository.save` and what it calls. A transaction that throws leaves the tables as
-- they were, so an error comes with none. The unique index on the numbers of attempts and the
-- foreign keys are not modelled as refusals.
use forget_ops.Audit.Chain.{ActorType, agent_actor, system_actor, user_actor}
use forget_ops.Database.AuditLog.{
  AuditEntry, AuditFailure, append_entry, head_missing, open_head, visible_head,
}
use forget_ops.Database.Tables.{AttemptRow, ChainCrypto, RequestRow, Tables}
use forget_ops.Prelude.{
  Bool, List, Option, Outcome, String, [], drop, err, false, if◌then◌else◌, insert, is_present,
  length, lookup, nat_beq, nat_strict, none, not, ok, reject_if, require, some, string_strict, true,
  ℕ, ◌&&◌, ◌+◌, ◌==◌, ◌>>=◌, ◌>>◌, ◌||◌, ◌∷◌,
}
use forget_ops.PrivacyRequest.Data.{DomainEvent, EventValue, ExecutionAttempt, text}
use forget_ops.PrivacyRequest.Effect.{Aggregate}
use forget_ops.PrivacyRequest.Status.{Status, cancelled, completed, status_strict}

pub data SaveError : Type 0 where
  concurrency_conflict tenant_scope_violation attempt_hidden : SaveError
  audit_failed : AuditFailure → SaveError

-- What the repository is made with and what it reads of the clock: `persistedAt`, and for each
-- event an id and a date.
pub record SaveInput : Type 0 where
  pub crypto : ChainCrypto
  pub tenant_id : String
  pub persisted_at : ℕ
  pub event_id : ℕ → String
  pub occurred_at : ℕ → String

abbrev pub is_terminal : Status → Bool
is_terminal completed = true
is_terminal cancelled = true
is_terminal _ = false

abbrev pub completion : Status → ℕ → Option ℕ
completion s now = if is_terminal s then some now else none

-- The row that `insert into privacy_requests` makes.
abbrev pub first_row : SaveInput → Aggregate → RequestRow
first_row input a = record {
  tenant_id = input.tenant_id;
  environment_id = a.environment_id;
  request_type = a.request_type;
  source = a.source;
  subject_hash = none;
  subject_hash_key_version = none;
  subject_canonicalization_version = none;
  duplicate_override = false;
  duplicate_of_request_id = none;
  status = a.status;
  policy_version = a.policy_version;
  deadline_at = a.deadline_at;
  created_by_actor_id = a.created_by_actor_id;
  created_at = input.persisted_at;
  completed_at = completion a.status input.persisted_at;
  current_attempt_id = a.current_attempt_id;
  version = a.version;
}

-- The row after the update.
abbrev pub next_row : SaveInput → Aggregate → RequestRow → RequestRow
next_row input a row = record row {
  status = a.status;
  policy_version = a.policy_version;
  deadline_at = a.deadline_at;
  completed_at = completion a.status input.persisted_at;
  current_attempt_id = a.current_attempt_id;
  version = a.version;
}

-- The `where` of the update.
abbrev pub is_expected : SaveInput → Aggregate → ℕ → RequestRow → Bool
is_expected input a expected row =
    row.tenant_id == input.tenant_id
    && row.environment_id == a.environment_id
    && nat_beq row.version expected

-- The row to write, if the insertion or the update finds one.
unfoldable pub snapshot_row : SaveInput → Aggregate → ℕ → Tables → Option RequestRow
snapshot_row input a expected db = elim (lookup a.id db.requests) [
  | none ↦ if nat_beq expected 0 then some (first_row input a) else none
  | some row ↦
      if not (nat_beq expected 0) && is_expected input a expected row
      then some (next_row input a row)
      else none
]

unfoldable pub persist_snapshot : SaveInput → Aggregate → ℕ → Tables → Outcome SaveError Tables
unfolding snapshot_row
persist_snapshot input a expected db = do
  row ← require (snapshot_row input a expected db) concurrency_conflict
  ok (record db { requests = insert a.id row db.requests })

-- The row of an attempt after `on conflict (id) do update`, which leaves a closed one as it is.
abbrev pub updated_attempt : ExecutionAttempt → AttemptRow → AttemptRow
updated_attempt attempt row = if is_present row.attempt.completed_at then row else record row {
  attempt = record (row.attempt) { status = attempt.status; completed_at = attempt.completed_at };
}

unfoldable pub persist_attempt :
    SaveInput → Aggregate → ExecutionAttempt → Tables → Outcome SaveError Tables
persist_attempt input a attempt db = elim (lookup attempt.id db.attempts) [
  | none ↦ ok (record db {
    attempts =
        insert attempt.id
          (record {
            tenant_id = input.tenant_id;
            environment_id = a.environment_id;
            attempt = attempt;
          })
          db.attempts;
  })
  | some row ↦
      if row.tenant_id == input.tenant_id
      then ok (record db { attempts = insert attempt.id (updated_attempt attempt row) db.attempts })
      else err attempt_hidden
]

unfoldable pub persist_attempts :
    SaveInput → Aggregate → List ExecutionAttempt → Tables → Outcome SaveError Tables
persist_attempts input a [] db = ok db
persist_attempts input a (attempt ∷ attempts) db =
    persist_attempt input a attempt db >>= λ db. persist_attempts input a attempts db

abbrev pub text_of : Option EventValue → Option String
text_of (some (text value)) = some value
text_of _ = none

abbrev pub payload_value : String → List (String × EventValue) → Option EventValue
payload_value key payload = lookup key payload

-- `eventActor`
unfoldable pub event_actor : DomainEvent → ActorType × String
event_actor e = elim (text_of (payload_value "agentId" e.payload)) [
  | some id ↦ (agent_actor, id)
  | none ↦ elim (text_of (payload_value "actorId" e.payload)) [
    | some id ↦ (user_actor, id)
    | none ↦ elim (text_of (payload_value "decidedBy" e.payload)) [
      | some id ↦ (user_actor, id)
      | none ↦ (system_actor, "forgetops-domain")
    ]
  ]
]

abbrev pub entry_of : SaveInput → Aggregate → ℕ → DomainEvent → AuditEntry
entry_of input a n e = record {
  id = input.event_id n;
  tenant_id = input.tenant_id;
  environment_id = a.environment_id;
  request_id = a.id;
  actor_type = (event_actor e).0;
  actor_id = (event_actor e).1;
  action = e.type;
  metadata = e.payload;
  occurred_at = input.occurred_at n;
}

-- The loop of `persistEvents`, from the event with this number on: the head that it carries along
-- is the one that it has written.
unfoldable pub persist_from :
    SaveInput → Aggregate → ℕ → List DomainEvent → Tables → Outcome AuditFailure Tables
persist_from input a n [] db = ok db
persist_from input a n (e ∷ events) db =
    append_entry input.crypto (entry_of input a n e) db >>= λ db.
    persist_from input a (n + 1) events db

unfoldable pub persist_events :
    SaveInput → Aggregate → List DomainEvent → Tables → Outcome AuditFailure Tables
persist_events input a events db = do
  let opened = open_head input.tenant_id a.environment_id db
  head ← require (visible_head input.tenant_id a.environment_id opened) head_missing
  persist_from input a 0 events opened

abbrev pub audited : {A : Type 0} → Outcome AuditFailure A → Outcome SaveError A
audited (ok a) = ok a
audited (err head_missing) = err tenant_scope_violation
audited (err e) = err (audit_failed e)

abbrev pub owns_environment : String → String → Tables → Bool
owns_environment tenant environment db = elim (lookup environment db.environments) [
  | none ↦ false
  | some e ↦ e.tenant_id == tenant
]

-- The tables after a save, and the aggregate, whose events are committed.
unfoldable pub save : SaveInput → Aggregate → ℕ → Tables → Outcome SaveError (Tables × Aggregate)
save input a expected db = do
  reject_if (nat_beq (length a.events) 0 || not (nat_beq a.version (expected + length a.events)))
      concurrency_conflict
  reject_if (not (owns_environment input.tenant_id a.environment_id db)) tenant_scope_violation
  with_row ← persist_snapshot input a expected db
  with_attempts ← persist_attempts input a a.attempts with_row
  with_events ← audited (persist_events input a a.events with_attempts)
  ok (with_events, record a { events = drop (length a.events) a.events })
