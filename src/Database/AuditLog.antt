-- ===== src/Database/AuditLog.antt =====
-- How an event is appended to the audit chain of an environment and to the outbox: `persistEvents`
-- of privacy-request-repository.ts does so for each event, `appendAuditEvent` of
-- subject-envelope-service.ts for one. The unique indexes on events are not modelled as refusals.
use forget_ops.Audit.Chain.{
  ActorType, AuditEvent, CanonicalAuditEvent, audit_hash_context, bytes_of_hash, has_hash,
}
use forget_ops.Database.Tables.{AuditHead, ChainCrypto, Metadata, OutboxRow, Tables, decimal}
use forget_ops.Prelude.{
  Option, Outcome, String, [], char_codes, if◌then◌else◌, insert, is_present, length, lookup,
  nat_beq, nat_strict, none, not, ok, reject_if, require, some, string_strict, ℕ, ◌++◌, ◌+◌, ◌==◌,
  ◌>>=◌, ◌>>◌, ◌∷◌,
}
use forget_ops.PrivacyRequest.Status.{status_strict}

pub data AuditFailure : Type 0 where
  head_missing head_invalid event_not_canonical : AuditFailure

-- What is to be appended, with its id and its date.
pub record AuditEntry : Type 0 where
  pub id : String
  pub tenant_id : String
  pub environment_id : String
  pub request_id : String
  pub actor_type : ActorType
  pub actor_id : String
  pub action : String
  pub metadata : Metadata
  pub occurred_at : String

abbrev pub first_head : String → AuditHead
first_head tenant = record { tenant_id = tenant; sequence = 0; event_hash = none }

-- `insert … on conflict (environment_id) do nothing`
abbrev pub open_head : String → String → Tables → Tables
open_head tenant environment db =
    if is_present (lookup environment db.heads)
    then db
    else record db { heads = insert environment (first_head tenant) db.heads }

-- The head as the tenant sees it.
abbrev pub visible_head : String → String → Tables → Option AuditHead
visible_head tenant environment db = elim (lookup environment db.heads) [
  | none ↦ none
  | some h ↦ if h.tenant_id == tenant then some h else none
]

abbrev pub audit_event : AuditEntry → ℕ → AuditEvent Metadata
audit_event e sequence = record {
  id = e.id;
  tenant_id = e.tenant_id;
  environment_id = e.environment_id;
  sequence = decimal sequence;
  request_id = some e.request_id;
  actor_type = e.actor_type;
  actor_id = e.actor_id;
  action = e.action;
  metadata = e.metadata;
  created_at = e.occurred_at;
}

-- The event's hash, with the checks in the order of these files.
unfoldable pub entry_hash :
    ChainCrypto → Option String → AuditEvent Metadata → Outcome AuditFailure String
entry_hash k previous event = do
  canonical ← require (k.canonicalize event) event_not_canonical
  let bytes = bytes_of_hash k.hex_bytes previous
  reject_if (not (nat_beq (length bytes) (if has_hash previous then 32 else 0))) head_invalid
  ok (k.sha256_hex (char_codes audit_hash_context ++ 0 ∷ bytes ++ canonical))

abbrev pub outbox_row : AuditEntry → OutboxRow
outbox_row e = record {
  id = e.id;
  tenant_id = e.tenant_id;
  environment_id = e.environment_id;
  aggregate_id = e.request_id;
  event_type = e.action;
  payload = e.metadata;
  occurred_at = e.occurred_at;
  published_at = none;
}

abbrev pub chained : AuditEntry → AuditHead → String → CanonicalAuditEvent Metadata
chained e head hash = record {
  content = audit_event e (head.sequence + 1);
  previous_event_hash = head.event_hash;
  event_hash = hash;
}

-- The rows that are written for an event, behind a head.
unfoldable pub write_entry : AuditEntry → AuditHead → String → Tables → Tables
write_entry e head hash db = record db {
  events = db.events ++ chained e head hash ∷ [];
  heads =
      insert e.environment_id (record head { sequence = head.sequence + 1; event_hash = some hash })
        db.heads;
  outbox = db.outbox ++ outbox_row e ∷ [];
}

-- One event behind the head that the tenant sees.
unfoldable pub append_entry : ChainCrypto → AuditEntry → Tables → Outcome AuditFailure Tables
unfolding entry_hash
append_entry k e db = do
  head ← require (visible_head e.tenant_id e.environment_id db) head_missing
  hash ← entry_hash k head.event_hash (audit_event e (head.sequence + 1))
  ok (write_entry e head hash db)

-- `appendAuditEvent`
unfoldable pub append_audit_event : ChainCrypto → AuditEntry → Tables → Outcome AuditFailure Tables
append_audit_event k e db = append_entry k e (open_head e.tenant_id e.environment_id db)
