-- ===== src/Database/Tests.antt =====
-- A new request that is saved, with stand-ins for the packages' functions, and a second try that
-- starts from the same version.
use forget_ops.Audit.Chain.{CanonicalAuditEvent, verify_chain, verify_from}
use forget_ops.Database.Answers.{claimed_once}
use forget_ops.Database.AuditLog.{append_entry, write_entry}
use forget_ops.Database.Chains.{IsChained}
use forget_ops.Database.Idempotency.{
  IdempotencyCommand, IdempotencyCompletion, IdempotencyKey, IdempotencyRow, claim_key, claims,
  complete_key, idempotency_run, key_reused, newly_claimed, replayed_response,
}
use forget_ops.Database.Repository.{
  SaveInput, persist_attempts, persist_events, persist_from, persist_snapshot, save,
}
use forget_ops.Database.Saves.{save-IsChained, save_run, saved_or, saved_version_spent}
use forget_ops.Database.Tables.{ChainCrypto, Metadata, RequestRow, Tables, decimal}
use forget_ops.Prelude.{
  List, Option, String, [], char_codes, err, insert, lookup, map, none, ok, refl, some, suc, zero,
  ℕ, ◌∷◌, ◌≡◌, ◌≢◌,
}
use forget_ops.PrivacyRequest.Data.{admin, delete, text}
use forget_ops.PrivacyRequest.Effect.{Aggregate}
use forget_ops.PrivacyRequest.Status.{created}

abbrev zeros : ℕ → List ℕ
zeros zero = []
zeros (suc n) = 0 ∷ zeros n

abbrev crypto : ChainCrypto
crypto = record {
  canonicalize = λ e. some (char_codes e.sequence);
  hex_bytes = λ h. zeros 32;
  sha256_hex = λ bytes. "hash";
}

abbrev save_input : SaveInput
save_input = record {
  crypto = crypto;
  tenant_id = "tenant";
  persisted_at = 5000;
  event_id = λ n. "event";
  occurred_at = λ n. "2026-01-01";
}

abbrev new_request : Aggregate
new_request = record {
  input = record {
    id = "request";
    environment_id = "env";
    request_type = delete;
    source = admin;
    created_by_actor_id = "admin";
    policy_version = 1;
    deadline_at = "2026-02-01";
  };
  status = created;
  version = 2;
  current_attempt_id = none;
  plan = none;
  approval = none;
  latest_plan_version = 0;
  attempts = [];
  events =
      record { type = "PrivacyRequestCreated"; payload = ("actorId", text "admin") ∷ [] }
      ∷ record { type = "IdentityVerified"; payload = [] }
      ∷ [];
  now = λ n. "2026-01-01";
  readings = 0;
}

abbrev empty_tables : Tables
empty_tables = record {
  environments =
      (
        "env",
        record {
          tenant_id = "tenant";
          subject_hash_key_version = 1;
          subject_canonicalization_version = 1;
        },
      )
      ∷ [];
  requests = [];
  attempts = [];
  heads = [];
  events = [];
  outbox = [];
}

abbrev after_save : Tables
after_save = saved_or empty_tables (save save_input new_request 0 empty_tables)

abbrev committed : Aggregate
committed = record new_request { events = [] }

saves : save save_input new_request 0 empty_tables ≡ ok (after_save, committed)
unfolding save lookup persist_snapshot persist_attempts persist_events insert persist_from
    append_entry write_entry
saves = refl

sequences :
    map {B = String × Option String}
      (λ (e : CanonicalAuditEvent Metadata). (e.content.sequence, e.previous_event_hash))
      after_save.events
    ≡ ("1", none) ∷ ("2", some "hash") ∷ []
unfolding save lookup persist_snapshot persist_attempts persist_events insert persist_from
    append_entry write_entry decimal
sequences = refl

empty-IsChained : IsChained crypto "env" empty_tables
unfolding verify_chain verify_from lookup
empty-IsChained = record { checked = refl; head_fits = refl }

save-IsChained_example : IsChained crypto "env" after_save
save-IsChained_example =
    save-IsChained save_input new_request committed 0 empty_tables after_save "env" saves
      empty-IsChained

saved_version_spent_example :
    ((row : RequestRow) × (lookup "request" after_save.requests ≡ some row)
      × (row.version ≡ 2)
      × (row.status ≡ created))
    × (save save_input new_request 0 (
          save_run
            (record { input = save_input; aggregate = new_request; expected = 2 } ∷ [])
            after_save)
        ≢ ok (after_save, committed))
saved_version_spent_example =
    saved_version_spent save_input save_input new_request committed new_request committed 0
      empty_tables after_save after_save
      (record { input = save_input; aggregate = new_request; expected = 2 } ∷ []) saves refl

abbrev the_key : IdempotencyKey
the_key = record {
  tenant_id = "tenant";
  scope = "create";
  actor_id = "admin";
  idempotency_key = "key";
}

abbrev the_command : IdempotencyCommand
the_command = record { key = the_key; request_hash = "hash"; expires_at = 9000 }

abbrev the_completion : IdempotencyCompletion
the_completion = record {
  key = the_key;
  request_hash = "hash";
  response_status = 201;
  response_body = some "{}";
}

abbrev answered_rows : List IdempotencyRow
answered_rows =
    record { key = the_key; request_hash = "hash"; expires_at = 9000; response = some (201, "{}") }
    ∷ []

claimed_first : (claim_key the_command []).1 ≡ ok newly_claimed
unfolding claim_key
claimed_first = refl

completed_next :
    complete_key the_completion (idempotency_run [] (claim_key the_command []).0) ≡ ok answered_rows
unfolding claim_key complete_key
completed_next = refl

claimed_once_example :
    ((claim_key the_command (idempotency_run [] (claim_key the_command []).0)).1 ≢ ok newly_claimed)
    × (the_command.request_hash ≢ the_command.request_hash
        → (claim_key the_command (idempotency_run [] (claim_key the_command []).0)).1
          ≡ err key_reused)
    × (the_key ≡ the_key
        → the_completion.response_body ≡ some "{}"
        → complete_key the_completion (idempotency_run [] (claim_key the_command []).0)
          ≡ ok answered_rows
        → the_command.request_hash ≡ the_command.request_hash
        → (claim_key the_command (idempotency_run (claims the_command ∷ []) answered_rows)).1
          ≡ ok (replayed_response (201, "{}")))
claimed_once_example =
    claimed_once the_command the_command the_completion "{}" [] (claims the_command ∷ []) []
      answered_rows claimed_first refl
