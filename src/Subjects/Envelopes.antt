-- ===== src/Subjects/Envelopes.antt =====
-- `storeEnvelope` of the repository.
use forget_ops.Database.Repository.{owns_environment}
use forget_ops.Database.Tables.{Tables}
use forget_ops.Prelude.{
  Bool, List, Option, Outcome, String, any, false, insert, is_some_text, lookup, nat_strict, none,
  not, ok, reject_if, some, string_strict, ℕ, ◌&&◌, ◌==◌, ◌>>=◌, ◌>>◌, ◌||◌,
}
use forget_ops.PrivacyRequest.Status.{status_strict}
use forget_ops.Subjects.Data.{
  AgentKeyRow, StoreSubjectEnvelopeInput, SubjectDb, SubjectError, envelope_scope_invalid,
  is_active_status,
}
use forget_ops.Subjects.Validation.{ParsedEnvelope, check_envelope}

-- The request is there for the tenant, in an environment of its own.
abbrev pub owns_request : String → String → String → Tables → Bool
owns_request tenant environment request db = elim (lookup request db.requests) [
  | none ↦ false
  | some r ↦
      r.tenant_id == tenant
      && r.environment_id == environment
      && owns_environment tenant environment db
]

-- An active agent of the environment has the key.
abbrev pub has_key : String → String → List (String × AgentKeyRow) → Bool
has_key environment key = any λ (a : String × AgentKeyRow).
    a.1.environment_id == environment
    && is_some_text a.1.encryption_key_id key
    && is_active_status a.1.status

unfoldable pub store_envelope_row :
    StoreSubjectEnvelopeInput → ℕ → SubjectDb → Outcome SubjectError SubjectDb
store_envelope_row input expires_at db = do
  reject_if
      (not (owns_request input.tenant_id input.environment_id input.request_id db.tables)
        || not (has_key input.environment_id input.encryption_key_id db.agents))
      envelope_scope_invalid
  ok (record db {
    envelopes =
        insert input.request_id
          (record {
            tenant_id = input.tenant_id;
            environment_id = input.environment_id;
            ciphertext = input.ciphertext;
            encryption_key_id = input.encryption_key_id;
            expires_at = expires_at;
            consumed_at = none;
          })
          db.envelopes;
  })

-- The service's `storeEnvelope`, on the repository.
unfoldable pub store_envelope :
    (String → Option ParsedEnvelope)
    → (String → List ℕ)
    → StoreSubjectEnvelopeInput
    → ℕ
    → SubjectDb
    → Outcome SubjectError SubjectDb
unfolding check_envelope store_envelope_row
store_envelope parse_json decode input now db = do
  expires_at ← check_envelope parse_json decode input now
  store_envelope_row input expires_at db
