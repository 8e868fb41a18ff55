-- ===== src/Subjects/Data.antt =====
-- The types of subject-envelope-service.ts, and the tables it reads beside those of the database's
-- repositories. Versions are natural numbers, so that the tests for integers are settled.
use forget_ops.Database.AuditLog.{AuditFailure}
use forget_ops.Database.Tables.{Tables}
use forget_ops.Gateway.Data.{GatewayAgentStatus, revoked}
use forget_ops.Prelude.{Bool, List, Option, String, false, true, ℕ}

pub record SubjectAliasBinding : Type 0 where
  pub identifier_kind : String
  pub subject_hash : String
  pub subject_hash_key_version : ℕ
  pub canonicalization_version : ℕ

pub record StoreSubjectEnvelopeInput : Type 0 where
  pub tenant_id : String
  pub environment_id : String
  pub request_id : String
  pub ciphertext : String
  pub encryption_key_id : String
  pub expires_at : Option ℕ

pub record DuplicateOverride : Type 0 where
  pub owner_actor_id : String
  pub reason : String

-- `now` is that of `BindSubjectRequest`, with the text that it is written as.
pub record BindSubjectInput : Type 0 where
  pub tenant_id : String
  pub environment_id : String
  pub request_id : String
  pub agent_id : String
  pub subject_hash : String
  pub subject_hash_key_version : ℕ
  pub canonicalization_version : ℕ
  pub expected_version : ℕ
  pub aliases : List SubjectAliasBinding
  pub duplicate_override : Option DuplicateOverride
  pub now : ℕ
  pub now_text : String

pub data BindingOutcome : Type 0 where
  bound duplicate_cancelled duplicate_override : BindingOutcome

pub record SubjectBindingResult : Type 0 where
  pub request_id : String
  pub environment_id : String
  pub subject_hash : String
  pub subject_hash_key_version : ℕ
  pub canonicalization_version : ℕ
  pub duplicate_of_request_id : Option String
  pub outcome : BindingOutcome

-- The codes of `SubjectEnvelopeError`.
pub data SubjectError : Type 0 where
  subject_scope_required ciphertext_required envelope_too_large key_id_required : SubjectError
  envelope_expired envelope_format_invalid envelope_scope_invalid key_id_mismatch : SubjectError
  subject_hash_invalid hash_key_version_invalid canonicalization_version_invalid : SubjectError
  request_version_invalid override_invalid request_not_found already_bound : SubjectError
  request_version_conflict binding_state_invalid key_version_mismatch agent_not_active :
      SubjectError
  envelope_not_found envelope_key_mismatch alias_limit_exceeded alias_kind_invalid : SubjectError
  alias_must_be_explicit alias_key_version_invalid : SubjectError
  alias_canonicalization_version_invalid alias_version_mismatch alias_duplicate : SubjectError
  audit_append_failed : AuditFailure → SubjectError

-- A row of `agents`, as far as it is read here.
pub record AgentKeyRow : Type 0 where
  pub environment_id : String
  pub encryption_key_id : Option String
  pub status : GatewayAgentStatus

-- A row of `subject_envelopes`.
pub record EnvelopeRow : Type 0 where
  pub tenant_id : String
  pub environment_id : String
  pub ciphertext : String
  pub encryption_key_id : String
  pub expires_at : ℕ
  pub consumed_at : Option ℕ

-- A row of `subject_identity_aliases`.
pub record AliasRow : Type 0 where
  pub request_id : String
  pub tenant_id : String
  pub environment_id : String
  pub alias : SubjectAliasBinding

pub record SubjectDb : Type 0 where
  pub tables : Tables
  pub agents : List (String × AgentKeyRow)
  pub envelopes : List (String × EnvelopeRow)
  pub aliases : List AliasRow

-- `status = any(ACTIVE_AGENT_STATUSES)`
abbrev pub is_active_status : GatewayAgentStatus → Bool
is_active_status revoked = false
is_active_status _ = true
