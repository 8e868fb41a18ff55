-- ===== src/Pairing/Data.antt =====
-- The types of pairing-service.ts. A date that the code writes by `toISOString` and reads back is
-- its milliseconds.
use forget_ops.Prelude.{Bool, Option, String, ℕ}

pub data AgentStatus : Type 0 where
  pairing online offline outdated revoked : AgentStatus

-- `none_mode` is the mode "none".
pub data ReplacementMode : Type 0 where
  none_mode drain force : ReplacementMode

pub record AgentRecord : Type 0 where
  pub id : String
  pub environment_id : String
  pub public_signing_key : String
  pub public_encryption_key : String
  pub signing_key_id : String
  pub encryption_key_id : String
  pub subject_hmac_key_version : ℕ
  pub version : String
  pub protocol_version : String
  pub instance_fingerprint : String
  pub status : AgentStatus
  pub last_seen_at : Option ℕ
  pub last_sequence : String
  pub created_at : ℕ

pub record AgentRegistration : Type 0 where
  pub pairing_token : String
  pub environment_id : String
  pub public_signing_key : String
  pub public_encryption_key : String
  pub signing_key_id : String
  pub encryption_key_id : String
  pub subject_hmac_key_version : ℕ
  pub version : String
  pub protocol_version : String
  pub instance_fingerprint : String
  pub proof : String

pub record CreatePairingTokenInput : Type 0 where
  pub tenant_id : String
  pub environment_id : String
  pub actor_id : String
  pub replacement_mode : Option ReplacementMode
  pub allow_replacement : Option Bool

pub record PersistPairingTokenInput : Type 0 where
  pub id : String
  pub tenant_id : String
  pub environment_id : String
  pub token_hash : String
  pub replacement_mode : ReplacementMode
  pub allow_replacement : Bool
  pub created_by_actor_id : String
  pub created_at : ℕ
  pub expires_at : ℕ

pub record PairingTokenRecord : Type 0 where
  pub issued : PersistPairingTokenInput
  pub open issued use *
  pub consumed_at : Option ℕ

pub record ConsumeAndPairInput : Type 0 where
  pub token_hash : String
  pub registration : AgentRegistration
  pub now : ℕ

pub data PairingError : Type 0 where
  token_invalid replacement_requires_owner_confirmation : PairingError
  replacement_blocked_active_work agent_already_active agent_not_found : PairingError
  invalid_agent_key resource_not_found : PairingError
