-- ===== src/Gateway/Data.antt =====
-- The types of job-repository.ts, and the tables that its queries read and write, as lists of rows
-- by their primary key. A timestamp is its milliseconds, and a sequence, which the code keeps as a
-- decimal text and compares as a BigInt, is its number.
use forget_ops.Prelude.{
  Bool, List, Option, String, false, if◌then◌else◌, is_some_text, lookup, none, some, true, ℕ,
}

pub data AgentJobKind : Type 0 where
  bind_subject plan_job execute lease_execution wrap_export_key cancel_job health_check :
      AgentJobKind

pub record AgentJob : Type 0 where
  pub id : String
  pub tenant_id : String
  pub request_id : String
  pub environment_id : String
  pub kind : AgentJobKind
  pub plan_version : Option ℕ
  pub payload_ciphertext : Option String
  pub authorization : Option String
  pub available_at : ℕ
  pub expires_at : ℕ
  pub leased_by_agent_id : Option String
  pub lease_expires_at : Option ℕ
  pub attempt : ℕ
  pub completed_at : Option ℕ
  pub created_at : ℕ

pub record EnqueueAgentJobInput : Type 0 where
  pub id : String
  pub tenant_id : String
  pub request_id : String
  pub environment_id : String
  pub kind : AgentJobKind
  pub plan_version : Option ℕ
  pub payload_ciphertext : Option String
  pub authorization : Option String
  pub available_at : ℕ
  pub expires_at : ℕ

-- `AgentJobLookup`.
pub record JobLookup : Type 0 where
  pub tenant_id : String
  pub agent_id : String
  pub environment_id : String
  pub now : ℕ

-- `AgentJobMutation`.
pub record JobMutation : Type 0 where
  pub tenant_id : String
  pub agent_id : String
  pub environment_id : String
  pub now : ℕ
  pub job_id : String

pub data GatewayAgentStatus : Type 0 where
  pairing online offline outdated revoked : GatewayAgentStatus

pub data AgentTransport : Type 0 where
  websocket polling : AgentTransport

pub record AgentTransportInput : Type 0 where
  pub tenant_id : String
  pub agent_id : String
  pub environment_id : String
  pub transport : AgentTransport
  pub session_id : String
  pub now : ℕ

pub record GatewayAgentIdentity : Type 0 where
  pub agent_id : String
  pub tenant_id : String
  pub environment_id : String
  pub public_signing_key : String
  pub signing_key_id : String
  pub protocol_version : String
  pub status : GatewayAgentStatus

pub data ClaimResult : Type 0 where
  accepted not_found environment_mismatch revoked_agent replay : ClaimResult

pub record ClaimAgentMessageInput : Type 0 where
  pub tenant_id : String
  pub agent_id : String
  pub environment_id : String
  pub message_id : String
  pub sequence : ℕ
  pub received_at : ℕ

-- A row of `agents`, as far as the gateway reads it.
pub record GatewayAgent : Type 0 where
  pub environment_id : String
  pub public_signing_key : String
  pub signing_key_id : Option String
  pub protocol_version : String
  pub status : GatewayAgentStatus
  pub last_sequence : ℕ
  pub last_seen_at : Option ℕ
  pub last_control_sequence : ℕ

-- A row of `agent_message_receipts`.
pub record MessageReceipt : Type 0 where
  pub agent_id : String
  pub message_id : String
  pub sequence : ℕ
  pub received_at : ℕ

-- A row of `agent_transport_sessions`.
pub record TransportSession : Type 0 where
  pub tenant_id : String
  pub environment_id : String
  pub transport : AgentTransport
  pub session_id : String
  pub started_at : ℕ
  pub last_seen_at : ℕ

-- The tenant and the environment of a row of `privacy_requests`.
pub record RequestScope : Type 0 where
  pub tenant_id : String
  pub environment_id : String

-- `environment_tenants` joins environments and projects: the tenant of an environment.
pub record GatewayDb : Type 0 where
  pub environment_tenants : List (String × String)
  pub agents : List (String × GatewayAgent)
  pub receipts : List MessageReceipt
  pub sessions : List (String × TransportSession)
  pub requests : List (String × RequestScope)
  pub jobs : List (String × AgentJob)

abbrev pub is_revoked_status : GatewayAgentStatus → Bool
is_revoked_status revoked = true
is_revoked_status _ = false

-- `status in ('online', 'outdated')`
abbrev pub is_available_status : GatewayAgentStatus → Bool
is_available_status online = true
is_available_status outdated = true
is_available_status _ = false

-- The row level security of `agents`: a tenant sees the agents of its own environments.
unfoldable pub visible_agent : String → String → GatewayDb → Option GatewayAgent
visible_agent tenant id db = elim (lookup id db.agents) [
  | none ↦ none
  | some a ↦
      if is_some_text (lookup a.environment_id db.environment_tenants) tenant then some a else none
]
