-- ===== src/Gateway/Calls.antt =====
-- Histories of the repository's calls, by any agents and tenants and in any order.
use forget_ops.Gateway.Data.{
  AgentJob, AgentTransportInput, ClaimAgentMessageInput, EnqueueAgentJobInput, GatewayDb,
  JobMutation,
}
use forget_ops.Gateway.Jobs.{JobError, enqueue, heartbeat, lease}
use forget_ops.Gateway.Messages.{claim_agent_message, next_control_sequence}
use forget_ops.Gateway.Transports.{claim_transport, release_transport}
use forget_ops.Prelude.{List, Option, Outcome, String, [], err, none, ok, some, ℕ, ◌∷◌}

pub data GatewayCall : Type 0 where
  claims : ClaimAgentMessageInput → GatewayCall
  opens : AgentTransportInput → GatewayCall
  closes : AgentTransportInput → GatewayCall
  numbers : String → String → GatewayCall
  enqueues : EnqueueAgentJobInput → ℕ → GatewayCall
  leases : JobMutation → GatewayCall
  beats : JobMutation → GatewayCall

abbrev pub numbered : GatewayDb → Option (GatewayDb × ℕ) → GatewayDb
numbered db none = db
numbered db (some (after, n)) = after

abbrev pub enqueued : GatewayDb → Outcome JobError (GatewayDb × AgentJob) → GatewayDb
enqueued db (ok (after, job)) = after
enqueued db (err e) = db

abbrev pub gateway_call : GatewayCall → GatewayDb → GatewayDb
gateway_call (claims input) db = (claim_agent_message input db).0
gateway_call (opens input) db = (claim_transport input db).0
gateway_call (closes input) db = release_transport input db
gateway_call (numbers tenant id) db = numbered db (next_control_sequence tenant id db)
gateway_call (enqueues input now) db = enqueued db (enqueue input now db)
gateway_call (leases input) db = (lease input db).0
gateway_call (beats input) db = (heartbeat input db).0

abbrev pub gateway_run : List GatewayCall → GatewayDb → GatewayDb
gateway_run [] db = db
gateway_run (c ∷ cs) db = gateway_run cs (gateway_call c db)
