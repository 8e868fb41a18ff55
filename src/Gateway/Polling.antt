-- ===== src/Gateway/Polling.antt =====
-- The routes of polling-routes.ts. The schema's parse of the body, the random message ids and the
-- control plane's signature are parameters. Each route reads the clock several times; the waits in
-- between are points at which others call only where `during` says so, in the long poll.
use forget_ops.Gateway.Authenticate.{
  AgentMessage, AuthError, GatewayCrypto, Payload, auth_replay_detected, authenticate, natural,
  object, words,
}
use forget_ops.Gateway.Calls.{GatewayCall, gateway_run}
use forget_ops.Gateway.Data.{
  AgentJob, AgentJobKind, AgentTransportInput, GatewayAgentIdentity, GatewayDb, JobLookup,
  JobMutation, polling,
}
use forget_ops.Gateway.Jobs.{heartbeat, lease, poll}
use forget_ops.Gateway.Messages.{next_control_sequence}
use forget_ops.Gateway.Transports.{claim_transport, is_transport_active}
use forget_ops.Prelude.{
  Bool, List, Option, Outcome, String, err, if◌then◌else◌, ltb, nat_beq, nat_strict, none, not, ok,
  reject_if, require, some, string_strict, ℕ, ◌==◌, ◌>>=◌, ◌>>◌,
}
use forget_ops.PrivacyRequest.Status.{status_strict}

pub data GatewayError : Type 0 where
  refused : AuthError → GatewayError
  invalid_agent_message job_lease_expired agent_unavailable : GatewayError

-- `jobPayload`
pub record JobPayload : Type 0 where
  pub job_id : String
  pub request_id : String
  pub environment_id : String
  pub kind : AgentJobKind
  pub plan_version : Option ℕ
  pub payload_ciphertext : Option String
  pub authorization : Option String
  pub available_at : ℕ
  pub expires_at : ℕ
  pub attempt : ℕ
  pub lease_expires_at : Option ℕ

abbrev pub job_payload : AgentJob → JobPayload
job_payload job = record {
  job_id = job.id;
  request_id = job.request_id;
  environment_id = job.environment_id;
  kind = job.kind;
  plan_version = job.plan_version;
  payload_ciphertext = job.payload_ciphertext;
  authorization = job.authorization;
  available_at = job.available_at;
  expires_at = job.expires_at;
  attempt = job.attempt;
  lease_expires_at = job.lease_expires_at;
}

-- A message to the agent, before it is signed.
pub record ControlMessage : Type 0 where
  pub message_type : String
  pub message_id : String
  pub key_id : String
  pub environment_id : String
  pub agent_id : String
  pub sequence : ℕ
  pub sent_at : ℕ
  pub payload : JobPayload

pub record SignedControlMessage : Type 0 where
  pub message : ControlMessage
  pub signature : String

-- What the routes are given: the clock's readings in the order of the code, a random id, and the
-- control signer.
pub record RouteInput : Type 0 where
  pub crypto : GatewayCrypto
  pub received_at : ℕ
  pub claimed_at : ℕ
  pub looked_at : ℕ
  pub sent_at : ℕ
  pub message_id : String
  pub control_key_id : String
  pub sign_control : ControlMessage → String

abbrev pub Reply : Type 0 → Type 0
Reply A = GatewayDb × Outcome GatewayError A

-- What a route does with a result, on the database that comes with it.
abbrev pub then_reply : {A B : Type 0} → Reply A → (GatewayDb → A → Reply B) → Reply B
then_reply (db, ok a) rest = rest db a
then_reply (db, err e) rest = (db, err e)

abbrev pub as_reply : {A : Type 0} → GatewayDb × Outcome AuthError A → Reply A
as_reply (db, ok a) = (db, ok a)
as_reply (db, err e) = (db, err (refused e))

-- `parseMessage`, given the message that the schema parses, if it does.
unfoldable pub parse_message : Option AgentMessage → String → Outcome GatewayError AgentMessage
parse_message parsed expected_type = do
  m ← require parsed invalid_agent_message
  reject_if (not (m.message_type == expected_type)) invalid_agent_message
  ok m

abbrev pub max_poll_wait_ms : ℕ
max_poll_wait_ms = 45000

unfoldable pub parse_poll_payload : Payload → Outcome GatewayError ℕ
parse_poll_payload (object (natural ms) job_id) =
    if ltb max_poll_wait_ms ms then err invalid_agent_message else ok ms
parse_poll_payload _ = err invalid_agent_message

unfoldable pub require_payload_job_id : Payload → String → Outcome GatewayError (Unit {0})
require_payload_job_id (object wait_ms (words id)) job_id =
    reject_if (not (id == job_id)) invalid_agent_message
require_payload_job_id _ job_id = err invalid_agent_message

abbrev pub polling_input : GatewayAgentIdentity → String → ℕ → AgentTransportInput
polling_input a session now = record {
  tenant_id = a.tenant_id;
  agent_id = a.agent_id;
  environment_id = a.environment_id;
  transport = polling;
  session_id = session;
  now = now;
}

abbrev pub ensure_polling_transport : Bool → Outcome AuthError (Unit {0})
ensure_polling_transport active = reject_if (not active) auth_replay_detected

unfoldable pub claim_polling_transport :
    GatewayAgentIdentity → String → ℕ → GatewayDb → GatewayDb × Outcome AuthError (Unit {0})
claim_polling_transport a session now db =
    let input = polling_input a session now in
    let after = (claim_transport input db).0 in
    (after, ensure_polling_transport (is_transport_active input after))

abbrev pub control_message :
    RouteInput → GatewayAgentIdentity → String → JobPayload → ℕ → ControlMessage
control_message input a message_type payload sequence = record {
  message_type = message_type;
  message_id = input.message_id;
  key_id = input.control_key_id;
  environment_id = a.environment_id;
  agent_id = a.agent_id;
  sequence = sequence;
  sent_at = input.sent_at;
  payload = payload;
}

unfoldable pub signed_response :
    RouteInput → GatewayAgentIdentity → String → AgentJob → GatewayDb → Reply SignedControlMessage
signed_response input a message_type job db =
    elim (next_control_sequence a.tenant_id a.agent_id db) [
      | none ↦ (db, err agent_unavailable)
      | some (after, sequence) ↦
          let m = control_message input a message_type (job_payload job) sequence in
          (after, ok (record { message = m; signature = input.sign_control m }))
    ]

-- A message's way through authentication and the claim of the transport.
unfoldable pub enter : RouteInput → AgentMessage → GatewayDb → Reply GatewayAgentIdentity
enter input m db = then_reply (as_reply (authenticate input.crypto m input.received_at db)) λ db a.
    then_reply (as_reply (claim_polling_transport a m.message_id input.claimed_at db))
      λ db done. (db, ok a)

abbrev pub job_mutation : GatewayAgentIdentity → String → ℕ → JobMutation
job_mutation a job_id now = record {
  tenant_id = a.tenant_id;
  agent_id = a.agent_id;
  environment_id = a.environment_id;
  now = now;
  job_id = job_id;
}

abbrev pub reply_with :
    RouteInput
    → GatewayAgentIdentity
    → String
    → GatewayDb × Option AgentJob
    → Reply SignedControlMessage
reply_with input a message_type (db, none) = (db, err job_lease_expired)
reply_with input a message_type (db, some job) = signed_response input a message_type job db

abbrev pub parsed_for_job :
    Option AgentMessage → String → String → Outcome GatewayError AgentMessage
parsed_for_job parsed expected_type job_id = do
  m ← parse_message parsed expected_type
  require_payload_job_id m.payload job_id
  ok m

-- `POST /v1/agent-jobs/:jobId/lease`
unfoldable pub lease_route :
    RouteInput → Option AgentMessage → String → GatewayDb → Reply SignedControlMessage
unfolding enter
lease_route input parsed job_id db =
    then_reply (db, parsed_for_job parsed "job.lease" job_id)
      λ db m.
        then_reply (enter input m db)
          λ db a. reply_with input a "job.leased" (lease (job_mutation a job_id input.looked_at) db)

-- `POST /v1/agent-jobs/:jobId/heartbeat`
unfoldable pub heartbeat_route :
    RouteInput → Option AgentMessage → String → GatewayDb → Reply SignedControlMessage
unfolding enter
heartbeat_route input parsed job_id db =
    then_reply (db, parsed_for_job parsed "job.heartbeat" job_id)
      λ db m. then_reply (enter input m db) λ db a.
        reply_with input a "job.lease_extended"
          (heartbeat (job_mutation a job_id input.looked_at) db)

abbrev pub job_lookup : GatewayAgentIdentity → ℕ → JobLookup
job_lookup a now = record {
  tenant_id = a.tenant_id;
  agent_id = a.agent_id;
  environment_id = a.environment_id;
  now = now;
}

-- The reply to a poll: a signed message, or none, which is 204.
abbrev pub offered : Reply SignedControlMessage → Reply (Option SignedControlMessage)
offered (db, ok m) = (db, ok (some m))
offered (db, err e) = (db, err e)

abbrev pub offer :
    RouteInput
    → GatewayAgentIdentity
    → Option AgentJob
    → GatewayDb
    → Reply (Option SignedControlMessage)
offer input a none db = (db, ok none)
offer input a (some job) db = offered (signed_response input a "job.available" job db)

-- What follows a first look that finds no job: the wait, if there is one, in which others call; then
-- a second look, if the session still is the agent's.
unfoldable pub look_again :
    (String → String → Bool)
    → RouteInput
    → GatewayAgentIdentity
    → String
    → ℕ
    → List GatewayCall
    → ℕ
    → GatewayDb
    → Reply (Option SignedControlMessage)
look_again collate input a session wait_ms during again_at db =
    if nat_beq wait_ms 0
    then (db, ok none)
    else (let waited = gateway_run during db in
        if is_transport_active (polling_input a session again_at) waited
        then offer input a (poll collate (job_lookup a again_at) waited) waited
        else (waited, err (refused auth_replay_detected)))

abbrev pub offer_or_wait :
    RouteInput
    → GatewayAgentIdentity
    → Option AgentJob
    → GatewayDb
    → Reply (Option SignedControlMessage)
    → Reply (Option SignedControlMessage)
offer_or_wait input a none db rest = rest
offer_or_wait input a (some job) db rest = offer input a (some job) db

abbrev pub parsed_for_poll : Option AgentMessage → Outcome GatewayError (AgentMessage × ℕ)
parsed_for_poll parsed = do
  m ← parse_message parsed "agent.poll"
  wait_ms ← parse_poll_payload m.payload
  ok (m, wait_ms)

-- `POST /v1/agent-jobs/poll`
unfoldable pub poll_route :
    (String → String → Bool)
    → RouteInput
    → Option AgentMessage
    → List GatewayCall
    → ℕ
    → GatewayDb
    → Reply (Option SignedControlMessage)
unfolding enter look_again
poll_route collate input parsed during again_at db =
    then_reply (db, parsed_for_poll parsed)
      λ db parts. then_reply (enter input parts.0 db) λ db a.
        offer_or_wait input a (poll collate (job_lookup a input.looked_at) db) db
          (look_again collate input a parts.0.message_id parts.1 during again_at db)
