-- ===== src/Gateway/Tests.antt =====
-- An agent at work, with stand-ins for the packages' functions: it asks for a job, leases it, and is
-- superseded while it waits.
use forget_ops.Gateway.Authenticate.{
  AgentMessage, GatewayCrypto, agent_to_control, auth_replay_detected, authenticate, check_message,
  claim_input, decode_canonical, natural, object, other_value, parse_sequence, signing_bytes,
  verify_agent_message,
}
use forget_ops.Gateway.Calls.{GatewayCall, beats, enqueues, gateway_run, leases, numbers, opens}
use forget_ops.Gateway.Data.{
  AgentJob, AgentTransportInput, ClaimAgentMessageInput, EnqueueAgentJobInput, GatewayAgent,
  GatewayAgentIdentity, GatewayDb, JobMutation, execute, online, visible_agent, websocket,
}
use forget_ops.Gateway.Exclusion.{lease_excludes}
use forget_ops.Gateway.Handoff.{poll_superseded}
use forget_ops.Gateway.Jobs.{
  can_work, extended, first_waiting, heartbeat, lease, leased, poll, visible_job,
}
use forget_ops.Gateway.LeaseSpec.{leases_refine_lock, lock_view}
use forget_ops.Gateway.Lock.{LockPath, Promised}
use forget_ops.Gateway.Messages.{
  claim_agent_message, find_agent_identity, identity_of, next_control_sequence, store_receipt,
}
use forget_ops.Gateway.Polling.{
  RouteInput, claim_polling_transport, enter, job_lookup, parse_message, parse_poll_payload,
  parsed_for_poll, poll_route, polling_input, refused,
}
use forget_ops.Gateway.Routes.{Authentic, authenticated_once}
use forget_ops.Gateway.Transports.{claim_transport, is_transport_active, session_of}
use forget_ops.Gateway.Waiting.{EndsBy, lease_recovered, lookup_for, run-EndsBy}
use forget_ops.Prelude.{
  Bool, List, String, [], arith, char_codes, eq_iff, err, if◌then◌else◌, inl, insert, is_present,
  length, lookup, nat_beq, nat_strict, none, ok, refl, some, string_strict, suc, true, zero, ℕ,
  ◌==◌, ◌∷◌, ◌≡◌, ◌≢◌,
}
use forget_ops.PrivacyRequest.Status.{status_strict}

abbrev zeros : ℕ → List ℕ
zeros zero = []
zeros (suc n) = 0 ∷ zeros n

abbrev crypto : GatewayCrypto
crypto = record {
  decode_base64url = λ value. if value == "key" then zeros 32 else zeros 64;
  encode_base64url = λ bytes. if nat_beq (length bytes) 32 then "key" else "sig";
  canonical_message = λ m. some (char_codes m.message_id);
  verify_ed25519 = λ bytes key signature. true;
  key_id_for = λ key. "k1";
}

abbrev the_agent : GatewayAgent
the_agent = record {
  environment_id = "env";
  public_signing_key = "key";
  signing_key_id = some "k1";
  protocol_version = "1.0";
  status = online;
  last_sequence = 6;
  last_seen_at = none;
  last_control_sequence = 3;
}

abbrev the_job : AgentJob
the_job = record {
  id = "job";
  tenant_id = "tenant";
  request_id = "request";
  environment_id = "env";
  kind = execute;
  plan_version = some 1;
  payload_ciphertext = none;
  authorization = none;
  available_at = 10;
  expires_at = 900000;
  leased_by_agent_id = none;
  lease_expires_at = none;
  attempt = 0;
  completed_at = none;
  created_at = 5;
}

abbrev db_with : List (String × AgentJob) → GatewayDb
db_with jobs = record {
  environment_tenants = ("env", "tenant") ∷ [];
  agents = ("agt_1", the_agent) ∷ [];
  receipts = [];
  sessions = [];
  requests = ("request", record { tenant_id = "tenant"; environment_id = "env" }) ∷ [];
  jobs = jobs;
}

abbrev db : GatewayDb
db = db_with (("job", the_job) ∷ [])

abbrev take_job : ℕ → JobMutation
take_job now = record {
  tenant_id = "tenant";
  agent_id = "agt_1";
  environment_id = "env";
  now = now;
  job_id = "job";
}

abbrev rival : JobMutation
rival = record (take_job 30000) { agent_id = "agt_2" }

abbrev leased_job : AgentJob
leased_job = leased (take_job 1000) the_job

abbrev leased_db : GatewayDb
leased_db = db_with (("job", leased_job) ∷ [])

abbrev at_work : List GatewayCall
at_work = beats (take_job 20000) ∷ numbers "tenant" "agt_1" ∷ []

abbrev other_input : EnqueueAgentJobInput
other_input = record {
  id = "other job";
  tenant_id = "tenant";
  request_id = "request";
  environment_id = "env";
  kind = execute;
  plan_version = some 1;
  payload_ciphertext = none;
  authorization = none;
  available_at = 10;
  expires_at = 900000;
}

abbrev contested : List GatewayCall
contested = beats (take_job 20000) ∷ enqueues other_input 25000 ∷ leases rival ∷ []

lease_given : lease (take_job 1000) db ≡ (leased_db, some leased_job)
unfolding lease can_work visible_job visible_agent lookup insert
lease_given = refl

lease_excludes_example :
    ((lease rival (gateway_run at_work leased_db)).1 ≡ none)
    × ((heartbeat rival (gateway_run at_work leased_db)).1 ≡ none)
lease_excludes_example =
    lease_excludes (take_job 1000) rival db leased_db leased_job 61000 at_work lease_given refl
      (omega arith) (omega arith) refl (λ e. ground (arith, eq_iff "agt_2" "agt_1")) (omega arith)

leases_refine_lock_example :
    LockPath
      (lock_view (lookup "job" (gateway_run contested leased_db).jobs))
      1000
      (("agt_1", 20000) ∷ ("agt_2", 30000) ∷ [])
      (lock_view (lookup "job" leased_db.jobs))
    × Promised 1000 30000
        (lock_view (lookup "job" leased_db.jobs))
        (lock_view (lookup "job" (gateway_run contested leased_db).jobs))
leases_refine_lock_example =
    leases_refine_lock contested 1000 "job" leased_db (omega arith, (omega arith, tt))

abbrev worked_job : AgentJob
worked_job = extended (take_job 20000) leased_job

ends_by : EndsBy 80000 (lookup "job" leased_db.jobs)
unfolding lookup
ends_by = λ ends e. ground arith

run-EndsBy_example : EndsBy 80000 (lookup "job" (gateway_run at_work leased_db).jobs)
run-EndsBy_example = run-EndsBy at_work 20000 "job" leased_db (omega arith, (tt, tt)) ends_by

still_works : can_work "tenant" "agt_1" "env" (gateway_run at_work leased_db) ≡ true
unfolding can_work visible_agent visible_job heartbeat next_control_sequence lookup insert
still_works = refl

still_visible : visible_job (take_job 80000) (gateway_run at_work leased_db) ≡ some worked_job
unfolding can_work visible_agent visible_job heartbeat next_control_sequence lookup insert
still_visible = refl

abbrev by_text : String → String → Bool
by_text x y = true

lease_recovered_example :
    (is_present (poll by_text (lookup_for (take_job 80000)) (gateway_run at_work leased_db)) ≡ true)
    × ((lease (take_job 80000) (gateway_run at_work leased_db)).1
        ≡ some (leased (take_job 80000) worked_job))
lease_recovered_example =
    lease_recovered by_text at_work 20000 (take_job 80000) leased_db worked_job
      (omega arith, (tt, tt)) ends_by (omega arith) still_works still_visible refl

abbrev poll_message : AgentMessage
poll_message = record {
  protocol_version = "1.0";
  message_type = "agent.poll";
  message_id = "msg_1";
  key_id = "k1";
  environment_id = "env";
  agent_id = "agt_1";
  direction = agent_to_control;
  sequence = "7";
  sent_at = some 400000;
  payload = object (natural 1000) other_value;
  signature = "sig";
}

abbrev empty_db : GatewayDb
empty_db = db_with []

abbrev identity : GatewayAgentIdentity
identity = identity_of (λ key. "k1") "agt_1" the_agent "tenant"

abbrev claim : ClaimAgentMessageInput
claim = claim_input poll_message identity 7 400100

abbrev authenticated_db : GatewayDb
authenticated_db = store_receipt claim the_agent empty_db

first_time : authenticate crypto poll_message 400100 empty_db ≡ (authenticated_db, ok identity)
unfolding authenticate check_message parse_sequence find_agent_identity verify_agent_message
    decode_canonical signing_bytes claim_agent_message visible_agent lookup insert
first_time = refl

seven : parse_sequence "7" ≡ ok 7
unfolding parse_sequence
seven = refl

authenticated_once_example :
    Authentic crypto poll_message 400100 7 empty_db identity
    × ((authenticate crypto poll_message 400200 (gateway_run at_work authenticated_db)).1
        ≢ ok identity)
authenticated_once_example =
    authenticated_once crypto poll_message poll_message 400100 400200 7 7 empty_db authenticated_db
      identity identity at_work first_time seven seven refl (inl refl)

abbrev route_input : RouteInput
route_input = record {
  crypto = crypto;
  received_at = 400100;
  claimed_at = 400101;
  looked_at = 400102;
  sent_at = 400103;
  message_id = "msg_c";
  control_key_id = "control";
  sign_control = λ m. "signature";
}

abbrev polling_session : AgentTransportInput
polling_session = polling_input identity "msg_1" 400101

abbrev entered_db : GatewayDb
entered_db = record authenticated_db { sessions = ("agt_1", session_of polling_session none) ∷ [] }

abbrev other_session : AgentTransportInput
other_session = record polling_session { transport = websocket; session_id = "challenge" }

was_parsed : parsed_for_poll (some poll_message) ≡ ok (poll_message, suc 999)
unfolding parse_message parse_poll_payload
was_parsed = refl

has_entered : enter route_input poll_message empty_db ≡ (entered_db, ok identity)
unfolding enter authenticate check_message parse_sequence find_agent_identity verify_agent_message
    decode_canonical signing_bytes claim_agent_message visible_agent lookup insert
    claim_polling_transport claim_transport is_transport_active store_receipt
has_entered = refl

no_job : poll by_text (job_lookup identity 400102) entered_db ≡ none
unfolding poll can_work visible_agent first_waiting lookup store_receipt insert
no_job = refl

was_opened :
    is_transport_active other_session (gateway_run (opens other_session ∷ []) entered_db) ≡ true
unfolding claim_transport is_transport_active visible_agent lookup store_receipt insert
was_opened = refl

poll_superseded_example :
    poll_route by_text route_input (some poll_message) (opens other_session ∷ []) 401103 empty_db
    ≡ (gateway_run (opens other_session ∷ []) entered_db, err (refused auth_replay_detected))
poll_superseded_example =
    poll_superseded by_text route_input (some poll_message) poll_message 999 401103 empty_db
      entered_db identity other_session [] [] was_parsed has_entered no_job refl
      (λ e. ground (arith, eq_iff "challenge" "msg_1")) was_opened tt
