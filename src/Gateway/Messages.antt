-- ===== src/Gateway/Messages.antt =====
-- `findAgentIdentity`, `claimAgentMessage` and `nextControlSequence`.
use forget_ops.Gateway.Data.{
  ClaimAgentMessageInput, ClaimResult, GatewayAgent, GatewayAgentIdentity, GatewayDb,
  MessageReceipt, accepted, environment_mismatch, is_available_status, is_revoked_status, not_found,
  replay, revoked_agent, visible_agent,
}
use forget_ops.Prelude.{
  Bool, Option, String, any, get_or, if◌then◌else◌, insert, is_some_text, leb, lookup, nat_beq,
  nat_strict, none, not, some, string_strict, ℕ, ◌&&◌, ◌+◌, ◌==◌, ◌||◌, ◌∷◌,
}
use forget_ops.PrivacyRequest.Status.{status_strict}

-- `toIdentity`, where the row has its tenant. The id of a key without one is computed from the key
-- by `keyIdForPublicKey`, a parameter here.
abbrev pub identity_of : (String → String) → String → GatewayAgent → String → GatewayAgentIdentity
identity_of key_id_for id a tenant = record {
  agent_id = id;
  tenant_id = tenant;
  environment_id = a.environment_id;
  public_signing_key = a.public_signing_key;
  signing_key_id = get_or a.signing_key_id (key_id_for a.public_signing_key);
  protocol_version = a.protocol_version;
  status = a.status;
}

-- `lookup_agent_identity` sees the agents of all tenants.
unfoldable pub find_agent_identity :
    (String → String) → String → GatewayDb → Option GatewayAgentIdentity
find_agent_identity key_id_for id db = elim (lookup id db.agents) [
  | none ↦ none
  | some a ↦ elim (lookup a.environment_id db.environment_tenants) [
    | none ↦ none
    | some tenant ↦ some (identity_of key_id_for id a tenant)
  ]
]

-- `where agent_id = … and (message_id = … or sequence = …)`
abbrev pub is_receipt_of : ClaimAgentMessageInput → MessageReceipt → Bool
is_receipt_of input r =
    r.agent_id == input.agent_id
    && (r.message_id == input.message_id || nat_beq r.sequence input.sequence)

abbrev pub receipt_of : ClaimAgentMessageInput → MessageReceipt
receipt_of input = record {
  agent_id = input.agent_id;
  message_id = input.message_id;
  sequence = input.sequence;
  received_at = input.received_at;
}

unfoldable pub store_receipt : ClaimAgentMessageInput → GatewayAgent → GatewayDb → GatewayDb
store_receipt input a db = record db {
  receipts = receipt_of input ∷ db.receipts;
  agents =
      insert input.agent_id
        (record a { last_sequence = input.sequence; last_seen_at = some input.received_at })
        db.agents;
}

-- What the query's row says: the tenant of the agent is that of its environment.
unfoldable pub claim_answer : ClaimAgentMessageInput → GatewayAgent → GatewayDb → ClaimResult
claim_answer input a db =
    if not (is_some_text (lookup a.environment_id db.environment_tenants) input.tenant_id)
      || not (a.environment_id == input.environment_id)
    then environment_mismatch
    else if is_revoked_status a.status
    then revoked_agent
    else if leb input.sequence a.last_sequence || any (is_receipt_of input) db.receipts
    then replay
    else accepted

abbrev pub store_if_accepted :
    ClaimResult → ClaimAgentMessageInput → GatewayAgent → GatewayDb → GatewayDb
store_if_accepted accepted input a db = store_receipt input a db
store_if_accepted _ input a db = db

unfoldable pub claim_agent_message : ClaimAgentMessageInput → GatewayDb → GatewayDb × ClaimResult
unfolding claim_answer store_receipt
claim_agent_message input db = elim (visible_agent input.tenant_id input.agent_id db) [
  | none ↦ (db, not_found)
  | some a ↦ let answer = claim_answer input a db in (store_if_accepted answer input a db, answer)
]

-- The next sequence of a message to the agent, or the error that it is unavailable.
unfoldable pub next_control_sequence : String → String → GatewayDb → Option (GatewayDb × ℕ)
next_control_sequence tenant agent db = elim (visible_agent tenant agent db) [
  | none ↦ none
  | some a ↦
      if is_available_status a.status
      then some (
        record db {
          agents =
              insert agent (record a { last_control_sequence = a.last_control_sequence + 1 })
                db.agents;
        },
        a.last_control_sequence + 1,
      )
      else none
]
