-- ===== src/Gateway/Authenticate.antt =====
-- `AgentMessageAuthenticator` and `verifyAgentMessage` of message-signer.ts, on the database's
-- repository. The reading of base64url, the canonical bytes of a message and the verification of an
-- Ed25519 signature are parameters; each of them may throw, which is `none`, or false.
use forget_ops.Gateway.Data.{
  ClaimAgentMessageInput, ClaimResult, GatewayAgentIdentity, GatewayDb, accepted,
  environment_mismatch, is_revoked_status, not_found, replay, revoked_agent,
}
use forget_ops.Gateway.Messages.{claim_agent_message, find_agent_identity}
use forget_ops.Prelude.{
  Bool, List, Option, Outcome, String, [], all, char_codes, err, false, if◌then◌else◌, leb, length,
  ltb, nat_beq, nat_strict, none, not, ok, reject_if, require, some, string_strict, true, ℕ, ◌&&◌,
  ◌*◌, ◌++◌, ◌+◌, ◌-◌, ◌==◌, ◌>>=◌, ◌>>◌, ◌||◌, ◌∷◌,
}
use forget_ops.PrivacyRequest.Status.{status_strict}

pub data Direction : Type 0 where
  control_to_agent agent_to_control : Direction

-- A field of a payload: a natural number, a text, or any other value, also one that is missing.
pub data JsonField : Type 0 where
  natural : ℕ → JsonField
  words : String → JsonField
  other_value : JsonField

-- What the routes read of a payload, which is an object or is not.
pub data Payload : Type 0 where
  not_object : Payload
  object : (wait_ms job_id : JsonField) → Payload

-- `sent_at` is what `Date.parse` gives, none for NaN.
pub record AgentMessage : Type 0 where
  pub protocol_version : String
  pub message_type : String
  pub message_id : String
  pub key_id : String
  pub environment_id : String
  pub agent_id : String
  pub direction : Direction
  pub sequence : String
  pub sent_at : Option ℕ
  pub payload : Payload
  pub signature : String

pub data AuthError : Type 0 where
  auth_signature_invalid auth_agent_revoked auth_environment_mismatch : AuthError
  auth_replay_detected protocol_version_unsupported : AuthError

abbrev pub message_freshness_ms : ℕ
message_freshness_ms = 5 * 60 * 1000

abbrev pub max_u64 : ℕ
max_u64 = 18446744073709551615

abbrev pub is_digit : ℕ → Bool
is_digit c = leb 48 c && leb c 57

-- `BigInt` of decimal digits, from a value on.
abbrev pub decimal_from : ℕ → List ℕ → ℕ
decimal_from value [] = value
decimal_from value (c ∷ cs) = decimal_from (value * 10 + (c - 48)) cs

-- `/^[1-9]\d{0,19}$/`
abbrev pub is_sequence : List ℕ → Bool
is_sequence [] = false
is_sequence (c ∷ cs) = leb 49 c && leb c 57 && all is_digit cs && leb (length cs) 19

unfoldable pub parse_sequence : String → Outcome AuthError ℕ
parse_sequence value = do
  reject_if (not (is_sequence (char_codes value))) auth_replay_detected
  reject_if (ltb max_u64 (decimal_from 0 (char_codes value))) auth_replay_detected
  ok (decimal_from 0 (char_codes value))

-- The packages' functions.
pub record GatewayCrypto : Type 0 where
  pub decode_base64url : String → List ℕ
  pub encode_base64url : List ℕ → String
  pub canonical_message : AgentMessage → Option (List ℕ)
  pub verify_ed25519 : List ℕ → List ℕ → List ℕ → Bool
  pub key_id_for : String → String

-- `/^[A-Za-z0-9_-]+$/`
abbrev pub is_base64url_char : ℕ → Bool
is_base64url_char c =
    leb 65 c && leb c 90 || leb 97 c && leb c 122 || is_digit c || nat_beq c 95 || nat_beq c 45

abbrev pub is_base64url : List ℕ → Bool
is_base64url [] = false
is_base64url (c ∷ cs) = is_base64url_char c && all is_base64url_char cs

unfoldable pub decode_canonical : GatewayCrypto → String → Option (List ℕ)
decode_canonical k value =
    if not (is_base64url (char_codes value))
    then none
    else if k.encode_base64url (k.decode_base64url value) == value
    then some (k.decode_base64url value)
    else none

-- `agentMessageSigningBytes`
unfoldable pub signing_bytes : GatewayCrypto → AgentMessage → Option (List ℕ)
signing_bytes k m = elim (k.canonical_message m) [
  | none ↦ none
  | some bytes ↦ some (char_codes "forgetops.agent-message.v1" ++ 0 ∷ bytes)
]

abbrev pub verified : GatewayCrypto → Option (List ℕ) → Option (List ℕ) → Option (List ℕ) → Bool
verified k (some bytes) (some key) (some signature) =
    nat_beq (length key) 32 && nat_beq (length signature) 64 && k.verify_ed25519 bytes key signature
verified k _ _ _ = false

unfoldable pub verify_agent_message : GatewayCrypto → AgentMessage → String → Bool
verify_agent_message k m public_key =
    verified k (signing_bytes k m) (decode_canonical k public_key) (decode_canonical k m.signature)

-- Not a number, or further than five minutes from the time of receipt, on either side.
abbrev pub is_stale : Option ℕ → ℕ → Bool
is_stale none received_at = true
is_stale (some sent) received_at =
    ltb message_freshness_ms (received_at - sent) || ltb message_freshness_ms (sent - received_at)

abbrev pub is_from_agent : Direction → Bool
is_from_agent agent_to_control = true
is_from_agent control_to_agent = false

abbrev pub claim_input : AgentMessage → GatewayAgentIdentity → ℕ → ℕ → ClaimAgentMessageInput
claim_input m a sequence received_at = record {
  tenant_id = a.tenant_id;
  agent_id = m.agent_id;
  environment_id = m.environment_id;
  message_id = m.message_id;
  sequence = sequence;
  received_at = received_at;
}

-- The checks before the claim: the claim to make, and the agent that makes it.
unfoldable pub check_message :
    GatewayCrypto
    → AgentMessage
    → ℕ
    → GatewayDb
    → Outcome AuthError (ClaimAgentMessageInput × GatewayAgentIdentity)
check_message k m received_at db = do
  reject_if (not (m.protocol_version == "1.0")) protocol_version_unsupported
  reject_if (is_stale m.sent_at received_at) auth_signature_invalid
  sequence ← parse_sequence m.sequence
  a ← require (find_agent_identity k.key_id_for m.agent_id db) auth_signature_invalid
  reject_if
      (not (m.key_id == a.signing_key_id)
        || not (is_from_agent m.direction)
        || not (verify_agent_message k m a.public_signing_key))
      auth_signature_invalid
  reject_if (not (a.protocol_version == m.protocol_version)) protocol_version_unsupported
  reject_if (not (a.environment_id == m.environment_id)) auth_environment_mismatch
  reject_if (is_revoked_status a.status) auth_agent_revoked
  ok (claim_input m a sequence received_at, a)

abbrev pub answer_claim :
    GatewayAgentIdentity → ClaimResult → Outcome AuthError GatewayAgentIdentity
answer_claim a accepted = ok a
answer_claim a environment_mismatch = err auth_environment_mismatch
answer_claim a revoked_agent = err auth_agent_revoked
answer_claim a replay = err auth_replay_detected
answer_claim a not_found = err auth_signature_invalid

abbrev pub after_checks :
    Outcome AuthError (ClaimAgentMessageInput × GatewayAgentIdentity)
    → GatewayDb
    → GatewayDb × Outcome AuthError GatewayAgentIdentity
after_checks (err e) db = (db, err e)
after_checks (ok (input, a)) db =
    let claimed = claim_agent_message input db in (claimed.0, answer_claim a claimed.1)

unfoldable pub authenticate :
    GatewayCrypto
    → AgentMessage
    → ℕ
    → GatewayDb
    → GatewayDb × Outcome AuthError GatewayAgentIdentity
authenticate k m received_at db = after_checks (check_message k m received_at db) db
