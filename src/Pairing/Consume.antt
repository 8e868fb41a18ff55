-- ===== src/Pairing/Consume.antt =====
-- `InMemoryPairingRepository.consumeAndPair`.
use forget_ops.Pairing.Data.{
  AgentRecord, AgentRegistration, ConsumeAndPairInput, PairingError, PairingTokenRecord,
  ReplacementMode, agent_already_active, drain, force, invalid_agent_key, none_mode, pairing,
  replacement_blocked_active_work, replacement_requires_owner_confirmation, token_invalid,
}
use forget_ops.Pairing.Store.{
  PairingStore, environment_version, find_active, requests_of, revoke_in,
}
use forget_ops.Prelude.{
  Bool, List, Outcome, String, [], erase, false, if◌then◌else◌, insert, is_present, leb, length,
  lookup, ltb, nat_beq, nat_strict, none, not, ok, reject_if, require, set_from, some,
  string_strict, true, ◌&&◌, ◌++◌, ◌==◌, ◌>>=◌, ◌>>◌, ◌||◌, ◌∷◌,
}
use forget_ops.PrivacyRequest.Status.{status_strict}

-- `consumeAndPair` up to its wait for the hierarchy store.
unfoldable pub check_token :
    ConsumeAndPairInput → PairingStore → Outcome PairingError PairingTokenRecord
check_token input s = do
  token ← require (lookup input.token_hash s.tokens) token_invalid
  reject_if (is_present token.consumed_at || leb token.expires_at input.now) token_invalid
  reject_if (not (token.environment_id == input.registration.environment_id)) token_invalid
  ok token

-- What the answer of the hierarchy store is held against.
unfoldable pub check_version :
    ConsumeAndPairInput → PairingTokenRecord → PairingStore → Outcome PairingError (Unit {0})
check_version input token s = do
  version ←
      require
        (environment_version s token.tenant_id token.environment_id
          (some input.registration.subject_hmac_key_version))
        invalid_agent_key
  reject_if (not (nat_beq version input.registration.subject_hmac_key_version)) invalid_agent_key

abbrev pub is_none_mode : ReplacementMode → Bool
is_none_mode none_mode = true
is_none_mode _ = false

abbrev pub is_drain : ReplacementMode → Bool
is_drain drain = true
is_drain _ = false

abbrev pub is_force : ReplacementMode → Bool
is_force force = true
is_force _ = false

-- `new Set([...envelopes, ...attempts])` of the environment.
unfoldable pub affected_requests : String → PairingStore → List String
affected_requests environment s = set_from [] (
    requests_of environment s.subject_envelope_requests
    ++ requests_of environment s.running_attempt_requests)

unfoldable pub set_needs_review : List String → List (String × String) → List (String × String)
set_needs_review [] m = m
set_needs_review (request ∷ rest) m = set_needs_review rest (insert request "needs_review" m)

unfoldable pub without_agent :
    String → List (String × (String × String)) → List (String × (String × String))
without_agent agent [] = []
without_agent agent ((job, (owner, ciphertext)) ∷ rest) =
    if owner == agent
    then without_agent agent rest
    else (job, (owner, ciphertext)) ∷ without_agent agent rest

-- What a forced replacement does to the work of the environment.
unfoldable pub force_out : String → AgentRecord → PairingStore → PairingStore
force_out environment active s = record s {
  request_statuses = set_needs_review (affected_requests environment s) s.request_statuses;
  subject_envelope_requests = erase environment s.subject_envelope_requests;
  running_attempt_requests = erase environment s.running_attempt_requests;
  pending_ciphertexts = without_agent active.id s.pending_ciphertexts;
}

unfoldable pub replace_active :
    PairingTokenRecord
    → AgentRegistration
    → AgentRecord
    → PairingStore
    → Outcome PairingError PairingStore
replace_active token registration active s = do
  reject_if (active.public_signing_key == registration.public_signing_key) agent_already_active
  reject_if (is_none_mode token.replacement_mode) replacement_requires_owner_confirmation
  reject_if
      (is_drain token.replacement_mode && ltb 0 (length (affected_requests token.environment_id s)))
      replacement_blocked_active_work
  let s' = if is_force token.replacement_mode then force_out token.environment_id active s else s
  ok (record s' { agents = revoke_in active s'.agents })

unfoldable pub replace_if_active :
    PairingTokenRecord → AgentRegistration → PairingStore → Outcome PairingError PairingStore
unfolding replace_active
replace_if_active token registration s = elim (find_active token.environment_id s.agents) [
  | none ↦ ok s
  | some active ↦ replace_active token registration active s
]

-- The agent's id is `agt_` and a random UUID.
unfoldable pub new_agent : String → PairingTokenRecord → ConsumeAndPairInput → AgentRecord
new_agent id token input =
    let r = input.registration in
    record {
      id = id;
      environment_id = token.environment_id;
      public_signing_key = r.public_signing_key;
      public_encryption_key = r.public_encryption_key;
      signing_key_id = r.signing_key_id;
      encryption_key_id = r.encryption_key_id;
      subject_hmac_key_version = r.subject_hmac_key_version;
      version = r.version;
      protocol_version = r.protocol_version;
      instance_fingerprint = r.instance_fingerprint;
      status = pairing;
      last_seen_at = none;
      last_sequence = "0";
      created_at = input.now;
    }

unfoldable pub admit_agent :
    String → PairingTokenRecord → ConsumeAndPairInput → PairingStore → PairingStore
admit_agent id token input s = record s {
  tokens = insert input.token_hash (record token { consumed_at = some input.now }) s.tokens;
  agents = insert id (new_agent id token input) s.agents;
  agent_tenants = insert id token.tenant_id s.agent_tenants;
}

-- `consumeAndPair` from there on, on the store as it is by then, with the token that was found before:
-- that it is not consumed is not looked at again.
unfoldable pub finish_pairing :
    String
    → ConsumeAndPairInput
    → PairingTokenRecord
    → PairingStore
    → Outcome PairingError (PairingStore × AgentRecord)
finish_pairing id input token s = do
  check_version input token s
  s' ← replace_if_active token input.registration s
  ok (admit_agent id token input s', new_agent id token input)

-- A call during whose wait nothing else happens.
unfoldable pub consume_and_pair :
    String → ConsumeAndPairInput → PairingStore → Outcome PairingError (PairingStore × AgentRecord)
consume_and_pair id input s = do token ← check_token input s; finish_pairing id input token s
