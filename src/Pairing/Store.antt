-- ===== src/Pairing/Store.antt =====
-- `InMemoryPairingRepository`, and how `PairingService.createToken` fills in a token. A throw comes
-- before any write, so an error comes with no new store. `issueToken` reads nothing before its wait
-- for the hierarchy store, so that it is one step; `consumeAndPair` is two (Consume).
use forget_ops.Pairing.Data.{
  AgentRecord, AgentStatus, CreatePairingTokenInput, PairingError, PairingTokenRecord,
  PersistPairingTokenInput, ReplacementMode, agent_not_found, drain, none_mode, resource_not_found,
  revoked,
}
use forget_ops.Prelude.{
  Bool, List, Option, Outcome, String, [], false, get_or, if◌then◌else◌, insert, is_some_text,
  lookup, nat_strict, none, not, ok, reject_if, require, set_add, some, string_strict, true, ℕ,
  ◌&&◌, ◌*◌, ◌+◌, ◌==◌, ◌>>=◌, ◌>>◌, ◌∷◌,
}
use forget_ops.PrivacyRequest.Status.{status_strict}

-- `hierarchy` answers with the subject hash key version of an environment of a tenant, if there is
-- one; the constructor may leave it out.
pub record PairingStore : Type 0 where
  pub tokens : List (String × PairingTokenRecord)
  pub agents : List (String × AgentRecord)
  pub agent_tenants : List (String × String)
  pub subject_envelope_requests : List (String × List String)
  pub running_attempt_requests : List (String × List String)
  pub request_statuses : List (String × String)
  pub pending_ciphertexts : List (String × (String × String))
  pub hierarchy : Option (String → String → Option ℕ)

abbrev pub pairing_token_ttl_ms : ℕ
pairing_token_ttl_ms = 15 * 60 * 1000

abbrev pub mode_by_flag : Option Bool → ReplacementMode
mode_by_flag (some true) = drain
mode_by_flag _ = none_mode

unfoldable pub resolve_replacement_mode : CreatePairingTokenInput → ReplacementMode
resolve_replacement_mode input = elim input.replacement_mode [
  | some mode ↦ mode
  | none ↦ mode_by_flag input.allow_replacement
]

abbrev pub replaces : ReplacementMode → Bool
replaces none_mode = false
replaces _ = true

-- The token that `createToken` persists, given its id and the hash of its text.
unfoldable pub new_token :
    CreatePairingTokenInput → String → String → ℕ → ℕ → PersistPairingTokenInput
unfolding resolve_replacement_mode
new_token input id token_hash now ttl = record {
  id = id;
  tenant_id = input.tenant_id;
  environment_id = input.environment_id;
  token_hash = token_hash;
  replacement_mode = resolve_replacement_mode input;
  allow_replacement = replaces (resolve_replacement_mode input);
  created_by_actor_id = input.actor_id;
  created_at = now;
  expires_at = now + ttl;
}

-- `(await hierarchy.getEnvironment(tenant, environment))`, where there is a hierarchy.
abbrev pub environment_version : PairingStore → String → String → Option ℕ → Option ℕ
environment_version s tenant environment otherwise = elim s.hierarchy [
  | none ↦ otherwise
  | some h ↦ h tenant environment
]

unfoldable pub issue_token :
    PersistPairingTokenInput → PairingStore → Outcome PairingError PairingStore
issue_token input s = do
  version ←
      require (environment_version s input.tenant_id input.environment_id (some 0))
        resource_not_found
  ok (record s {
    tokens = insert input.token_hash (record { issued = input; consumed_at = none }) s.tokens;
  })

abbrev pub requests_of : String → List (String × List String) → List String
requests_of environment m = get_or (lookup environment m) []

unfoldable pub add_environment_request :
    List (String × List String) → String → String → List (String × List String)
add_environment_request m environment request =
    insert environment (set_add (requests_of environment m) request) m

unfoldable pub mark_subject_envelope_active : String → String → PairingStore → PairingStore
mark_subject_envelope_active environment request s = record s {
  subject_envelope_requests =
      add_environment_request s.subject_envelope_requests environment request;
}

unfoldable pub mark_attempt_running : String → String → PairingStore → PairingStore
mark_attempt_running environment request s = record s {
  running_attempt_requests = add_environment_request s.running_attempt_requests environment request;
}

unfoldable pub add_pending_ciphertext : String → String → String → PairingStore → PairingStore
add_pending_ciphertext agent job ciphertext s = record s {
  pending_ciphertexts = insert job (agent, ciphertext) s.pending_ciphertexts;
}

unfoldable pub find_token : String → PairingStore → Option PairingTokenRecord
find_token token_hash s = lookup token_hash s.tokens

abbrev pub is_revoked : AgentStatus → Bool
is_revoked revoked = true
is_revoked _ = false

-- An agent of the environment that is not revoked.
abbrev pub is_active_in : String → AgentRecord → Bool
is_active_in environment a = a.environment_id == environment && not (is_revoked a.status)

unfoldable pub find_active : String → List (String × AgentRecord) → Option AgentRecord
find_active environment [] = none
find_active environment ((id, a) ∷ rest) =
    if is_active_in environment a then some a else find_active environment rest

unfoldable pub find_agent : String → String → PairingStore → Option AgentRecord
find_agent tenant agent s =
    if is_some_text (lookup agent s.agent_tenants) tenant then lookup agent s.agents else none

unfoldable pub revoke_in : AgentRecord → List (String × AgentRecord) → List (String × AgentRecord)
revoke_in a = insert a.id (record a { status = revoked })

unfoldable pub revoke_agent : String → String → PairingStore → Outcome PairingError PairingStore
revoke_agent tenant agent s = do
  reject_if (not (is_some_text (lookup agent s.agent_tenants) tenant)) agent_not_found
  a ← require (lookup agent s.agents) agent_not_found
  ok (
      if is_revoked a.status
      then s
      else record s { agents = insert agent (record a { status = revoked }) s.agents })
