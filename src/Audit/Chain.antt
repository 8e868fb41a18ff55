-- ===== src/Audit/Chain.antt =====
-- packages/domain/src/audit/canonical-event.ts and hash-chain.ts. `canonicalize`, with its text as
-- UTF-8 bytes, SHA-256 in hexadecimal and the reading of hexadecimal are parameters, and so is the
-- type of the metadata.
use forget_ops.Prelude.{
  Bool, List, Option, Outcome, String, [], char_codes, false, if◌then◌else◌, is_empty, length,
  nat_beq, nat_strict, none, not, ok, reject_if, require, some, string_strict, true, ℕ, ◌++◌, ◌==◌,
  ◌>>=◌, ◌>>◌, ◌||◌, ◌∷◌,
}
use forget_ops.PrivacyRequest.Status.{status_strict}

pub data ActorType : Type 0 where
  user_actor agent_actor system_actor : ActorType

pub record AuditEvent (Metadata : Type 0) : Type 0 where
  pub id : String
  pub tenant_id : String
  pub environment_id : String
  pub sequence : String
  pub request_id : Option String
  pub actor_type : ActorType
  pub actor_id : String
  pub action : String
  pub metadata : Metadata
  pub created_at : String

pub record CanonicalAuditEvent (Metadata : Type 0) : Type 0 where
  pub content : AuditEvent Metadata
  pub previous_event_hash : Option String
  pub event_hash : String

pub data AuditError : Type 0 where
  audit_event_not_canonical audit_previous_hash_invalid : AuditError

-- `{ valid: true }`, or `{ valid: false, brokenAt }`.
pub data ChainCheck : Type 0 where
  valid : ChainCheck
  broken_at : String → ChainCheck

abbrev pub audit_hash_context : String
audit_hash_context = "forgetops.audit-event.v1"

-- `event.previousEventHash === previous`
abbrev pub same_hash : Option String → Option String → Bool
same_hash none none = true
same_hash (some x) (some y) = x == y
same_hash _ _ = false

-- An absent hash and the empty text are false.
abbrev pub has_hash : Option String → Bool
has_hash none = false
has_hash (some x) = not (is_empty x)

abbrev pub bytes_of_hash : (String → List ℕ) → Option String → List ℕ
bytes_of_hash hex_bytes none = []
bytes_of_hash hex_bytes (some x) = if is_empty x then [] else hex_bytes x

module _ {Metadata : Type 0} (canonicalize : AuditEvent Metadata → Option (List ℕ))
    (hex_bytes : String → List ℕ) (sha256_hex : List ℕ → String) where
  unfoldable pub canonical_audit_event_bytes : AuditEvent Metadata → Outcome AuditError (List ℕ)
  canonical_audit_event_bytes event = require (canonicalize event) audit_event_not_canonical

  unfoldable pub audit_event_hash : Option String → AuditEvent Metadata → Outcome AuditError String
  unfolding canonical_audit_event_bytes
  audit_event_hash previous event = do
    let bytes = bytes_of_hash hex_bytes previous
    reject_if (not (nat_beq (length bytes) (if has_hash previous then 32 else 0)))
        audit_previous_hash_invalid
    canonical ← canonical_audit_event_bytes event
    ok (sha256_hex (char_codes audit_hash_context ++ 0 ∷ bytes ++ canonical))

  -- The loop of `verifyChain`, from a previous hash on.
  unfoldable pub verify_from :
      Option String → List (CanonicalAuditEvent Metadata) → Outcome AuditError ChainCheck
  unfolding audit_event_hash
  verify_from previous [] = ok valid
  verify_from previous (event ∷ chain) =
      let rest = verify_from (some event.event_hash) chain in
      audit_event_hash previous event.content >>= λ expected.
      if not (same_hash event.previous_event_hash previous) || not (event.event_hash == expected)
      then ok (broken_at event.content.id)
      else rest

  unfoldable pub verify_chain : List (CanonicalAuditEvent Metadata) → Outcome AuditError ChainCheck
  verify_chain = verify_from none

  -- The `map` of `buildChain`, from a previous hash on.
  unfoldable pub build_from :
      Option String
      → List (AuditEvent Metadata)
      → Outcome AuditError (List (CanonicalAuditEvent Metadata))
  build_from previous [] = ok []
  build_from previous (event ∷ events) = do
    event_hash ← audit_event_hash previous event
    chain ← build_from (some event_hash) events
    ok (record { content = event; previous_event_hash = previous; event_hash = event_hash } ∷ chain)

  unfoldable pub build_chain :
      List (AuditEvent Metadata) → Outcome AuditError (List (CanonicalAuditEvent Metadata))
  build_chain = build_from none
