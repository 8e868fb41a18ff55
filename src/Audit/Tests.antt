-- ===== src/Audit/Tests.antt =====
-- A chain of two events, with stand-ins for the packages' functions.
use forget_ops.Audit.Chain.{
  AuditEvent, CanonicalAuditEvent, audit_event_hash, build_chain, build_from,
  canonical_audit_event_bytes, system_actor, valid, verify_chain,
}
use forget_ops.Audit.Laws.{build_chain-verify_chain, contents}
use forget_ops.Prelude.{
  List, Option, String, [], char_codes, none, ok, refl, some, suc, zero, ℕ, ◌∷◌, ◌≡◌,
}

abbrev event : String → AuditEvent String
event id = record {
  id = id;
  tenant_id = "tenant";
  environment_id = "environment";
  sequence = "1";
  request_id = none;
  actor_type = system_actor;
  actor_id = "api";
  action = "RequestCreated";
  metadata = "{}";
  created_at = "2026-01-01T00:00:00.000Z";
}

abbrev id_bytes : AuditEvent String → Option (List ℕ)
id_bytes e = some (char_codes e.id)

abbrev zeros : ℕ → List ℕ
zeros zero = []
zeros (suc n) = 0 ∷ zeros n

abbrev no_bytes : String → List ℕ
no_bytes hash = zeros 32

abbrev one_digest : List ℕ → String
one_digest bytes = "digest"

abbrev chain : List (CanonicalAuditEvent String)
chain =
    record { content = event "a"; previous_event_hash = none; event_hash = "digest" }
    ∷ record { content = event "b"; previous_event_hash = some "digest"; event_hash = "digest" }
    ∷ []

built : build_chain id_bytes no_bytes one_digest (event "a" ∷ event "b" ∷ []) ≡ ok chain
unfolding build_chain build_from audit_event_hash canonical_audit_event_bytes
built = refl

build_chain-verify_chain_example :
    (verify_chain id_bytes no_bytes one_digest chain ≡ ok valid)
    × (contents chain ≡ event "a" ∷ event "b" ∷ [])
build_chain-verify_chain_example =
    build_chain-verify_chain id_bytes no_bytes one_digest (event "a" ∷ event "b" ∷ []) chain built
