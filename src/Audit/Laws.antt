-- ===== src/Audit/Laws.antt =====
-- Built chains are valid, and hold the events they were built of.
use forget_ops.Audit.Chain.{
  AuditEvent, CanonicalAuditEvent, audit_event_hash, build_chain, build_from, same_hash, valid,
  verify_chain, verify_from,
}
use forget_ops.Prelude.{
  List, Option, Outcome-cases, String, [], arith, eq_refl, inl, inr, none, ok, refl, some, true, ℕ,
  ◌∷◌, ◌≡◌,
}

same_hash_refl : (h : Option String) → same_hash h h ≡ true
same_hash_refl none = refl
same_hash_refl (some x) = eq_refl x

abbrev pub contents :
    {Metadata : Type 0} → List (CanonicalAuditEvent Metadata) → List (AuditEvent Metadata)
contents [] = []
contents (event ∷ chain) = event.content ∷ contents chain

module _ {Metadata : Type 0} (canonicalize : AuditEvent Metadata → Option (List ℕ))
    (hex_bytes : String → List ℕ) (sha256_hex : List ℕ → String) where
  build_from-verify_from :
      (previous : Option String) (events : List (AuditEvent Metadata))
      (chain : List (CanonicalAuditEvent Metadata))
      → build_from canonicalize hex_bytes sha256_hex previous events ≡ ok chain
      → (verify_from canonicalize hex_bytes sha256_hex previous chain ≡ ok valid)
        × (contents chain ≡ events)
  unfolding build_from verify_from
  build_from-verify_from previous [] chain h = (ground arith, ground arith)
  build_from-verify_from previous (event ∷ events) chain h =
      elim (Outcome-cases (audit_event_hash canonicalize hex_bytes sha256_hex previous event)) [
        | inr (e, bad) ↦ absurd (ground arith)
        | inl (hash, hashed) ↦
            elim (Outcome-cases (build_from canonicalize hex_bytes sha256_hex (some hash) events)) [
              | inr (e, bad) ↦ absurd (ground arith)
              | inl (rest, built) ↦
                  let whole : CanonicalAuditEvent Metadata = record {
                    content = event;
                    previous_event_hash = previous;
                    event_hash = hash;
                  } in
                  let shape : chain ≡ whole ∷ rest = ground arith in
                  let later = build_from-verify_from (some hash) events rest built in
                  (
                    rw (shape, hashed, same_hash_refl previous, eq_refl hash) later.0,
                    rw (shape, later.1) refl,
                  )
            ]
      ]

  -- A chain that is built of events passes the check as valid, and holds those events in their
  -- order.
  pub build_chain-verify_chain :
      (events : List (AuditEvent Metadata)) (chain : List (CanonicalAuditEvent Metadata))
      → build_chain canonicalize hex_bytes sha256_hex events ≡ ok chain
      → (verify_chain canonicalize hex_bytes sha256_hex chain ≡ ok valid)
        × (contents chain ≡ events)
  unfolding build_chain verify_chain
  build_chain-verify_chain events chain h = build_from-verify_from none events chain h
