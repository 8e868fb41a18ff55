-- ===== src/Database/Chains.antt =====
-- The audit events of an environment stay a valid chain that ends at its head.
use forget_ops.Audit.Chain.{
  AuditEvent, CanonicalAuditEvent, audit_event_hash, same_hash, valid, verify_chain, verify_from,
}
use forget_ops.Database.AuditLog.{
  AuditEntry, append_audit_event, append_entry, audit_event, chained, entry_hash, first_head,
  open_head, write_entry,
}
use forget_ops.Database.Repository.{SaveInput, entry_of, persist_from}
use forget_ops.Database.Tables.{AuditHead, ChainCrypto, Metadata, Tables}
use forget_ops.Prelude.{
  Bool-cases, List, Option, Option-cases, Outcome-cases, String, [], append-nil, arith, eq_iff,
  eq_refl, if◌then◌else◌, inl, inr, insert, length, length-append, lookup, lookup-insert,
  nat_strict, none, ok, refl, some, string_strict, subst, sym, true, ℕ, ◌++◌, ◌+◌, ◌==◌, ◌∷◌, ◌≡◌,
}
use forget_ops.PrivacyRequest.Data.{DomainEvent}
use forget_ops.PrivacyRequest.Effect.{Aggregate}
use forget_ops.PrivacyRequest.Status.{status_strict}

abbrev pub events_of :
    String → List (CanonicalAuditEvent Metadata) → List (CanonicalAuditEvent Metadata)
events_of environment [] = []
events_of environment (e ∷ es) =
    if e.content.environment_id == environment
    then e ∷ events_of environment es
    else events_of environment es

abbrev pub last_hash : Option String → List (CanonicalAuditEvent Metadata) → Option String
last_hash previous [] = previous
last_hash previous (e ∷ es) = last_hash (some e.event_hash) es

abbrev pub HeadFits : Option AuditHead → List (CanonicalAuditEvent Metadata) → Type 0
HeadFits none es = es ≡ []
HeadFits (some h) es = (h.event_hash ≡ last_hash none es) × (h.sequence ≡ length es)

-- What the check of `hash-chain.ts` finds for the environment's events, and where its head stands.
pub record IsChained (k : ChainCrypto) (environment : String) (db : Tables) : Type 0 where
  pub checked :
      verify_chain k.canonicalize k.hex_bytes k.sha256_hex (events_of environment db.events)
      ≡ ok valid
  pub head_fits : HeadFits (lookup environment db.heads) (events_of environment db.events)

events_of-append :
    (environment : String) (es fs : List (CanonicalAuditEvent Metadata))
    → events_of environment (es ++ fs) ≡ events_of environment es ++ events_of environment fs
events_of-append environment [] fs = refl
events_of-append environment (e ∷ es) fs = ground (arith, events_of-append environment es fs)

last_hash-append :
    (previous : Option String) (es : List (CanonicalAuditEvent Metadata))
    (e : CanonicalAuditEvent Metadata)
    → last_hash previous (es ++ e ∷ []) ≡ some e.event_hash
last_hash-append previous [] e = refl
last_hash-append previous (x ∷ es) e = last_hash-append (some x.event_hash) es e

entry_hash-audit_event_hash :
    (k : ChainCrypto) (previous : Option String) (event : AuditEvent Metadata) (hash : String)
    → entry_hash k previous event ≡ ok hash
    → audit_event_hash k.canonicalize k.hex_bytes k.sha256_hex previous event ≡ ok hash
unfolding entry_hash audit_event_hash
entry_hash-audit_event_hash k previous event hash h = ground arith

same_hash_self : (h : Option String) → same_hash h h ≡ true
same_hash_self none = refl
same_hash_self (some x) = eq_refl x

verify-snoc :
    (k : ChainCrypto) (previous : Option String) (es : List (CanonicalAuditEvent Metadata))
    (e : CanonicalAuditEvent Metadata)
    → verify_from k.canonicalize k.hex_bytes k.sha256_hex previous es ≡ ok valid
    → e.previous_event_hash ≡ last_hash previous es
    → audit_event_hash k.canonicalize k.hex_bytes k.sha256_hex (last_hash previous es) e.content
      ≡ ok e.event_hash
    → verify_from k.canonicalize k.hex_bytes k.sha256_hex previous (es ++ e ∷ []) ≡ ok valid
unfolding verify_from
verify-snoc k previous [] e h p q =
    ground (arith, p, q, same_hash_self previous, eq_refl e.event_hash)
verify-snoc k previous (x ∷ es) e h p q = ground (arith, h, verify-snoc k (some x.event_hash) es e)

write-IsChained :
    (k : ChainCrypto) (e : AuditEntry) (head : AuditHead) (hash : String) (environment : String)
    (db : Tables)
    → lookup e.environment_id db.heads ≡ some head
    → entry_hash k head.event_hash (audit_event e (head.sequence + 1)) ≡ ok hash
    → IsChained k environment db
    → IsChained k environment (write_entry e head hash db)
unfolding write_entry verify_chain
write-IsChained k e head hash environment db there hashed c =
    let more = events_of-append environment db.events (chained e head hash ∷ []) in
    let heads =
      lookup-insert e.environment_id environment
        (record head { sequence = head.sequence + 1; event_hash = some hash }) db.heads in
    elim (Bool-cases (e.environment_id == environment)) [
      | inr differ ↦ record {
        checked = rw (more, differ, append-nil (events_of environment db.events)) c.checked;
        head_fits =
            rw (heads, more, differ, append-nil (events_of environment db.events)) c.head_fits;
      }
      | inl same ↦
          let here : lookup environment db.heads ≡ some head =
            subst (λ x. lookup x db.heads ≡ some head)
              ((eq_iff e.environment_id environment).0 same) there in
          let fits : HeadFits (some head) (events_of environment db.events) =
            subst (λ h. HeadFits h (events_of environment db.events)) here c.head_fits in
          let whole : events_of environment (db.events ++ chained e head hash ∷ [])
              ≡ events_of environment db.events ++ chained e head hash ∷ [] =
            rw (more, same) refl in
          record {
            checked = rw whole (
                verify-snoc k none (events_of environment db.events) (chained e head hash) c.checked
                  fits.0
                  (subst
                    (λ p.
                      audit_event_hash k.canonicalize k.hex_bytes k.sha256_hex p
                        (audit_event e (head.sequence + 1))
                      ≡ ok hash)
                    fits.0
                    (entry_hash-audit_event_hash k head.event_hash
                      (audit_event e (head.sequence + 1)) hash hashed)));
            head_fits =
                rw (heads, same, whole)
                  (
                    sym (
                        last_hash-append none (events_of environment db.events)
                          (chained e head hash)),
                    omega (
                      arith,
                      fits.1,
                      length-append (events_of environment db.events) (chained e head hash ∷ []),
                    ),
                  );
          }
    ]

append_entry-IsChained :
    (k : ChainCrypto) (e : AuditEntry) (environment : String) (db after : Tables)
    → append_entry k e db ≡ ok after
    → IsChained k environment db
    → IsChained k environment after
unfolding append_entry
append_entry-IsChained k e environment db after h c =
    elim (Option-cases (lookup e.environment_id db.heads)) [
      | inl absent ↦ absurd (ground arith)
      | inr (head, there) ↦
          elim (Outcome-cases (entry_hash k head.event_hash (audit_event e (head.sequence + 1)))) [
            | inr (failure, bad) ↦ absurd (ground arith)
            | inl (hash, hashed) ↦
                subst (IsChained k environment) (ground arith)
                  (write-IsChained k e head hash environment db there hashed c)
          ]
    ]

-- A first head fits, since an environment without one has no events.
first_head_fits :
    (tenant opened environment : String) (db : Tables)
    → lookup opened db.heads ≡ none
    → HeadFits (lookup environment db.heads) (events_of environment db.events)
    → HeadFits
        (lookup environment (insert opened (first_head tenant) db.heads))
        (events_of environment db.events)
first_head_fits tenant opened environment db absent fits =
    let heads = lookup-insert opened environment (first_head tenant) db.heads in
    elim (Bool-cases (opened == environment)) [
      | inr differ ↦ rw (heads, differ) fits
      | inl same ↦
          let none_there : events_of environment db.events ≡ [] =
            subst (λ h. HeadFits h (events_of environment db.events))
              (subst (λ x. lookup x db.heads ≡ none) ((eq_iff opened environment).0 same) absent)
              fits in
          rw (heads, same, none_there) (refl, refl)
    ]

pub open_head-IsChained :
    (k : ChainCrypto) (tenant opened environment : String) (db : Tables)
    → IsChained k environment db
    → IsChained k environment (open_head tenant opened db)
open_head-IsChained k tenant opened environment db c =
    elim (Option-cases (lookup opened db.heads)) [
      | inr (head, there) ↦ rw there c
      | inl absent ↦ rw absent (record {
        checked = c.checked;
        head_fits = first_head_fits tenant opened environment db absent c.head_fits;
      })
    ]

pub append_audit_event-IsChained :
    (k : ChainCrypto) (e : AuditEntry) (environment : String) (db after : Tables)
    → append_audit_event k e db ≡ ok after
    → IsChained k environment db
    → IsChained k environment after
unfolding append_audit_event
append_audit_event-IsChained k e environment db after h c =
    append_entry-IsChained k e environment (open_head e.tenant_id e.environment_id db) after h
      (open_head-IsChained k e.tenant_id e.environment_id environment db c)

pub persist_from-IsChained :
    (input : SaveInput) (a : Aggregate) (n : ℕ) (events : List DomainEvent) (environment : String)
    (db after : Tables)
    → persist_from input a n events db ≡ ok after
    → IsChained input.crypto environment db
    → IsChained input.crypto environment after
unfolding persist_from
persist_from-IsChained input a n [] environment db after h c =
    subst (IsChained input.crypto environment) (ground arith) c
persist_from-IsChained input a n (e ∷ events) environment db after h c =
    elim (Outcome-cases (append_entry input.crypto (entry_of input a n e) db)) [
      | inr (failure, bad) ↦ absurd (ground arith)
      | inl (next_db, done) ↦
          persist_from-IsChained input a (n + 1) events environment next_db after (ground arith) (
            append_entry-IsChained input.crypto (entry_of input a n e) environment db next_db done
              c)
    ]

-- The rows that an appended event leaves as they are.
pub record SameRows (db after : Tables) : Type 0 where
  pub environments : after.environments ≡ db.environments
  pub requests : after.requests ≡ db.requests

pub append_entry-SameRows :
    (k : ChainCrypto) (e : AuditEntry) (db after : Tables)
    → append_entry k e db ≡ ok after
    → SameRows db after
unfolding append_entry write_entry
append_entry-SameRows k e db after h = record {
  environments = ground arith;
  requests = ground arith;
}

pub append_audit_event-SameRows :
    (k : ChainCrypto) (e : AuditEntry) (db after : Tables)
    → append_audit_event k e db ≡ ok after
    → SameRows db after
unfolding append_audit_event
append_audit_event-SameRows k e db after h =
    let same = append_entry-SameRows k e (open_head e.tenant_id e.environment_id db) after h in
    record {
      environments = ground (arith, same.environments);
      requests = ground (arith, same.requests);
    }
