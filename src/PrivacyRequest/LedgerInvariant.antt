-- ===== src/PrivacyRequest/LedgerInvariant.antt =====
-- Every call keeps the invariant of the attempts.
use forget_ops.Prelude.{
  All-append, All-map, List, Option, String, [], arith, eq_refl, false, is_present, length,
  nat_strict, refl, string_strict, true, ℕ, ◌++◌, ◌+◌, ◌==◌, ◌∙◌, ◌∷◌, ◌≡◌,
}
use forget_ops.PrivacyRequest.Attempts.{
  All-find_attempt, All-replace_attempt, CountsFrom, CountsFrom-append, Distinct-append,
  attempt_ids, attempt_numbers, contains-attempt_ids, find_attempt-append,
  find_attempt-replace_attempt, find_attempt_id, length-attempt_numbers, map-append_one,
  map-replace_attempt, unique_match,
}
use forget_ops.PrivacyRequest.Commands.{Command, call}
use forget_ops.PrivacyRequest.Data.{AttemptStatus, ExecutionAttempt}
use forget_ops.PrivacyRequest.Effect.{Aggregate}
use forget_ops.PrivacyRequest.Ledger.{Appended, EntryInv, Kept, LedgerInv, Updated, phase, settle}
use forget_ops.PrivacyRequest.LedgerEffects.{LedgerEffect, adds, call-LedgerEffect, keeps, settles}
use forget_ops.PrivacyRequest.Status.{status_strict}
use forget_ops.PrivacyRequest.Steps.{find_attempt}

abbrev Entry : Aggregate → ExecutionAttempt → Type 0
Entry r = EntryInv r.id r.status r.current_attempt_id

Kept-Entry : (r s : Aggregate) → Kept r s → (x : ExecutionAttempt) → Entry r x → Entry s x
Kept-Entry r s k x e = ground arith

-- An attempt that is not the current one is closed, whatever the status becomes.
Updated-Entry :
    (r s : Aggregate) {status : AttemptStatus} {at : Option String} {a : ExecutionAttempt}
    → Updated status at a r s
    → (x : ExecutionAttempt) → (x.id == a.id) ≡ false
    → Entry r x
    → Entry s x
Updated-Entry r s {status} {at} {a} u x other e = ground (
  arith,
  find_attempt_id r.current_attempt_id r.attempts a u.found,
  unique_match r.current_attempt_id x.id a.id,
)

settled-Entry :
    (r s : Aggregate) {status : AttemptStatus} {at : Option String} {a : ExecutionAttempt}
    → Updated status at a r s
    → Entry r a
    → Entry s (settle status at a)
settled-Entry r s {status} {at} {a} u e =
    ground (arith, find_attempt_id r.current_attempt_id r.attempts a u.found)

Appended-Entry :
    (r s : Aggregate) {a : ExecutionAttempt}
    → Appended a r s
    → (x : ExecutionAttempt) → Entry r x
    → Entry s x
Appended-Entry r s p x e = ground arith

new-Entry : (r s : Aggregate) {a : ExecutionAttempt} → Appended a r s → Entry s a
new-Entry r s {a} p = ground (arith, eq_refl a.id)

next_number :
    (ns : List ℕ) (n : ℕ) → length ns ≡ n → CountsFrom 1 ns → CountsFrom 1 (ns ++ (n + 1) ∷ [])
next_number ns n e h =
    let next : 1 + length ns ≡ n + 1 = omega arith in rw next at (CountsFrom-append 1 ns h)

module _ {r s : Aggregate} (h : LedgerInv r) where
  Kept-LedgerInv : Kept r s → LedgerInv s
  Kept-LedgerInv k = record {
    entries =
        rw k.attempts_kept (All-map (Entry r) (Entry s) r.attempts (Kept-Entry r s k) h.entries);
    numbered = rw k.attempts_kept h.numbered;
    distinct = rw k.attempts_kept h.distinct;
    in_phase = rw (k.attempts_kept, k.current_kept) (ground arith);
  }

  Updated-LedgerInv :
      {status : AttemptStatus} {at : Option String} {a : ExecutionAttempt}
      → Updated status at a r s
      → LedgerInv s
  Updated-LedgerInv {status} {at} {a} u =
      let new = settle status at a in
      record {
        entries = rw u.attempts_updated (
            All-replace_attempt (Entry r) (Entry s) new r.attempts (Updated-Entry r s u)
              (settled-Entry r s u
                (All-find_attempt (Entry r) r.current_attempt_id r.attempts a u.found h.entries))
              h.entries);
        numbered = rw (u.attempts_updated) (
            rw
              (map-replace_attempt (λ x. x.attempt_number) r.current_attempt_id new r.attempts a
                h.distinct u.found refl refl)
              h.numbered);
        distinct = rw (u.attempts_updated) (
            rw
              (map-replace_attempt (λ x. x.id) r.current_attempt_id new r.attempts a h.distinct
                u.found refl refl)
              h.distinct);
        in_phase =
            rw (u.attempts_updated, u.current_kept)
              (rw (find_attempt-replace_attempt r.current_attempt_id new r.attempts a u.found refl)
                (ground (arith, h.in_phase)));
      }

  Appended-LedgerInv : {a : ExecutionAttempt} → Appended a r s → LedgerInv s
  Appended-LedgerInv {a} p = record {
    entries = rw p.attempts_appended (
        All-append (Entry s) r.attempts (a ∷ [])
          (All-map (Entry r) (Entry s) r.attempts (Appended-Entry r s p) h.entries)
          (new-Entry r s p, tt));
    numbered =
        rw (p.attempts_appended, map-append_one (λ x. x.attempt_number) r.attempts a, p.number_next)
          (next_number (attempt_numbers r.attempts) (length r.attempts)
            (length-attempt_numbers r.attempts) h.numbered);
    distinct =
        rw (p.attempts_appended, map-append_one (λ x. x.id) r.attempts a)
          (Distinct-append (attempt_ids r.attempts) a.id h.distinct
            (contains-attempt_ids a.id r.attempts ∙ p.id_new));
    in_phase =
        rw (p.attempts_appended, p.current_new)
          (rw (find_attempt-append a r.attempts p.id_new) (ground arith));
  }

  LedgerEffect-LedgerInv : LedgerEffect r s → LedgerInv s
  LedgerEffect-LedgerInv (keeps k) = Kept-LedgerInv k
  LedgerEffect-LedgerInv (settles u) = Updated-LedgerInv u
  LedgerEffect-LedgerInv (adds p) = Appended-LedgerInv p

-- Every call, also one that throws, keeps the invariant.
pub call-LedgerInv : (c : Command) (r : Aggregate) → LedgerInv r → LedgerInv (call c r).1
call-LedgerInv c r h = LedgerEffect-LedgerInv h (call-LedgerEffect c r)

-- The current attempt of a request that is under way is there, so no call misses it.
pub under_way_found :
    (r : Aggregate)
    → LedgerInv r
    → is_present (phase r.status) ≡ true
    → is_present (find_attempt r.current_attempt_id r.attempts) ≡ true
under_way_found r h u = ground (arith, h.in_phase)
