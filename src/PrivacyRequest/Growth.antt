-- ===== src/PrivacyRequest/Growth.antt =====
-- The attempts of a request are a history: they are added to, and a closed one never changes.
use forget_ops.Prelude.{
  Bool-cases, Distinct, List, Option, String, [], arith, eq_refl, false, inl, inr, is_some_text,
  none, refl, some, subst, sym, true, ◌++◌, ◌∙◌, ◌∷◌, ◌≡◌,
}
use forget_ops.PrivacyRequest.Attempts.{
  attempt_ids, contains-attempt_ids, find_attempt_id, misses, replace_attempt_absent,
}
use forget_ops.PrivacyRequest.Commands.{Command, call, run}
use forget_ops.PrivacyRequest.Data.{AttemptStatus, ExecutionAttempt, planned}
use forget_ops.PrivacyRequest.Effect.{Aggregate}
use forget_ops.PrivacyRequest.Ledger.{LedgerInv, is_open, settle}
use forget_ops.PrivacyRequest.LedgerEffects.{LedgerEffect, adds, call-LedgerEffect, keeps, settles}
use forget_ops.PrivacyRequest.LedgerInvariant.{call-LedgerInv}
use forget_ops.PrivacyRequest.Steps.{attempt_id_taken, find_attempt, replace_attempt}

-- An attempt without what a later call may give it.
abbrev pub identity : ExecutionAttempt → ExecutionAttempt
identity a = record a { status = planned; completed_at = none }

abbrev pub Continues : ExecutionAttempt → ExecutionAttempt → Type 0
Continues x y = (identity y ≡ identity x) × (is_open x.status ≡ false → y ≡ x)

-- Each attempt of the first list stands at the same place of the second, with the same identity,
-- and unchanged if it was closed.
abbrev pub GrowsTo : List ExecutionAttempt → List ExecutionAttempt → Type 0
GrowsTo [] ys = Unit
GrowsTo (x ∷ xs) [] = ⊥
GrowsTo (x ∷ xs) (y ∷ ys) = Continues x y × GrowsTo xs ys

GrowsTo-append : (xs ys : List ExecutionAttempt) → GrowsTo xs (xs ++ ys)
GrowsTo-append [] ys = tt
GrowsTo-append (x ∷ xs) ys = ((refl, λ _. refl), GrowsTo-append xs ys)

GrowsTo-refl : (xs : List ExecutionAttempt) → GrowsTo xs xs
GrowsTo-refl [] = tt
GrowsTo-refl (x ∷ xs) = ((refl, λ _. refl), GrowsTo-refl xs)

Continues-trans : (x y z : ExecutionAttempt) → Continues x y → Continues y z → Continues x z
Continues-trans x y z p q = (
  q.0 ∙ p.0,
  λ closed.
      q.1 (subst (λ (w : ExecutionAttempt). is_open w.status ≡ false) (sym (p.1 closed)) closed)
      ∙ p.1 closed,
)

GrowsTo-trans : (xs ys zs : List ExecutionAttempt) → GrowsTo xs ys → GrowsTo ys zs → GrowsTo xs zs
GrowsTo-trans [] ys zs p q = tt
GrowsTo-trans (x ∷ xs) [] zs p q = absurd p
GrowsTo-trans (x ∷ xs) (y ∷ ys) [] p q = absurd q
GrowsTo-trans (x ∷ xs) (y ∷ ys) (z ∷ zs) p q =
    (Continues-trans x y z p.0 q.0, GrowsTo-trans xs ys zs p.1 q.1)

-- Settling the first attempt leaves the rest, where its id is not taken.
GrowsTo-replace_head :
    (status : AttemptStatus) (at : Option String) (x : ExecutionAttempt)
    (xs : List ExecutionAttempt)
    → attempt_id_taken x.id xs ≡ false
    → is_open x.status ≡ true
    → GrowsTo (x ∷ xs) (replace_attempt (settle status at x) (x ∷ xs))
unfolding replace_attempt
GrowsTo-replace_head status at x xs d o = rw (eq_refl x.id) (
  (refl, λ closed. absurd (cc)),
  subst (GrowsTo xs) (sym (replace_attempt_absent (settle status at x) xs d)) (GrowsTo-refl xs),
)

-- Settling the attempt that is found, if it is open, continues it and leaves the others.
GrowsTo-replace_attempt :
    (status : AttemptStatus) (at current : Option String) (xs : List ExecutionAttempt)
    (a : ExecutionAttempt)
    → Distinct (attempt_ids xs)
    → find_attempt current xs ≡ some a
    → is_open a.status ≡ true
    → GrowsTo xs (replace_attempt (settle status at a) xs)
unfolding find_attempt replace_attempt
GrowsTo-replace_attempt status at current [] a d h o = tt
GrowsTo-replace_attempt status at current (x ∷ xs) a d h o =
    elim (Bool-cases (is_some_text current x.id)) [
      | inl hit ↦
          let same : x ≡ a = ground arith in
          subst (λ w. GrowsTo (x ∷ xs) (replace_attempt (settle status at w) (x ∷ xs))) same
            (GrowsTo-replace_head status at x xs (sym (contains-attempt_ids x.id xs) ∙ d.0)
              (subst (λ (w : ExecutionAttempt). is_open w.status ≡ true) (sym same) o))
      | inr miss ↦
          let found : find_attempt current xs ≡ some a = ground arith in
          rw (misses current x.id a.id miss (find_attempt_id current xs a found))
            ((refl, λ _. refl), GrowsTo-replace_attempt status at current xs a d.1 found o)
    ]

LedgerEffect-GrowsTo :
    {r s : Aggregate} → LedgerInv r → LedgerEffect r s → GrowsTo r.attempts s.attempts
LedgerEffect-GrowsTo {r} h (keeps k) = rw k.attempts_kept (GrowsTo-refl r.attempts)
LedgerEffect-GrowsTo {r} h (settles {status = status} {at = at} {a = a} u) = rw u.attempts_updated (
    GrowsTo-replace_attempt status at r.current_attempt_id r.attempts a h.distinct u.found
      (ground (arith, h.in_phase)))
LedgerEffect-GrowsTo {r} h (adds {a = a} p) =
    rw p.attempts_appended (GrowsTo-append r.attempts (a ∷ []))

-- Through every history of calls the attempts keep their places and identities, and those that
-- were closed stay exactly as they were.
pub run-GrowsTo :
    (cs : List Command) (r : Aggregate) → LedgerInv r → GrowsTo r.attempts (run cs r).attempts
unfolding run
run-GrowsTo [] r h = GrowsTo-refl r.attempts
run-GrowsTo (c ∷ cs) r h =
    let s = (call c r).1 in
    GrowsTo-trans r.attempts s.attempts (run cs s).attempts
      (LedgerEffect-GrowsTo h (call-LedgerEffect c r)) (run-GrowsTo cs s (call-LedgerInv c r h))
