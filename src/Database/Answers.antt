-- ===== src/Database/Answers.antt =====
-- What is claimed under an idempotency key is claimed once, and its response stays.
use forget_ops.Database.Idempotency.{
  IdempotencyCall, IdempotencyClaim, IdempotencyCommand, IdempotencyCompletion, IdempotencyError,
  IdempotencyKey, IdempotencyRow, claim_key, claim_of, complete_key, completed_row, find_row,
  idempotency_run, is_completable, is_completed_by, key_reused, new_row, newly_claimed,
  replayed_response, same_key, update_rows,
}
use forget_ops.Database.KeyRows.{
  RowKeeps, complete_key-ok, completed_row_key, find_row-update, head_row, later_row, run-RowKeeps,
}
use forget_ops.Prelude.{
  Bool, Bool-cases, List, Option, Option-cases, Outcome, String, [], ap, arith, eq_iff, eq_refl,
  err, false, get_or, if◌then◌else◌, inl, inr, is_present, nat_strict, none, ok, refl, some,
  string_strict, subst, sym, true, ℕ, ◌++◌, ◌==◌, ◌∙◌, ◌∷◌, ◌≡◌, ◌≢◌,
}
use forget_ops.PrivacyRequest.Status.{status_strict}

same_key_self : (k : IdempotencyKey) → same_key k k ≡ true
same_key_self k =
    rw (eq_refl k.tenant_id, eq_refl k.scope, eq_refl k.actor_id, eq_refl k.idempotency_key) refl

find_row-new :
    (c : IdempotencyCommand) (rows : List IdempotencyRow)
    → find_row c.key rows ≡ none
    → find_row c.key (rows ++ new_row c ∷ []) ≡ some (new_row c)
unfolding find_row
find_row-new c [] h = head_row c.key (new_row c) [] (same_key_self c.key)
find_row-new c (x ∷ rows) h = elim (Bool-cases (same_key x.key c.key)) [
  | inl same ↦ absurd (ground (arith, h, head_row c.key x rows same))
  | inr other ↦
      later_row c.key x (rows ++ new_row c ∷ []) other
      ∙ find_row-new c rows (sym (later_row c.key x rows other) ∙ h)
]

not_new :
    (r : IdempotencyRow) (c : IdempotencyCommand)
    → ◌≢◌ {A = Outcome IdempotencyError IdempotencyClaim}
        (if r.request_hash == c.request_hash then ok (claim_of r.response) else err key_reused)
        (ok newly_claimed)
not_new r c h = ground arith

claimed-RowKeeps :
    (c : IdempotencyCommand) (rows : List IdempotencyRow)
    → (claim_key c rows).1 ≡ ok newly_claimed
    → RowKeeps c.key c.request_hash none (claim_key c rows).0
unfolding claim_key
claimed-RowKeeps c rows h = elim (Option-cases (find_row c.key rows)) [
  | inl fresh ↦
      rw (fresh, claim_key)
        (record {
          row = new_row c;
          found = find_row-new c rows fresh;
          hashed = refl;
          answered = λ e. absurd (ground arith);
        })
  | inr (r, there) ↦ absurd (not_new r c (rw (there, claim_key) at h))
]

claim-answer :
    (c : IdempotencyCommand) (rows : List IdempotencyRow) (r : IdempotencyRow)
    → find_row c.key rows ≡ some r
    → (claim_key c rows).1
      ≡ (if r.request_hash == c.request_hash then ok (claim_of r.response) else err key_reused)
unfolding claim_key
claim-answer c rows r there = rw (there, claim_key) refl

set_response :
    (b : Bool) (x : IdempotencyRow) (response : Option (ℕ × String))
    → b ≡ true
    → (if b then record x { response = response } else x).response ≡ response
set_response true x response h = refl
set_response false x response h = absurd (ground arith)

-- A claim of a key whose row is kept.
kept_claim :
    (c again : IdempotencyCommand) (response : Option (ℕ × String)) (rows : List IdempotencyRow)
    → again.key ≡ c.key
    → RowKeeps c.key c.request_hash response rows
    → (r : IdempotencyRow) × (r.request_hash ≡ c.request_hash)
      × (is_present response ≡ true → r.response ≡ response)
      × ((claim_key again rows).1 ≡ (
          if r.request_hash == again.request_hash
          then ok (claim_of r.response)
          else err key_reused))
kept_claim c again response rows keys w = (
  w.row,
  w.hashed,
  w.answered,
  claim-answer again rows w.row (subst (λ k. find_row k rows ≡ some w.row) (sym keys) w.found),
)

completed-RowKeeps :
    (k : IdempotencyKey) (hash : String) (d : IdempotencyCompletion) (body : String)
    (rows after : List IdempotencyRow)
    → d.key ≡ k
    → d.response_body ≡ some body
    → complete_key d rows ≡ ok after
    → RowKeeps k hash none rows
    → RowKeeps k hash (some (d.response_status, body)) after
completed-RowKeeps k hash d body rows after keys given done w =
    let (written, body_given, open_row, updated) = complete_key-ok d rows after done in
    let same : written ≡ body =
      ap (λ (o : Option String). get_or o body) (sym body_given ∙ given) in
    let completable : is_completed_by d w.row ≡ true =
      subst (λ o. is_completable d o ≡ true) (ap (λ l. find_row l rows) keys ∙ w.found) open_row in
    subst (RowKeeps k hash (some (d.response_status, body)))
      (ap (λ b. update_rows d b rows) (sym same) ∙ updated)
      (record {
        row = completed_row d body w.row;
        found = find_row-update k d body rows w.row w.found;
        hashed = (completed_row_key d body w.row).1 ∙ w.hashed;
        answered = λ there.
            set_response (is_completed_by d w.row) w.row (some (d.response_status, body))
              completable;
      })

other_hash :
    (r : IdempotencyRow) (c : IdempotencyCommand)
    → r.request_hash ≢ c.request_hash
    → (if r.request_hash == c.request_hash then ok (claim_of r.response) else err key_reused)
      ≡ err key_reused
other_hash r c differ = elim (Bool-cases (r.request_hash == c.request_hash)) [
  | inl same ↦ absurd (differ ((eq_iff r.request_hash c.request_hash).0 same))
  | inr other ↦ rw other refl
]

same_hash_answer :
    (r : IdempotencyRow) (c : IdempotencyCommand) (response : ℕ × String)
    → r.request_hash ≡ c.request_hash
    → r.response ≡ some response
    → (if r.request_hash == c.request_hash then ok (claim_of r.response) else err key_reused)
      ≡ ok (replayed_response response)
same_hash_answer r c response same answered =
    rw ((eq_iff r.request_hash c.request_hash).1 same, answered) refl

-- After a key was claimed, no history of claims and completions lets it be claimed again, and a claim
-- with another hash is refused; and once it was completed, after any history that is followed by
-- any other, a claim with its hash is answered with the status and the body of that completion.
pub claimed_once :
    (c again : IdempotencyCommand) (d : IdempotencyCompletion) (body : String)
    (cs ds : List IdempotencyCall) (rows final : List IdempotencyRow)
    → (claim_key c rows).1 ≡ ok newly_claimed
    → again.key ≡ c.key
    → ((claim_key again (idempotency_run cs (claim_key c rows).0)).1 ≢ ok newly_claimed)
      × (again.request_hash ≢ c.request_hash
          → (claim_key again (idempotency_run cs (claim_key c rows).0)).1 ≡ err key_reused)
      × (d.key ≡ c.key
          → d.response_body ≡ some body
          → complete_key d (idempotency_run cs (claim_key c rows).0) ≡ ok final
          → again.request_hash ≡ c.request_hash
          → (claim_key again (idempotency_run ds final)).1
            ≡ ok (replayed_response (d.response_status, body)))
claimed_once c again d body cs ds rows final h keys =
    let w =
      run-RowKeeps c.key c.request_hash none cs (claim_key c rows).0 (claimed-RowKeeps c rows h) in
    let (r, hashed, answered, answer) =
      kept_claim c again none (idempotency_run cs (claim_key c rows).0) keys w in
    (
      λ claimed_again. not_new r again (sym answer ∙ claimed_again),
      λ differ. answer ∙ other_hash r again (λ e. differ (sym e ∙ hashed)),
      λ same_keys given done same_hash.
          let (s, s_hashed, s_answered, s_answer) =
            kept_claim c again (some (d.response_status, body)) (idempotency_run ds final) keys (
              run-RowKeeps c.key c.request_hash (some (d.response_status, body)) ds final (
                completed-RowKeeps c.key c.request_hash d body
                  (idempotency_run cs (claim_key c rows).0) final same_keys given done w)) in
          s_answer
          ∙ same_hash_answer s again (d.response_status, body) (s_hashed ∙ sym same_hash)
              (s_answered refl),
    )
