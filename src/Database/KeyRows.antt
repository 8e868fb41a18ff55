-- ===== src/Database/KeyRows.antt =====
-- The row of an idempotency key stays, with its hash and its response.
-- The row of a key keeps its hash, and its response once there is one.
use forget_ops.Database.Idempotency.{
  IdempotencyCall, IdempotencyCompletion, IdempotencyKey, IdempotencyRow, claim_key, claims,
  complete_key, completed_row, completes, find_row, idempotency_run, idempotency_step,
  is_completable, is_completed_by, new_row, record_not_found, response_not_json, rows_or, same_key,
  update_rows,
}
use forget_ops.Prelude.{
  Bool, Bool-cases, List, Option, Option-cases, Outcome-cases, String, [], ap, arith, bind-ok,
  false, get_or, if◌then◌else◌, inl, inr, is_present, nat_strict, not, ok, ok_injective, refl,
  reject_if, reject_if-ok, require, require-ok, some, string_strict, subst, sym, then-ok, true, ℕ,
  ◌&&◌, ◌++◌, ◌==◌, ◌∙◌, ◌∷◌, ◌≡◌,
}
use forget_ops.PrivacyRequest.Status.{status_strict}

pub record RowKeeps (k : IdempotencyKey) (hash : String) (response : Option (ℕ × String))
    (rows : List IdempotencyRow) : Type 0 where
  pub row : IdempotencyRow
  pub found : find_row k rows ≡ some row
  pub hashed : row.request_hash ≡ hash
  pub answered : is_present response ≡ true → row.response ≡ response

pub head_row :
    (k : IdempotencyKey) (x : IdempotencyRow) (rows : List IdempotencyRow)
    → same_key x.key k ≡ true
    → find_row k (x ∷ rows) ≡ some x
unfolding find_row
head_row k x rows same = ap (λ (b : Bool). if b then some x else find_row k rows) same

pub later_row :
    (k : IdempotencyKey) (x : IdempotencyRow) (rows : List IdempotencyRow)
    → same_key x.key k ≡ false
    → find_row k (x ∷ rows) ≡ find_row k rows
unfolding find_row
later_row k x rows other = ap (λ (b : Bool). if b then some x else find_row k rows) other

find_row-append :
    (k : IdempotencyKey) (rows more : List IdempotencyRow) (r : IdempotencyRow)
    → find_row k rows ≡ some r
    → find_row k (rows ++ more) ≡ some r
unfolding find_row
find_row-append k [] more r h = absurd (ground arith)
find_row-append k (x ∷ rows) more r h = elim (Bool-cases (same_key x.key k)) [
  | inl same ↦ rw same (rw same at h)
  | inr other ↦ rw other (find_row-append k rows more r (rw other at h))
]

-- A row that is changed in its response alone, or is not.
either_row :
    (b : Bool) (x : IdempotencyRow) (response : Option (ℕ × String))
    → ((if b then record x { response = response } else x).key ≡ x.key)
      × ((if b then record x { response = response } else x).request_hash ≡ x.request_hash)
either_row true x response = (refl, refl)
either_row false x response = (refl, refl)

pub completed_row_key :
    (c : IdempotencyCompletion) (body : String) (x : IdempotencyRow)
    → ((completed_row c body x).key ≡ x.key)
      × ((completed_row c body x).request_hash ≡ x.request_hash)
completed_row_key c body x = either_row (is_completed_by c x) x (some (c.response_status, body))

twice_not : (b : Bool) → not b ≡ false → b ≡ true
twice_not b h = ground arith

unfinished :
    (a b : Bool) (response : Option (ℕ × String))
    → is_present response ≡ true
    → (a && b && not (is_present response)) ≡ false
unfinished a b response h = ground arith

completed_row_answer :
    (c : IdempotencyCompletion) (body : String) (x : IdempotencyRow)
    → is_present x.response ≡ true
    → completed_row c body x ≡ x
completed_row_answer c body x h =
    ap (λ (b : Bool). if b then record x { response = some (c.response_status, body) } else x)
      (unfinished (same_key x.key c.key) (x.request_hash == c.request_hash) x.response h)

pub find_row-update :
    (k : IdempotencyKey) (c : IdempotencyCompletion) (body : String) (rows : List IdempotencyRow)
    (r : IdempotencyRow)
    → find_row k rows ≡ some r
    → find_row k (update_rows c body rows) ≡ some (completed_row c body r)
unfolding find_row update_rows
find_row-update k c body [] r h = absurd (ground arith)
find_row-update k c body (x ∷ rows) r h =
    let kept = (completed_row_key c body x).0 in
    elim (Bool-cases (same_key x.key k)) [
      | inl same ↦
          let moved : same_key (completed_row c body x).key k ≡ true =
            subst (λ l. same_key l k ≡ true) (sym kept) same in
          head_row k (completed_row c body x) (update_rows c body rows) moved
          ∙ ap (λ (o : Option IdempotencyRow). some (completed_row c body (get_or o x)))
              (sym (head_row k x rows same) ∙ h)
      | inr other ↦
          let moved : same_key (completed_row c body x).key k ≡ false =
            subst (λ l. same_key l k ≡ false) (sym kept) other in
          later_row k (completed_row c body x) (update_rows c body rows) moved
          ∙ find_row-update k c body rows r (sym (later_row k x rows other) ∙ h)
    ]

pub complete_key-ok :
    (c : IdempotencyCompletion) (rows after : List IdempotencyRow)
    → complete_key c rows ≡ ok after
    → (body : String) × (c.response_body ≡ some body)
      × (is_completable c (find_row c.key rows) ≡ true)
      × (update_rows c body rows ≡ after)
unfolding complete_key
complete_key-ok c rows after h =
    let (body, given, rest) = bind-ok (require c.response_body response_not_json) _ after h in
    let (open_row, last) =
      then-ok (reject_if (not (is_completable c (find_row c.key rows))) record_not_found) _ after
        rest in
    (
      body,
      require-ok c.response_body response_not_json body given,
      twice_not _ (reject_if-ok _ record_not_found open_row),
      ok_injective _ after last,
    )

update-RowKeeps :
    (k : IdempotencyKey) (hash : String) (response : Option (ℕ × String))
    (c : IdempotencyCompletion) (body : String) (rows : List IdempotencyRow)
    → RowKeeps k hash response rows
    → RowKeeps k hash response (update_rows c body rows)
update-RowKeeps k hash response c body rows w = record {
  row = completed_row c body w.row;
  found = find_row-update k c body rows w.row w.found;
  hashed = (completed_row_key c body w.row).1 ∙ w.hashed;
  answered = λ there.
      let its = w.answered there in
      ap (λ (r : IdempotencyRow). r.response)
        (completed_row_answer c body w.row (subst (λ o. is_present o ≡ true) (sym its) there))
      ∙ its;
}

step-RowKeeps :
    (k : IdempotencyKey) (hash : String) (response : Option (ℕ × String)) (c : IdempotencyCall)
    (rows : List IdempotencyRow)
    → RowKeeps k hash response rows
    → RowKeeps k hash response (idempotency_step c rows)
unfolding claim_key complete_key
step-RowKeeps k hash response (claims c) rows w = elim (Option-cases (find_row c.key rows)) [
  | inl fresh ↦
      subst (RowKeeps k hash response) (sym rw (fresh, idempotency_step, claim_key) refl) (record {
        row = w.row;
        found = find_row-append k rows (new_row c ∷ []) w.row w.found;
        hashed = w.hashed;
        answered = w.answered;
      })
  | inr (r, there) ↦
      subst (RowKeeps k hash response) (sym rw (there, idempotency_step, claim_key) refl) w
]
step-RowKeeps k hash response (completes c) rows w = elim (Outcome-cases (complete_key c rows)) [
  | inr (e, bad) ↦ subst (RowKeeps k hash response) (ap (rows_or rows) (sym bad)) w
  | inl (after, done) ↦
      let (body, given, open_row, updated) = complete_key-ok c rows after done in
      subst (RowKeeps k hash response) (updated ∙ ap (rows_or rows) (sym done))
        (update-RowKeeps k hash response c body rows w)
]

pub run-RowKeeps :
    (k : IdempotencyKey) (hash : String) (response : Option (ℕ × String))
    (cs : List IdempotencyCall) (rows : List IdempotencyRow)
    → RowKeeps k hash response rows
    → RowKeeps k hash response (idempotency_run cs rows)
run-RowKeeps k hash response [] rows w = w
run-RowKeeps k hash response (c ∷ cs) rows w =
    run-RowKeeps k hash response cs (idempotency_step c rows)
      (step-RowKeeps k hash response c rows w)
