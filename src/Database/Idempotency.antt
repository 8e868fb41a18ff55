-- ===== src/Database/Idempotency.antt =====
-- `IdempotencyRepository` of packages/database/src/repositories/idempotency-repository.ts. The rows
-- stand in the order in which they were inserted, and their key is unique, so that the first row of
-- a key is its row.
use forget_ops.Prelude.{
  Bool, List, Option, Outcome, String, [], err, false, if◌then◌else◌, is_present, nat_strict, none,
  not, ok, reject_if, require, some, string_strict, ℕ, ◌&&◌, ◌++◌, ◌==◌, ◌>>=◌, ◌>>◌, ◌∷◌,
}
use forget_ops.PrivacyRequest.Status.{status_strict}

pub record IdempotencyKey : Type 0 where
  pub tenant_id : String
  pub scope : String
  pub actor_id : String
  pub idempotency_key : String

pub record IdempotencyRow : Type 0 where
  pub key : IdempotencyKey
  pub request_hash : String
  pub expires_at : ℕ
  pub response : Option (ℕ × String)

pub record IdempotencyCommand : Type 0 where
  pub key : IdempotencyKey
  pub request_hash : String
  pub expires_at : ℕ

-- The body is what `JSON.stringify` gives, which may be nothing.
pub record IdempotencyCompletion : Type 0 where
  pub key : IdempotencyKey
  pub request_hash : String
  pub response_status : ℕ
  pub response_body : Option String

pub data IdempotencyClaim : Type 0 where
  newly_claimed in_progress : IdempotencyClaim
  replayed_response : ℕ × String → IdempotencyClaim

pub data IdempotencyError : Type 0 where
  key_reused record_not_found response_not_json : IdempotencyError

abbrev pub same_key : IdempotencyKey → IdempotencyKey → Bool
same_key k l =
    k.tenant_id == l.tenant_id
    && k.scope == l.scope
    && k.actor_id == l.actor_id
    && k.idempotency_key == l.idempotency_key

unfoldable pub find_row : IdempotencyKey → List IdempotencyRow → Option IdempotencyRow
find_row k [] = none
find_row k (r ∷ rows) = let rest = find_row k rows in if same_key r.key k then some r else rest

abbrev pub new_row : IdempotencyCommand → IdempotencyRow
new_row c = record {
  key = c.key;
  request_hash = c.request_hash;
  expires_at = c.expires_at;
  response = none;
}

abbrev pub claim_of : Option (ℕ × String) → IdempotencyClaim
claim_of none = in_progress
claim_of (some response) = replayed_response response

-- `claim`
unfoldable pub claim_key :
    IdempotencyCommand
    → List IdempotencyRow
    → List IdempotencyRow × Outcome IdempotencyError IdempotencyClaim
unfolding find_row
claim_key c rows = elim (find_row c.key rows) [
  | none ↦ (rows ++ new_row c ∷ [], ok newly_claimed)
  | some r ↦
      (rows, if r.request_hash == c.request_hash then ok (claim_of r.response) else err key_reused)
]

-- The `where` of the update.
abbrev pub is_completed_by : IdempotencyCompletion → IdempotencyRow → Bool
is_completed_by c r =
    same_key r.key c.key && r.request_hash == c.request_hash && not (is_present r.response)

abbrev pub is_completable : IdempotencyCompletion → Option IdempotencyRow → Bool
is_completable c none = false
is_completable c (some r) = is_completed_by c r

-- The row after the update.
abbrev pub completed_row : IdempotencyCompletion → String → IdempotencyRow → IdempotencyRow
completed_row c body r =
    if is_completed_by c r then record r { response = some (c.response_status, body) } else r

unfoldable pub update_rows :
    IdempotencyCompletion → String → List IdempotencyRow → List IdempotencyRow
update_rows c body [] = []
update_rows c body (r ∷ rows) = completed_row c body r ∷ update_rows c body rows

-- `complete`
unfoldable pub complete_key :
    IdempotencyCompletion → List IdempotencyRow → Outcome IdempotencyError (List IdempotencyRow)
unfolding find_row update_rows
complete_key c rows = do
  body ← require c.response_body response_not_json
  reject_if (not (is_completable c (find_row c.key rows))) record_not_found
  ok (update_rows c body rows)

pub data IdempotencyCall : Type 0 where
  claims : IdempotencyCommand → IdempotencyCall
  completes : IdempotencyCompletion → IdempotencyCall

abbrev pub rows_or :
    List IdempotencyRow → Outcome IdempotencyError (List IdempotencyRow) → List IdempotencyRow
rows_or rows (ok after) = after
rows_or rows (err e) = rows

abbrev pub idempotency_step : IdempotencyCall → List IdempotencyRow → List IdempotencyRow
idempotency_step (claims c) rows = (claim_key c rows).0
idempotency_step (completes c) rows = rows_or rows (complete_key c rows)

abbrev pub idempotency_run : List IdempotencyCall → List IdempotencyRow → List IdempotencyRow
idempotency_run [] rows = rows
idempotency_run (c ∷ cs) rows = idempotency_run cs (idempotency_step c rows)
