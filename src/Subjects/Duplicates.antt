-- ===== src/Subjects/Duplicates.antt =====
-- How `bindSubject` finds a duplicate and decides which of the two requests is cancelled. The id of
-- a candidate is not empty. The parameters of `BindingDeps` are the database's order of texts,
-- `localeCompare` where it is positive, the ids of the events, and the chain's functions.
use forget_ops.Database.Repository.{is_terminal}
use forget_ops.Database.Tables.{ChainCrypto, RequestRow, Tables}
use forget_ops.Prelude.{
  Bool, List, Option, String, [], false, if◌then◌else◌, insert, is_present, is_some_text, lookup,
  ltb, nat_beq, nat_strict, none, not, some, string_strict, true, ◌&&◌, ◌+◌, ◌==◌, ◌||◌, ◌∷◌,
}
use forget_ops.PrivacyRequest.Data.{RequestType, delete, export}
use forget_ops.PrivacyRequest.Status.{cancelled, identity_verified, status_strict}
use forget_ops.Subjects.Data.{
  BindSubjectInput, BindingOutcome, bound, duplicate_cancelled, duplicate_override,
}
use forget_ops.Subjects.Requests.{is_cancellable}

pub record BindingDeps : Type 0 where
  pub crypto : ChainCrypto
  pub collate : String → String → Bool
  pub locale_after : String → String → Bool
  pub candidate_event_id : String
  pub event_id : String

-- `status not in ('completed', 'cancelled')` and no override.
abbrev pub is_open : RequestRow → Bool
is_open r = not (is_terminal r.status) && not r.duplicate_override

abbrev pub same_type : RequestType → RequestType → Bool
same_type delete delete = true
same_type export export = true
same_type _ _ = false

abbrev pub is_candidate : BindSubjectInput → RequestType → String → RequestRow → Bool
is_candidate input type id r =
    r.tenant_id == input.tenant_id
    && r.environment_id == input.environment_id
    && is_some_text r.subject_hash input.subject_hash
    && same_type r.request_type type
    && not (id == input.request_id)
    && is_open r

-- `order by created_at, id`
abbrev pub created_before :
    (String → String → Bool) → String × RequestRow → String × RequestRow → Bool
created_before collate x y =
    ltb x.1.created_at y.1.created_at || nat_beq x.1.created_at y.1.created_at && collate x.0 y.0

-- The first of a row and those behind it.
abbrev pub earlier :
    (String → String → Bool)
    → String × RequestRow
    → Option (String × RequestRow)
    → Option (String × RequestRow)
earlier collate x none = some x
earlier collate x (some y) = if created_before collate y x then some y else some x

-- `candidates[0]`
unfoldable pub first_candidate :
    (String → String → Bool)
    → BindSubjectInput
    → RequestType
    → List (String × RequestRow)
    → Option (String × RequestRow)
first_candidate collate input type [] = none
first_candidate collate input type ((id, r) ∷ rows) =
    let rest = first_candidate collate input type rows in
    if is_candidate input type id r then earlier collate (id, r) rest else rest

-- What is done about the candidate.
pub data Decision : Type 0 where
  no_candidate : Decision
  current_is_duplicate candidate_is_duplicate : String → Decision

-- `compareCreatedAt(…) > 0`
abbrev pub is_newer : (String → String → Bool) → String → RequestRow → String → RequestRow → Bool
is_newer locale_after left_id left right_id right =
    if nat_beq left.created_at right.created_at
    then locale_after left_id right_id
    else ltb right.created_at left.created_at

unfoldable pub decide : BindingDeps → BindSubjectInput → RequestRow → Tables → Decision
unfolding first_candidate
decide deps input r db =
    elim (if is_present input.duplicate_override
      then none
      else first_candidate deps.collate input r.request_type db.requests) [
        | none ↦ no_candidate
        | some (id, c) ↦
            if is_newer deps.locale_after input.request_id r id c || not (is_cancellable c.status)
            then current_is_duplicate id
            else candidate_is_duplicate id
      ]

abbrev pub outcome_of : BindSubjectInput → Decision → BindingOutcome
outcome_of input (current_is_duplicate id) = duplicate_cancelled
outcome_of input _ = if is_present input.duplicate_override then duplicate_override else bound

abbrev pub duplicate_of : Decision → Option String
duplicate_of (current_is_duplicate id) = some id
duplicate_of _ = none

abbrev pub is_duplicate_cancelled : BindingOutcome → Bool
is_duplicate_cancelled duplicate_cancelled = true
is_duplicate_cancelled _ = false

abbrev pub is_duplicate_override : BindingOutcome → Bool
is_duplicate_override duplicate_override = true
is_duplicate_override _ = false

abbrev pub cancelled_row : BindSubjectInput → RequestRow → RequestRow
cancelled_row input c = record c {
  status = cancelled;
  duplicate_of_request_id = some input.request_id;
  completed_at = some input.now;
  version = c.version + 1;
}

-- `cancelDuplicate`
unfoldable pub cancel_duplicate :
    BindSubjectInput → String → List (String × RequestRow) → List (String × RequestRow)
cancel_duplicate input id rows = elim (lookup id rows) [
  | none ↦ rows
  | some c ↦
      if c.tenant_id == input.tenant_id && not (is_terminal c.status)
      then insert id (cancelled_row input c) rows
      else rows
]

-- The request's own row.
abbrev pub bound_row : BindSubjectInput → Decision → RequestRow → RequestRow
bound_row input d r = record r {
  subject_hash = some input.subject_hash;
  subject_hash_key_version = some input.subject_hash_key_version;
  subject_canonicalization_version = some input.canonicalization_version;
  duplicate_override = is_duplicate_override (outcome_of input d);
  duplicate_of_request_id = duplicate_of d;
  status = if is_duplicate_cancelled (outcome_of input d) then cancelled else identity_verified;
  completed_at = if is_duplicate_cancelled (outcome_of input d) then some input.now else none;
  version = r.version + 1;
}

unfoldable pub after_decision :
    BindSubjectInput → Decision → List (String × RequestRow) → List (String × RequestRow)
unfolding cancel_duplicate
after_decision input (candidate_is_duplicate id) rows = cancel_duplicate input id rows
after_decision input _ rows = rows

-- The rows of the requests that are written.
unfoldable pub bound_rows :
    BindSubjectInput
    → Decision
    → RequestRow
    → List (String × RequestRow)
    → List (String × RequestRow)
unfolding after_decision
bound_rows input d r rows =
    insert input.request_id (bound_row input d r) (after_decision input d rows)
