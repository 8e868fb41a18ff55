-- ===== src/Subjects/Rebinding.antt =====
-- A binding that is asked for again, as after a lost answer.
-- The same request at another time.
use forget_ops.Database.Tables.{EnvironmentRow, RequestRow, Tables}
use forget_ops.Prelude.{
  Bool-cases, List, String, [], ap, arith, eq_iff, eq_refl, erase, false, inl, inr, is_present,
  lookup, lookup-insert, nat_beq_iff, nat_strict, none, ok, refl, set_add, some, string_strict,
  subst, sym, then-ok, true, ℕ, ◌==◌, ◌>>=◌, ◌∙◌, ◌∷◌, ◌≡◌,
}
use forget_ops.PrivacyRequest.Status.{status_strict}
use forget_ops.Subjects.Binding.{bind_subject, binding_result}
use forget_ops.Subjects.BindingParts.{
  alone, decide-Decided, duplicated, duplicates, first_candidate-Row, overridden,
}
use forget_ops.Subjects.Bindings.{Rebound, Written, bind_subject-Binding}
use forget_ops.Subjects.Data.{
  BindSubjectInput, SubjectAliasBinding, SubjectBindingResult, SubjectDb,
}
use forget_ops.Subjects.Duplicates.{
  BindingDeps, Decision, after_decision, bound_row, bound_rows, candidate_is_duplicate,
  current_is_duplicate, decide, no_candidate, outcome_of,
}
use forget_ops.Subjects.Lookups.{Found-find_request, find_request-Found}
use forget_ops.Subjects.Requests.{
  bound_already, existing_outcome, find_request, is_bound_as, to_binding_result,
}
use forget_ops.Subjects.Rivals.{IsSound}
use forget_ops.Subjects.Soundness.{append_events-SameRows}
use forget_ops.Subjects.Validation.{
  alias_key, check_binding, validate_alias, validate_aliases, validate_aliases_from, validate_scope,
  validate_subject_hash,
}

abbrev pub retimed : ℕ → String → BindSubjectInput → BindSubjectInput
retimed now now_text input = record input { now = now; now_text = now_text }

validate_aliases-retimed :
    (now : ℕ) (now_text : String) (input : BindSubjectInput) (seen : List String)
    (aliases : List SubjectAliasBinding)
    → validate_aliases_from (retimed now now_text input) seen aliases
      ≡ validate_aliases_from input seen aliases
unfolding validate_aliases_from validate_alias
validate_aliases-retimed now now_text input seen [] = refl
validate_aliases-retimed now now_text input seen (alias ∷ aliases) =
    ap (λ rest. validate_alias input seen alias >>= λ done. rest)
      (validate_aliases-retimed now now_text input (set_add seen (alias_key alias)) aliases)

check_binding-retimed :
    (now : ℕ) (now_text : String) (input : BindSubjectInput)
    → check_binding (retimed now now_text input) ≡ check_binding input
unfolding check_binding validate_aliases
check_binding-retimed now now_text input =
    rw (validate_aliases-retimed now now_text input [] input.aliases) refl

erase_twice {ℓ} :
    {V : Type ℓ} → (key : String) (m : List (String × V)) → erase key (erase key m) ≡ erase key m
unfolding erase
erase_twice key [] = refl
erase_twice key ((k, v) ∷ rest) = elim (Bool-cases (k == key)) [
  | inl same ↦ rw same (erase_twice key rest)
  | inr other ↦ rw (other, erase_twice key rest) (rw other refl)
]

-- The state in which the answer is repeated.
record IsAnswered (input : BindSubjectInput) (after : SubjectDb) (result : SubjectBindingResult)
    : Type 0 where
  row : RequestRow
  place : EnvironmentRow
  there :
      find_request input.tenant_id input.environment_id input.request_id after.tables
      ≡ some (row, place)
  same_binding : is_bound_as input row ≡ true
  answer : to_binding_result input.request_id row (existing_outcome row) ≡ ok result
  no_envelope : erase input.request_id after.envelopes ≡ after.envelopes

IsAnswered-again :
    (deps : BindingDeps) (input : BindSubjectInput) (later : SubjectDb → SubjectDb)
    (after : SubjectDb) (result : SubjectBindingResult) (now : ℕ) (now_text : String)
    → check_binding input ≡ ok tt
    → IsAnswered input after result
    → bind_subject deps (retimed now now_text input) later after ≡ ok (after, result)
unfolding bind_subject bound_already
IsAnswered-again deps input later after result now now_text checked a =
    rw
      (
        check_binding-retimed now now_text input,
        checked,
        a.there,
        a.same_binding,
        a.answer,
        a.no_envelope,
      )
      refl

Rebound-IsAnswered :
    (input : BindSubjectInput) (db after : SubjectDb) (result : SubjectBindingResult)
    → Rebound input db after result
    → IsAnswered input after result
Rebound-IsAnswered input db after result r =
    subst (λ d. IsAnswered input d result) (sym r.db_after)
      (record {
        row = r.row;
        place = r.its_environment;
        there = r.looked_up;
        same_binding = r.same_binding;
        answer = r.answer;
        no_envelope = erase_twice input.request_id db.envelopes;
      })

hash_not_empty :
    (input : BindSubjectInput) → check_binding input ≡ ok tt → (input.subject_hash == "") ≡ false
unfolding check_binding validate_subject_hash
hash_not_empty input checked = elim (Bool-cases (input.subject_hash == "")) [
  | inr differ ↦ differ
  | inl same ↦
      let (scope, rest) =
        then-ok (validate_scope input.tenant_id input.environment_id input.request_id) _ tt
          checked in
      let (valid_hash, more) = then-ok (validate_subject_hash input.subject_hash) _ tt rest in
      let empty : validate_subject_hash "" ≡ ok tt =
        subst (λ t. validate_subject_hash t ≡ ok tt) ((eq_iff input.subject_hash "").0 same)
          valid_hash in
      absurd (ground (arith, empty))
]

-- What is read from a row that says what the decision was.
outcome_kept :
    (input : BindSubjectInput) (d : Decision) (r : RequestRow)
    → ((id : String) → d ≡ current_is_duplicate id → (id == "") ≡ false)
    → existing_outcome (bound_row input d r) ≡ outcome_of input d
unfolding existing_outcome
outcome_kept input no_candidate r named = elim (Bool-cases (is_present input.duplicate_override)) [
  | inl some_override ↦ rw some_override refl
  | inr no_override ↦ rw no_override refl
]
outcome_kept input (candidate_is_duplicate id) r named =
    elim (Bool-cases (is_present input.duplicate_override)) [
      | inl some_override ↦ rw some_override refl
      | inr no_override ↦ rw no_override refl
    ]
outcome_kept input (current_is_duplicate id) r named = rw (named id refl) refl

duplicate_not_empty :
    (deps : BindingDeps) (input : BindSubjectInput) (r : RequestRow) (db : Tables) (id : String)
    → IsSound db
    → lookup "" db.requests ≡ none
    → decide deps input r db ≡ current_is_duplicate id
    → (id == "") ≡ false
duplicate_not_empty deps input r db id sound named decided = elim (decide-Decided deps input r db) [
  | overridden some_override d ↦ absurd (ground (arith, d, decided))
  | alone nothing d ↦ absurd (ground (arith, d, decided))
  | duplicated other x found d ↦ absurd (ground (arith, d, decided))
  | duplicates other x found d ↦
      let known =
        first_candidate-Row deps.collate input r.request_type db.requests other x sound.distinct
          found in
      elim (Bool-cases (id == "")) [
        | inr differ ↦ differ
        | inl same ↦
            let one : other ≡ id = ground (arith, d, decided) in
            let at_empty : lookup "" db.requests ≡ some x =
              subst (λ i. lookup i db.requests ≡ some x) (one ∙ (eq_iff id "").0 same) known.0 in
            absurd (ground (arith, at_empty))
      ]
]

-- The row of a new binding gives its answer.
bound_row_answer :
    (input : BindSubjectInput) (d : Decision) (r : RequestRow)
    → r.environment_id ≡ input.environment_id
    → (input.subject_hash == "") ≡ false
    → existing_outcome (bound_row input d r) ≡ outcome_of input d
    → to_binding_result input.request_id
        (bound_row input d r)
        (existing_outcome (bound_row input d r))
      ≡ ok (binding_result input d)
unfolding to_binding_result
bound_row_answer input d r place hash outcome = rw (hash, outcome, place) refl

Written-IsAnswered :
    (deps : BindingDeps) (input : BindSubjectInput) (db after : SubjectDb)
    (result : SubjectBindingResult)
    → check_binding input ≡ ok tt
    → IsSound db.tables
    → lookup "" db.tables.requests ≡ none
    → Written deps input db after result
    → IsAnswered input after result
unfolding find_request bound_rows
Written-IsAnswered deps input db after result checked sound named w =
    let d = decide deps input w.row db.tables in
    let rows = bound_rows input d w.row db.tables.requests in
    let known = find_request-Found input w.row w.its_environment db.tables w.looked_up in
    let same =
      append_events-SameRows deps input d (record (db.tables) { requests = rows }) after.tables
        w.audit_written in
    record {
      row = bound_row input d w.row;
      place = w.its_environment;
      there =
          Found-find_request input (bound_row input d w.row) w.its_environment after.tables
            (record {
              checked = record {
                row =
                    rw
                      (
                        same.requests,
                        lookup-insert input.request_id input.request_id (bound_row input d w.row)
                            (after_decision input d db.tables.requests),
                        eq_refl input.request_id,
                      )
                      refl;
                tenant = known.checked.tenant;
                environment = known.checked.environment;
              };
              at_place = rw same.environments known.at_place;
              place_tenant = known.place_tenant;
            });
      same_binding =
          rw
            (
              eq_refl input.subject_hash,
              (nat_beq_iff input.subject_hash_key_version input.subject_hash_key_version).1 refl,
              (nat_beq_iff input.canonicalization_version input.canonicalization_version).1 refl,
            )
            refl;
      answer =
          bound_row_answer input d w.row known.checked.environment (hash_not_empty input checked) (
            outcome_kept input d w.row
              (λ id e. duplicate_not_empty deps input w.row db.tables id sound named e))
          ∙ ap ok (sym w.answer);
      no_envelope = rw w.envelopes_after (erase_twice input.request_id db.envelopes);
    }

-- When a binding of a subject has succeeded, and the tables that it found behind its lock have
-- distinct ids, none of them empty, requests in environments of their own tenants, and no two
-- that break the index on open requests, the same call at any later time that finds the tables as
-- they were left gives the same answer and changes nothing.
pub bind_again :
    (deps others : BindingDeps) (input : BindSubjectInput) (waited later : SubjectDb → SubjectDb)
    (db after : SubjectDb) (result : SubjectBindingResult) (now : ℕ) (now_text : String)
    → bind_subject deps input waited db ≡ ok (after, result)
    → IsSound (waited db).tables
    → lookup "" (waited db).tables.requests ≡ none
    → bind_subject others (retimed now now_text input) later after ≡ ok (after, result)
bind_again deps others input waited later db after result now now_text h sound named =
    let (checked, which) = bind_subject-Binding deps input waited db after result h in
    IsAnswered-again others input later after result now now_text checked (elim which [
      | inl r ↦ Rebound-IsAnswered input db after result r
      | inr (inl r) ↦ Rebound-IsAnswered input (waited db) after result r
      | inr (inr w) ↦ Written-IsAnswered deps input (waited db) after result checked sound named w
    ])
