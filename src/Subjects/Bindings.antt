-- ===== src/Subjects/Bindings.antt =====
-- What a binding that succeeds has read and written.
-- The answer for a request that was bound before.
use forget_ops.Database.AuditLog.{AuditFailure}
use forget_ops.Database.Tables.{EnvironmentRow, RequestRow, Tables}
use forget_ops.Prelude.{
  Bool-cases, Option-cases, Outcome, ap, arith, bind-ok, erase, err, inl, inr, ok, ok_injective,
  some, sym, then-ok, true, ◌∙◌, ◌≡◌, ◌⊎◌,
}
use forget_ops.Subjects.Binding.{
  append_events, audited_binding, bind_locked, bind_subject, bind_unbound, binding_result,
  write_binding,
}
use forget_ops.Subjects.Data.{BindSubjectInput, SubjectBindingResult, SubjectDb}
use forget_ops.Subjects.Duplicates.{BindingDeps, bound_rows, decide}
use forget_ops.Subjects.Requests.{
  bound_already, check_agent, check_unbound, drop_envelope, existing_outcome, find_request,
  is_bound_as, to_binding_result,
}
use forget_ops.Subjects.Validation.{check_binding}

pub record Rebound (input : BindSubjectInput) (db after : SubjectDb) (result : SubjectBindingResult)
    : Type 0 where
  pub row : RequestRow
  pub its_environment : EnvironmentRow
  pub looked_up :
      find_request input.tenant_id input.environment_id input.request_id db.tables
      ≡ some (row, its_environment)
  pub same_binding : is_bound_as input row ≡ true
  pub answer : to_binding_result input.request_id row (existing_outcome row) ≡ ok result
  pub db_after : after ≡ drop_envelope input.request_id db

-- A new binding.
pub record Written (deps : BindingDeps) (input : BindSubjectInput) (db after : SubjectDb)
    (result : SubjectBindingResult) : Type 0 where
  pub row : RequestRow
  pub its_environment : EnvironmentRow
  pub looked_up :
      find_request input.tenant_id input.environment_id input.request_id db.tables
      ≡ some (row, its_environment)
  pub not_bound : check_unbound input row its_environment ≡ ok tt
  pub agent_fits : check_agent input db ≡ ok tt
  pub audit_written :
      append_events deps input (decide deps input row db.tables) (record (db.tables) {
        requests = bound_rows input (decide deps input row db.tables) row db.tables.requests;
      })
      ≡ ok after.tables
  pub envelopes_after : after.envelopes ≡ erase input.request_id db.envelopes
  pub answer : result ≡ binding_result input (decide deps input row db.tables)

bound_already-Rebound :
    (input : BindSubjectInput) (r : RequestRow) (e : EnvironmentRow) (db after : SubjectDb)
    (result : SubjectBindingResult)
    → find_request input.tenant_id input.environment_id input.request_id db.tables ≡ some (r, e)
    → is_bound_as input r ≡ true
    → bound_already input r db ≡ ok (after, result)
    → Rebound input db after result
unfolding bound_already
bound_already-Rebound input r e db after result found same h =
    let (answered, given, rest) =
      bind-ok (to_binding_result input.request_id r (existing_outcome r))
        (λ answered. ok (drop_envelope input.request_id db, answered)) (after, result) h in
    let pair = ok_injective (drop_envelope input.request_id db, answered) (after, result) rest in
    record {
      row = r;
      its_environment = e;
      looked_up = found;
      same_binding = same;
      answer = given ∙ ap ok (ap (λ (p : SubjectDb × SubjectBindingResult). p.1) pair);
      db_after = sym (ap (λ (p : SubjectDb × SubjectBindingResult). p.0) pair);
    }

audited_binding-ok :
    {A : Type 0} → (o : Outcome AuditFailure A) (a : A) → audited_binding o ≡ ok a → o ≡ ok a
audited_binding-ok (ok b) a h = ap ok (ok_injective b a h)
audited_binding-ok (err e) a h = absurd (ground arith)

-- The tables before the audit.
abbrev pub updated_tables : BindingDeps → BindSubjectInput → RequestRow → Tables → Tables
updated_tables deps input r db = record db {
  requests = bound_rows input (decide deps input r db) r db.requests;
}

bind_unbound-Written :
    (deps : BindingDeps) (input : BindSubjectInput) (r : RequestRow) (e : EnvironmentRow)
    (db after : SubjectDb) (result : SubjectBindingResult)
    → find_request input.tenant_id input.environment_id input.request_id db.tables ≡ some (r, e)
    → bind_unbound deps input r e db ≡ ok (after, result)
    → Written deps input db after result
unfolding bind_unbound write_binding
bind_unbound-Written deps input r e db after result found h =
    let (unbound, rest) = then-ok (check_unbound input r e) _ (after, result) h in
    let (agent_fits, written) = then-ok (check_agent input db) _ (after, result) rest in
    let (tables, audit, last) =
      bind-ok
        (audited_binding (
          append_events deps input (decide deps input r db.tables)
            (updated_tables deps input r db.tables)))
        _ (after, result) written in
    let pair = ok_injective _ (after, result) last in
    let state = ap (λ (p : SubjectDb × SubjectBindingResult). p.0) pair in
    record {
      row = r;
      its_environment = e;
      looked_up = found;
      not_bound = unbound;
      agent_fits = agent_fits;
      audit_written =
          audited_binding-ok _ tables audit ∙ ap ok (ap (λ (d : SubjectDb). d.tables) state);
      envelopes_after = sym (ap (λ (d : SubjectDb). d.envelopes) state);
      answer = sym (ap (λ (p : SubjectDb × SubjectBindingResult). p.1) pair);
    }

pub bind_locked-Binding :
    (deps : BindingDeps) (input : BindSubjectInput) (db after : SubjectDb)
    (result : SubjectBindingResult)
    → bind_locked deps input db ≡ ok (after, result)
    → Rebound input db after result ⊎ Written deps input db after result
unfolding bind_locked
bind_locked-Binding deps input db after result h =
    elim (Option-cases
      (find_request input.tenant_id input.environment_id input.request_id db.tables)) [
        | inl nothing ↦ absurd (ground (arith, nothing))
        | inr ((r, e), found) ↦ elim (Bool-cases (is_bound_as input r)) [
          | inl same ↦ inl (
              bound_already-Rebound input r e db after result found same
                (rw (found, same, bind_locked) at h))
          | inr differ ↦ inr (
              bind_unbound-Written deps input r e db after result found
                (rw (found, differ, bind_locked) at h))
        ]
      ]

-- A binding, first at the look before the lock, then behind it.
pub bind_subject-Binding :
    (deps : BindingDeps) (input : BindSubjectInput) (waited : SubjectDb → SubjectDb)
    (db after : SubjectDb) (result : SubjectBindingResult)
    → bind_subject deps input waited db ≡ ok (after, result)
    → (check_binding input ≡ ok tt)
      × (Rebound input db after result
          ⊎ (Rebound input (waited db) after result ⊎ Written deps input (waited db) after result))
unfolding bind_subject
bind_subject-Binding deps input waited db after result h =
    let (checked, rest) = then-ok (check_binding input) _ (after, result) h in
    (
      checked,
      elim (Option-cases
          (find_request input.tenant_id input.environment_id input.request_id db.tables)) [
            | inl nothing ↦ absurd (ground (arith, nothing))
            | inr ((r, e), found) ↦ elim (Bool-cases (is_bound_as input r)) [
              | inl same ↦ inl (
                  bound_already-Rebound input r e db after result found same
                    (rw (found, same) at rest))
              | inr differ ↦ inr (
                  bind_locked-Binding deps input (waited db) after result
                    (rw (found, differ) at rest))
            ]
          ],
    )
