-- ===== src/Subjects/Binding.antt =====
-- `bindSubject` of the repository. What others commit while it waits for the advisory lock is a
-- function of the tables, `waited`.
use forget_ops.Audit.Chain.{ActorType, agent_actor, user_actor}
use forget_ops.Database.AuditLog.{AuditEntry, AuditFailure, append_audit_event}
use forget_ops.Database.Tables.{EnvironmentRow, Metadata, RequestRow, Tables}
use forget_ops.Prelude.{
  Bool, List, Option, Outcome, String, [], any, erase, err, if◌then◌else◌, is_present, nat_strict,
  none, ok, require, some, string_strict, ◌&&◌, ◌++◌, ◌==◌, ◌>>=◌, ◌>>◌, ◌∷◌,
}
use forget_ops.PrivacyRequest.Data.{EventValue, null, number, text}
use forget_ops.PrivacyRequest.Status.{status_strict}
use forget_ops.Subjects.Data.{
  AliasRow, BindSubjectInput, DuplicateOverride, SubjectAliasBinding, SubjectBindingResult,
  SubjectDb, SubjectError, audit_append_failed, request_not_found,
}
use forget_ops.Subjects.Duplicates.{
  BindingDeps, Decision, bound_rows, candidate_is_duplicate, decide, duplicate_of,
  is_duplicate_cancelled, outcome_of,
}
use forget_ops.Subjects.Requests.{
  bound_already, check_agent, check_unbound, find_request, is_bound_as,
}
use forget_ops.Subjects.Validation.{check_binding}

abbrev pub same_alias : AliasRow → AliasRow → Bool
same_alias x y =
    x.request_id == y.request_id
    && x.alias.identifier_kind == y.alias.identifier_kind
    && x.alias.subject_hash == y.alias.subject_hash

-- `insertAliases`
unfoldable pub insert_aliases :
    BindSubjectInput → List SubjectAliasBinding → List AliasRow → List AliasRow
insert_aliases input [] rows = rows
insert_aliases input (alias ∷ aliases) rows =
    let row : AliasRow = record {
      request_id = input.request_id;
      tenant_id = input.tenant_id;
      environment_id = input.environment_id;
      alias = alias;
    } in
    insert_aliases input aliases (if any (same_alias row) rows then rows else rows ++ row ∷ [])

abbrev pub entry_for :
    BindSubjectInput → String → String → ActorType → String → String → Metadata → AuditEntry
entry_for input id request_id actor_type actor_id action metadata = record {
  id = id;
  tenant_id = input.tenant_id;
  environment_id = input.environment_id;
  request_id = request_id;
  actor_type = actor_type;
  actor_id = actor_id;
  action = action;
  metadata = metadata;
  occurred_at = input.now_text;
}

abbrev pub text_or_null : Option String → EventValue
text_or_null none = null
text_or_null (some t) = text t

abbrev pub reason_of : Option DuplicateOverride → Metadata
reason_of none = []
reason_of (some o) = ("reason", text o.reason) ∷ []

abbrev pub binding_metadata : BindSubjectInput → Decision → Metadata
binding_metadata input d =
    ("duplicateOfRequestId", text_or_null (duplicate_of d))
    ∷ ("subjectHashKeyVersion", number input.subject_hash_key_version)
    ∷ ("canonicalizationVersion", number input.canonicalization_version)
    ∷ reason_of input.duplicate_override

abbrev pub binding_actor : BindSubjectInput → ActorType × String
binding_actor input = elim input.duplicate_override [
  | none ↦ (agent_actor, input.agent_id)
  | some o ↦ (user_actor, o.owner_actor_id)
]

abbrev pub binding_action : BindSubjectInput → Decision → String
binding_action input d =
    if is_present input.duplicate_override
    then "SubjectDuplicateOverrideApplied"
    else if is_duplicate_cancelled (outcome_of input d)
    then "PrivacyRequestDuplicateCancelled"
    else "SubjectIdentityBound"

abbrev pub binding_entry : BindingDeps → BindSubjectInput → Decision → AuditEntry
binding_entry deps input d =
    entry_for input deps.event_id input.request_id (binding_actor input).0 (binding_actor input).1
      (binding_action input d) (binding_metadata input d)

abbrev pub candidate_entry : BindingDeps → BindSubjectInput → String → AuditEntry
candidate_entry deps input id =
    entry_for input deps.candidate_event_id id agent_actor input.agent_id
      "PrivacyRequestDuplicateCancelled" (("duplicateOfRequestId", text input.request_id) ∷ [])

-- The event for a candidate that was cancelled.
unfoldable pub append_candidate :
    BindingDeps → BindSubjectInput → Decision → Tables → Outcome AuditFailure Tables
unfolding append_audit_event
append_candidate deps input (candidate_is_duplicate id) db =
    append_audit_event deps.crypto (candidate_entry deps input id) db
append_candidate deps input _ db = ok db

abbrev pub audited_binding : {A : Type 0} → Outcome AuditFailure A → Outcome SubjectError A
audited_binding (ok a) = ok a
audited_binding (err e) = err (audit_append_failed e)

unfoldable pub append_events :
    BindingDeps → BindSubjectInput → Decision → Tables → Outcome AuditFailure Tables
unfolding append_candidate append_audit_event
append_events deps input d db = append_candidate deps input d db >>= λ db.
    append_audit_event deps.crypto (binding_entry deps input d) db

-- The answer for a new binding.
abbrev pub binding_result : BindSubjectInput → Decision → SubjectBindingResult
binding_result input d = record {
  request_id = input.request_id;
  environment_id = input.environment_id;
  subject_hash = input.subject_hash;
  subject_hash_key_version = input.subject_hash_key_version;
  canonicalization_version = input.canonicalization_version;
  duplicate_of_request_id = duplicate_of d;
  outcome = outcome_of input d;
}

-- What is written once the checks have passed.
unfoldable pub write_binding :
    BindingDeps
    → BindSubjectInput
    → Decision
    → RequestRow
    → SubjectDb
    → Outcome SubjectError (SubjectDb × SubjectBindingResult)
unfolding bound_rows insert_aliases append_events
write_binding deps input d r db = do
  let updated : Tables = record (db.tables) { requests = bound_rows input d r db.tables.requests }
  tables ← audited_binding (append_events deps input d updated)
  ok (
    record {
      tables = tables;
      agents = db.agents;
      envelopes = erase input.request_id db.envelopes;
      aliases = insert_aliases input input.aliases db.aliases;
    },
    binding_result input d,
  )

-- A request that is not bound as asked.
unfoldable pub bind_unbound :
    BindingDeps
    → BindSubjectInput
    → RequestRow
    → EnvironmentRow
    → SubjectDb
    → Outcome SubjectError (SubjectDb × SubjectBindingResult)
unfolding check_unbound check_agent decide write_binding
bind_unbound deps input r e db = do
  check_unbound input r e
  check_agent input db
  write_binding deps input (decide deps input r db.tables) r db

-- From the lock on.
unfoldable pub bind_locked :
    BindingDeps
    → BindSubjectInput
    → SubjectDb
    → Outcome SubjectError (SubjectDb × SubjectBindingResult)
unfolding find_request bound_already bind_unbound
bind_locked deps input db = do
  found ←
      require (find_request input.tenant_id input.environment_id input.request_id db.tables)
        request_not_found
  if is_bound_as input found.0
      then bound_already input found.0 db
      else bind_unbound deps input found.0 found.1 db

-- `bindSubject` of the service, on the repository.
unfoldable pub bind_subject :
    BindingDeps
    → BindSubjectInput
    → (SubjectDb → SubjectDb)
    → SubjectDb
    → Outcome SubjectError (SubjectDb × SubjectBindingResult)
unfolding find_request check_binding bound_already bind_locked
bind_subject deps input waited db = do
  check_binding input
  found ←
      require (find_request input.tenant_id input.environment_id input.request_id db.tables)
        request_not_found
  if is_bound_as input found.0
      then bound_already input found.0 db
      else bind_locked deps input (waited db)
