-- ===== src/Subjects/Requests.antt =====
-- How `bindSubject` finds its request, and the checks of it, of the agent and of the envelope.
-- `findRequest`: the request's row and its environment's.
use forget_ops.Database.Tables.{EnvironmentRow, RequestRow, Tables}
use forget_ops.Prelude.{
  Bool, Option, Outcome, String, erase, false, if◌then◌else◌, is_present, is_some_text, leb, lookup,
  nat_beq, nat_strict, none, not, ok, reject_if, require, some, string_strict, true, ℕ, ◌&&◌, ◌==◌,
  ◌>>=◌, ◌>>◌, ◌||◌,
}
use forget_ops.PrivacyRequest.Status.{
  Status, awaiting_approval, created, identity_verification_pending, identity_verified, planning,
  status_strict,
}
use forget_ops.Subjects.Data.{
  AgentKeyRow, BindSubjectInput, BindingOutcome, EnvelopeRow, SubjectBindingResult, SubjectDb,
  SubjectError, agent_not_active, already_bound, binding_state_invalid, bound, duplicate_cancelled,
  duplicate_override, envelope_expired, envelope_key_mismatch, envelope_not_found, is_active_status,
  key_version_mismatch, request_version_conflict,
}

unfoldable pub find_request :
    String → String → String → Tables → Option (RequestRow × EnvironmentRow)
find_request tenant environment request db = elim (lookup request db.requests) [
  | none ↦ none
  | some r ↦ elim (lookup environment db.environments) [
    | none ↦ none
    | some e ↦
        if r.tenant_id == tenant && r.environment_id == environment && e.tenant_id == tenant
        then some (r, e)
        else none
  ]
]

abbrev pub is_cancellable : Status → Bool
is_cancellable created = true
is_cancellable identity_verification_pending = true
is_cancellable identity_verified = true
is_cancellable planning = true
is_cancellable awaiting_approval = true
is_cancellable _ = false

abbrev pub is_some_number : Option ℕ → ℕ → Bool
is_some_number none n = false
is_some_number (some m) n = nat_beq m n

abbrev pub is_bound_as : BindSubjectInput → RequestRow → Bool
is_bound_as input r =
    is_some_text r.subject_hash input.subject_hash
    && is_some_number r.subject_hash_key_version input.subject_hash_key_version
    && is_some_number r.subject_canonicalization_version input.canonicalization_version

abbrev pub is_bound_at_all : RequestRow → Bool
is_bound_at_all r =
    is_present r.subject_hash
    || is_present r.subject_hash_key_version
    || is_present r.subject_canonicalization_version

-- A text is true unless it is empty.
abbrev pub is_truthy : Option String → Bool
is_truthy none = false
is_truthy (some t) = not (t == "")

-- `existingOutcome`
unfoldable pub existing_outcome : RequestRow → BindingOutcome
existing_outcome r =
    if is_truthy r.duplicate_of_request_id
    then duplicate_cancelled
    else if r.duplicate_override
    then duplicate_override
    else bound

-- `toBindingResult`
unfoldable pub to_binding_result :
    String → RequestRow → BindingOutcome → Outcome SubjectError SubjectBindingResult
to_binding_result id r outcome = do
  hash ← require r.subject_hash binding_state_invalid
  reject_if (hash == "") binding_state_invalid
  key_version ← require r.subject_hash_key_version binding_state_invalid
  canonicalization ← require r.subject_canonicalization_version binding_state_invalid
  ok (record {
    request_id = id;
    environment_id = r.environment_id;
    subject_hash = hash;
    subject_hash_key_version = key_version;
    canonicalization_version = canonicalization;
    duplicate_of_request_id = r.duplicate_of_request_id;
    outcome = outcome;
  })

abbrev pub drop_envelope : String → SubjectDb → SubjectDb
drop_envelope id db = record db { envelopes = erase id db.envelopes }

-- The answer for a request that has this binding.
unfoldable pub bound_already :
    BindSubjectInput
    → RequestRow
    → SubjectDb
    → Outcome SubjectError (SubjectDb × SubjectBindingResult)
unfolding to_binding_result existing_outcome
bound_already input r db = do
  result ← to_binding_result input.request_id r (existing_outcome r)
  ok (drop_envelope input.request_id db, result)

-- The checks of a request that has no binding.
unfoldable pub check_unbound :
    BindSubjectInput → RequestRow → EnvironmentRow → Outcome SubjectError (Unit {0})
check_unbound input r e = do
  reject_if (is_bound_at_all r) already_bound
  reject_if (not (nat_beq r.version input.expected_version)) request_version_conflict
  reject_if (not (is_cancellable r.status)) binding_state_invalid
  reject_if
      (not (nat_beq e.subject_hash_key_version input.subject_hash_key_version)
        || not (nat_beq e.subject_canonicalization_version input.canonicalization_version))
      key_version_mismatch

abbrev pub active_agent : BindSubjectInput → SubjectDb → Option AgentKeyRow
active_agent input db = elim (lookup input.agent_id db.agents) [
  | none ↦ none
  | some a ↦
      if a.environment_id == input.environment_id && is_active_status a.status then some a else none
]

abbrev pub scoped_envelope : BindSubjectInput → SubjectDb → Option EnvelopeRow
scoped_envelope input db = elim (lookup input.request_id db.envelopes) [
  | none ↦ none
  | some v ↦
      if v.tenant_id == input.tenant_id && v.environment_id == input.environment_id
      then some v
      else none
]

abbrev pub is_agent_key : Option String → String → Bool
is_agent_key none key = false
is_agent_key (some k) key = not (k == "") && key == k

-- The checks of the agent and the envelope. The deletion of an expired envelope is rolled back with
-- the error that follows it.
unfoldable pub check_agent : BindSubjectInput → SubjectDb → Outcome SubjectError (Unit {0})
check_agent input db = do
  agent ← require (active_agent input db) agent_not_active
  envelope ← require (scoped_envelope input db) envelope_not_found
  reject_if (leb envelope.expires_at input.now) envelope_expired
  reject_if (not (is_agent_key agent.encryption_key_id envelope.encryption_key_id))
      envelope_key_mismatch
