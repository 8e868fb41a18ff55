-- ===== src/Subjects/Tests.antt =====
-- A request that is bound to a subject who has another one open, with stand-ins for the packages'
-- functions.
use forget_ops.Audit.Chain.{verify_chain, verify_from}
use forget_ops.Database.AuditLog.{append_entry, write_entry}
use forget_ops.Database.Repository.{owns_environment}
use forget_ops.Database.Tables.{ChainCrypto, RequestRow, Tables}
use forget_ops.Gateway.Data.{online}
use forget_ops.Prelude.{
  Bool-cases, List, Option, Outcome, String, [], ap, arith, char_codes, eq_iff, err, false, get_or,
  inl, inr, insert, lookup, map, nat_strict, none, ok, refl, some, string_strict, subst, suc, sym,
  true, zero, ℕ, ◌==◌, ◌∙◌, ◌∷◌, ◌≡◌, ◌≢◌, ◌⊎◌,
}
use forget_ops.PrivacyRequest.Data.{admin, delete}
use forget_ops.PrivacyRequest.Status.{Status, cancelled, identity_verified, status_strict}
use forget_ops.Subjects.Binding.{bind_subject, binding_result}
use forget_ops.Subjects.BindingParts.{IsDistinct}
use forget_ops.Subjects.Data.{BindSubjectInput, SubjectBindingResult, SubjectDb, SubjectError}
use forget_ops.Subjects.Duplicates.{BindingDeps, candidate_is_duplicate}
use forget_ops.Subjects.Rebinding.{bind_again, retimed}
use forget_ops.Subjects.Rivals.{IsSound, compete, compete_sym}
use forget_ops.Subjects.Soundness.{IsKept, bind-IsKept}

abbrev digest : String
digest = "hmac-sha256:0123456789abcdef0123456789abcdef0123456789abcdef0123456789abcdef"

abbrev zeros : ℕ → List ℕ
zeros zero = []
zeros (suc n) = 0 ∷ zeros n

abbrev crypto : ChainCrypto
crypto = record {
  canonicalize = λ e. some (char_codes e.sequence);
  hex_bytes = λ h. zeros 32;
  sha256_hex = λ bytes. "hash";
}

abbrev deps : BindingDeps
deps = record {
  crypto = crypto;
  collate = λ x y. false;
  locale_after = λ x y. false;
  candidate_event_id = "e1";
  event_id = "e2";
}

abbrev a_row : Option String → Option ℕ → ℕ → RequestRow
a_row hash key_version created_at = record {
  tenant_id = "tenant";
  environment_id = "env";
  request_type = delete;
  source = admin;
  subject_hash = hash;
  subject_hash_key_version = key_version;
  subject_canonicalization_version = key_version;
  duplicate_override = false;
  duplicate_of_request_id = none;
  status = identity_verified;
  policy_version = 1;
  deadline_at = "2026-02-01";
  created_by_actor_id = "admin";
  created_at = created_at;
  completed_at = none;
  current_attempt_id = none;
  version = 3;
}

abbrev tables : Tables
tables = record {
  environments =
      (
        "env",
        record {
          tenant_id = "tenant";
          subject_hash_key_version = 1;
          subject_canonicalization_version = 1;
        },
      )
      ∷ [];
  requests = ("older", a_row none none 1000) ∷ ("newer", a_row (some digest) (some 1) 2000) ∷ [];
  attempts = [];
  heads = [];
  events = [];
  outbox = [];
}

abbrev db : SubjectDb
db = record {
  tables = tables;
  agents =
      ("agent", record { environment_id = "env"; encryption_key_id = some "key"; status = online })
      ∷ [];
  envelopes =
      (
        "older",
        record {
          tenant_id = "tenant";
          environment_id = "env";
          ciphertext = "sealed";
          encryption_key_id = "key";
          expires_at = 9000;
          consumed_at = none;
        },
      )
      ∷ [];
  aliases = [];
}

abbrev input : BindSubjectInput
input = record {
  tenant_id = "tenant";
  environment_id = "env";
  request_id = "older";
  agent_id = "agent";
  subject_hash = digest;
  subject_hash_key_version = 1;
  canonicalization_version = 1;
  expected_version = 3;
  aliases = [];
  duplicate_override = none;
  now = 5000;
  now_text = "2026-01-01";
}

abbrev unchanged : SubjectDb → SubjectDb
unchanged d = d

abbrev after_of : Outcome SubjectError (SubjectDb × SubjectBindingResult) → SubjectDb
after_of (ok (d, r)) = d
after_of (err e) = db

abbrev after : SubjectDb
after = after_of (bind_subject deps input unchanged db)

-- The older request keeps the subject, and the newer one is cancelled.
binds :
    bind_subject deps input unchanged db
    ≡ ok (after, binding_result input (candidate_is_duplicate "newer"))
unfolding bind_subject lookup insert append_entry write_entry
binds = refl

newer_cancelled :
    map {B = String × Status} (λ (p : String × RequestRow). (p.0, p.1.status)) after.tables.requests
    ≡ ("older", identity_verified) ∷ ("newer", cancelled) ∷ []
unfolding bind_subject lookup insert append_entry write_entry
newer_cancelled = refl

row_cases :
    (i key : String) (v r : RequestRow) (rows : List (String × RequestRow))
    → lookup i ((key, v) ∷ rows) ≡ some r
    → ((key ≡ i) × (v ≡ r)) ⊎ (lookup i rows ≡ some r)
unfolding lookup
row_cases i key v r rows there = elim (Bool-cases (key == i)) [
  | inl same ↦
      inl ((eq_iff key i).0 same, ap (λ (o : Option RequestRow). get_or o v) (rw same at there))
  | inr other ↦ inr (rw other at there)
]

abbrev older : RequestRow
older = a_row none none 1000

abbrev newer : RequestRow
newer = a_row (some digest) (some 1) 2000

two_rows :
    (i : String) (r : RequestRow)
    → lookup i tables.requests ≡ some r
    → (older ≡ r) ⊎ (("newer" ≡ i) × (newer ≡ r))
unfolding lookup
two_rows i r there = elim (row_cases i "older" older r (("newer", newer) ∷ []) there) [
  | inl found ↦ inl found.1
  | inr rest ↦ elim (row_cases i "newer" newer r [] rest) [
    | inl found ↦ inr found
    | inr none_left ↦ absurd (ground arith)
  ]
]

not_bound_row : (s : RequestRow) → compete older s ≢ true
not_bound_row s rivals = ground arith

tables-IsSound : IsSound tables
unfolding IsDistinct lookup
tables-IsSound = record {
  distinct = (refl, (refl, tt));
  owned = λ i r there. elim (two_rows i r there) [
    | inl found ↦
        subst (λ x. owns_environment x.tenant_id x.environment_id tables ≡ true) found refl
    | inr found ↦
        subst (λ x. owns_environment x.tenant_id x.environment_id tables ≡ true) found.1 refl
  ];
  unique = λ i j r s at_i at_j rivals. elim (two_rows i r at_i) [
    | inl found ↦ absurd (not_bound_row s (subst (λ x. compete x s ≡ true) (sym found) rivals))
    | inr first ↦ elim (two_rows j s at_j) [
      | inl found ↦ absurd (
          not_bound_row r
            (compete_sym r older (subst (λ x. compete r x ≡ true) (sym found) rivals)))
      | inr second ↦ sym first.0 ∙ second.0
    ]
  ];
}

tables-IsKept : IsKept crypto tables
unfolding verify_chain verify_from lookup
tables-IsKept = record {
  sound = tables-IsSound;
  chained_at = λ environment. record { checked = refl; head_fits = refl };
}

bind-IsKept_example : IsKept crypto after.tables
bind-IsKept_example =
    bind-IsKept deps input unchanged db after
      (binding_result input (candidate_is_duplicate "newer")) binds tables-IsKept tables-IsKept

bind_again_example :
    bind_subject deps (retimed 7000 "2026-01-02" input) unchanged after
    ≡ ok (after, binding_result input (candidate_is_duplicate "newer"))
unfolding bind_subject lookup
bind_again_example =
    bind_again deps deps input unchanged unchanged db after
      (binding_result input (candidate_is_duplicate "newer")) 7000 "2026-01-02" binds tables-IsSound
      refl
