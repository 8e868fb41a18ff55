-- ===== src/Subjects/Rivals.antt =====
-- A subject has one open request of a type in an environment, unless duplicates are overridden: the
-- unique index privacy_requests_one_active_subject_type_uq of packages/database/migrations.
use forget_ops.Database.Repository.{owns_environment}
use forget_ops.Database.Tables.{RequestRow, Tables}
use forget_ops.Prelude.{
  Bool, List, Option, String, arith, eq_iff, false, is_some_text, lookup, nat_strict, none, refl,
  some, string_strict, sym, true, ◌&&◌, ◌==◌, ◌≡◌,
}
use forget_ops.PrivacyRequest.Data.{RequestType, delete, export}
use forget_ops.PrivacyRequest.Status.{status_strict}
use forget_ops.Subjects.BindingParts.{IsDistinct}
use forget_ops.Subjects.Data.{BindSubjectInput}
use forget_ops.Subjects.Duplicates.{is_open, same_type}

abbrev pub same_subject : Option String → Option String → Bool
same_subject (some h) other = is_some_text other h
same_subject none other = false

-- Two rows that the index does not allow together.
abbrev pub compete : RequestRow → RequestRow → Bool
compete r s =
    r.environment_id == s.environment_id
    && same_subject r.subject_hash s.subject_hash
    && same_type r.request_type s.request_type
    && is_open r
    && is_open s

abbrev pub IsUnique : List (String × RequestRow) → Type 0
IsUnique rows =
    (i j : String) (r s : RequestRow)
    → lookup i rows ≡ some r
    → lookup j rows ≡ some s
    → compete r s ≡ true
    → i ≡ j

-- Every request is in an environment of its own tenant.
abbrev pub IsOwned : Tables → Type 0
IsOwned db =
    (i : String) (r : RequestRow)
    → lookup i db.requests ≡ some r
    → owns_environment r.tenant_id r.environment_id db ≡ true

pub record IsSound (db : Tables) : Type 0 where
  pub distinct : IsDistinct db.requests
  pub owned : IsOwned db
  pub unique : IsUnique db.requests

-- What has been checked when a binding is written.
pub record Checked (input : BindSubjectInput) (r : RequestRow) (db : Tables) : Type 0 where
  pub row : lookup input.request_id db.requests ≡ some r
  pub tenant : r.tenant_id ≡ input.tenant_id
  pub environment : r.environment_id ≡ input.environment_id

same_subject_sym : (g h : Option String) → same_subject g h ≡ true → same_subject h g ≡ true
same_subject_sym none h e = absurd (ground arith)
same_subject_sym (some x) none e = absurd (ground arith)
same_subject_sym (some x) (some y) e = ground (arith, eq_iff x y, eq_iff y x)

pub same_type_sym : (s t : RequestType) → same_type s t ≡ true → same_type t s ≡ true
same_type_sym delete t e = ground arith
same_type_sym export t e = ground arith

-- Five tests in a row.
five-parts :
    (a b c d e : Bool)
    → (a && b && c && d && e) ≡ true
    → (a ≡ true) × (b ≡ true) × (c ≡ true) × (d ≡ true) × (e ≡ true)
five-parts true true true true true h = (refl, refl, refl, refl, refl)
five-parts true true true true false h = absurd (ground arith)
five-parts true true true false e h = absurd (ground arith)
five-parts true true false d e h = absurd (ground arith)
five-parts true false c d e h = absurd (ground arith)
five-parts false b c d e h = absurd (ground arith)

pub six-parts :
    (a b c d e f : Bool)
    → (a && b && c && d && e && f) ≡ true
    → (b ≡ true) × (c ≡ true) × (d ≡ true) × (f ≡ true)
six-parts true b c d e f h =
    let parts = five-parts b c d e f h in (parts.0, parts.1, parts.2, parts.4)
six-parts false b c d e f h = absurd (ground arith)

-- The tests of `compete`.
pub record Rivals (r s : RequestRow) : Type 0 where
  pub environment : r.environment_id ≡ s.environment_id
  pub subject : same_subject r.subject_hash s.subject_hash ≡ true
  pub type : same_type r.request_type s.request_type ≡ true
  pub first_open : is_open r ≡ true
  pub second_open : is_open s ≡ true

pub compete-Rivals : (r s : RequestRow) → compete r s ≡ true → Rivals r s
compete-Rivals r s h =
    let parts =
      five-parts (r.environment_id == s.environment_id) (same_subject r.subject_hash s.subject_hash)
        (same_type r.request_type s.request_type) (is_open r) (is_open s) h in
    record {
      environment = (eq_iff r.environment_id s.environment_id).0 parts.0;
      subject = parts.1;
      type = parts.2;
      first_open = parts.3;
      second_open = parts.4;
    }

pub Rivals-compete : (r s : RequestRow) → Rivals r s → compete r s ≡ true
Rivals-compete r s v =
    rw
      (
        (eq_iff r.environment_id s.environment_id).1 v.environment,
        v.subject,
        v.type,
        v.first_open,
        v.second_open,
      )
      refl

pub compete_sym : (r s : RequestRow) → compete r s ≡ true → compete s r ≡ true
compete_sym r s h =
    let v = compete-Rivals r s h in
    Rivals-compete s r (record {
      environment = sym v.environment;
      subject = same_subject_sym r.subject_hash s.subject_hash v.subject;
      type = same_type_sym r.request_type s.request_type v.type;
      first_open = v.second_open;
      second_open = v.first_open;
    })
