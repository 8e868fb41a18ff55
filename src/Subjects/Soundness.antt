-- ===== src/Subjects/Soundness.antt =====
-- What every binding keeps: the uniqueness of open requests, and the audit chains.
use forget_ops.Database.Chains.{
  IsChained, SameRows, append_audit_event-IsChained, append_audit_event-SameRows,
}
use forget_ops.Database.Repository.{owns_environment}
use forget_ops.Database.Tables.{ChainCrypto, RequestRow, Tables}
use forget_ops.Prelude.{
  List, String, bind-ok, inl, inr, lookup, ok, ok_injective, refl, some, subst, sym, true, ◌∙◌, ◌≡◌,
}
use forget_ops.Subjects.Binding.{
  append_candidate, append_events, bind_subject, binding_entry, candidate_entry,
}
use forget_ops.Subjects.BindingParts.{IsDistinct}
use forget_ops.Subjects.Bindings.{Rebound, Written, bind_subject-Binding}
use forget_ops.Subjects.Data.{BindSubjectInput, SubjectBindingResult, SubjectDb}
use forget_ops.Subjects.Duplicates.{
  BindingDeps, Decision, bound_rows, candidate_is_duplicate, current_is_duplicate, decide,
  no_candidate,
}
use forget_ops.Subjects.Lookups.{find_request-Found}
use forget_ops.Subjects.Placement.{AllPlaced, Placed, bound_rows-AllPlaced, bound_rows-IsDistinct}
use forget_ops.Subjects.Rivals.{IsSound, IsUnique}
use forget_ops.Subjects.Uniqueness.{bound_rows-IsUnique}

append_candidate-SameRows :
    (deps : BindingDeps) (input : BindSubjectInput) (d : Decision) (db after : Tables)
    → append_candidate deps input d db ≡ ok after
    → SameRows db after
unfolding append_candidate
append_candidate-SameRows deps input (candidate_is_duplicate id) db after h =
    append_audit_event-SameRows deps.crypto (candidate_entry deps input id) db after h
append_candidate-SameRows deps input no_candidate db after h =
    subst (SameRows db) (ok_injective db after h) (record { environments = refl; requests = refl })
append_candidate-SameRows deps input (current_is_duplicate id) db after h =
    subst (SameRows db) (ok_injective db after h) (record { environments = refl; requests = refl })

append_candidate-IsChained :
    (deps : BindingDeps) (input : BindSubjectInput) (d : Decision) (environment : String)
    (db after : Tables)
    → append_candidate deps input d db ≡ ok after
    → IsChained deps.crypto environment db
    → IsChained deps.crypto environment after
unfolding append_candidate
append_candidate-IsChained deps input (candidate_is_duplicate id) environment db after h c =
    append_audit_event-IsChained deps.crypto (candidate_entry deps input id) environment db after h
      c
append_candidate-IsChained deps input no_candidate environment db after h c =
    subst (IsChained deps.crypto environment) (ok_injective db after h) c
append_candidate-IsChained deps input (current_is_duplicate id) environment db after h c =
    subst (IsChained deps.crypto environment) (ok_injective db after h) c

pub append_events-SameRows :
    (deps : BindingDeps) (input : BindSubjectInput) (d : Decision) (db after : Tables)
    → append_events deps input d db ≡ ok after
    → SameRows db after
unfolding append_events append_candidate
append_events-SameRows deps input d db after h =
    let (mid, first, second) = bind-ok (append_candidate deps input d db) _ after h in
    let b = append_audit_event-SameRows deps.crypto (binding_entry deps input d) mid after second in
    let a = append_candidate-SameRows deps input d db mid first in
    record { environments = b.environments ∙ a.environments; requests = b.requests ∙ a.requests }

append_events-IsChained :
    (deps : BindingDeps) (input : BindSubjectInput) (d : Decision) (environment : String)
    (db after : Tables)
    → append_events deps input d db ≡ ok after
    → IsChained deps.crypto environment db
    → IsChained deps.crypto environment after
unfolding append_events
append_events-IsChained deps input d environment db after h c =
    let (mid, first, second) = bind-ok (append_candidate deps input d db) _ after h in
    append_audit_event-IsChained deps.crypto (binding_entry deps input d) environment mid after
      second (append_candidate-IsChained deps input d environment db mid first c)

-- The index, and the chains of the audit.
pub record IsKept (k : ChainCrypto) (db : Tables) : Type 0 where
  pub sound : IsSound db
  pub chained_at : (environment : String) → IsChained k environment db

Rebound-IsKept :
    (deps : BindingDeps) (input : BindSubjectInput) (db after : SubjectDb)
    (result : SubjectBindingResult)
    → Rebound input db after result
    → IsKept deps.crypto db.tables
    → IsKept deps.crypto after.tables
Rebound-IsKept deps input db after result r k =
    subst (λ (d : SubjectDb). IsKept deps.crypto d.tables) (sym r.db_after) k

owns_moved :
    (t u e f : String) (db after : Tables)
    → after.environments ≡ db.environments
    → t ≡ u
    → e ≡ f
    → owns_environment t e db ≡ true
    → owns_environment u f after ≡ true
owns_moved t u e f db after environments tenant place h =
    let moved : owns_environment u f db ≡ true =
      subst (λ x. owns_environment x f db ≡ true) tenant
        (subst (λ x. owns_environment t x db ≡ true) place h) in
    rw environments moved

-- Rows with these requests, in the same environments.
moved-IsSound :
    (rows : List (String × RequestRow)) (db after : Tables)
    → after.requests ≡ rows
    → after.environments ≡ db.environments
    → IsDistinct rows
    → AllPlaced db.requests rows
    → IsUnique rows
    → IsSound db
    → IsSound after
unfolding AllPlaced Placed
moved-IsSound rows db after requests environments distinct placed unique sound = record {
  distinct = rw requests distinct;
  owned = λ i r there.
      let old = placed i r (subst (λ m. lookup i m ≡ some r) requests there) in
      let mine = sound.owned i old.0 old.1 in
      owns_moved old.0.tenant_id r.tenant_id old.0.environment_id r.environment_id db after
        environments old.2 old.3 mine;
  unique = rw requests unique;
}

Written-IsKept :
    (deps : BindingDeps) (input : BindSubjectInput) (db after : SubjectDb)
    (result : SubjectBindingResult)
    → Written deps input db after result
    → IsKept deps.crypto db.tables
    → IsKept deps.crypto after.tables
Written-IsKept deps input db after result w k =
    let d = decide deps input w.row db.tables in
    let rows = bound_rows input d w.row db.tables.requests in
    let updated : Tables = record (db.tables) { requests = rows } in
    let checked =
      (find_request-Found input w.row w.its_environment db.tables w.looked_up).checked in
    let same = append_events-SameRows deps input d updated after.tables w.audit_written in
    record {
      sound =
          moved-IsSound rows db.tables after.tables same.requests same.environments
            (bound_rows-IsDistinct input d w.row db.tables.requests k.sound.distinct)
            (bound_rows-AllPlaced input d w.row db.tables checked)
            (bound_rows-IsUnique deps input w.row db.tables checked k.sound) k.sound;
      chained_at = λ environment.
          append_events-IsChained deps input d environment updated after.tables w.audit_written
            (record {
              checked = (k.chained_at environment).checked;
              head_fits = (k.chained_at environment).head_fits;
            });
    }

-- A binding of a subject that succeeds leaves tables in which the following holds, if it holds of
-- the tables before it and of those that it finds behind its lock: no id is there twice, every
-- request is in an environment of its own tenant, no two requests that are open and without an
-- override have the same environment, subject hash and type, and the audit events of every
-- environment are a valid chain that ends at the environment's head.
pub bind-IsKept :
    (deps : BindingDeps) (input : BindSubjectInput) (waited : SubjectDb → SubjectDb)
    (db after : SubjectDb) (result : SubjectBindingResult)
    → bind_subject deps input waited db ≡ ok (after, result)
    → IsKept deps.crypto db.tables
    → IsKept deps.crypto (waited db).tables
    → IsKept deps.crypto after.tables
bind-IsKept deps input waited db after result h before behind =
    let (checked, which) = bind_subject-Binding deps input waited db after result h in
    elim which [
      | inl r ↦ Rebound-IsKept deps input db after result r before
      | inr (inl r) ↦ Rebound-IsKept deps input (waited db) after result r behind
      | inr (inr w) ↦ Written-IsKept deps input (waited db) after result w behind
    ]
