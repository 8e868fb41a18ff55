-- ===== src/Subjects/Candidates.antt =====
-- The rows that `bindSubject` leaves open beside the one that it binds.
use forget_ops.Database.Repository.{is_terminal, owns_environment}
use forget_ops.Database.Tables.{RequestRow, Tables}
use forget_ops.Prelude.{
  Bool-cases, List, Option, Option-cases, String, arith, eq_iff, eq_refl, false, inl, inr,
  is_present, is_some_text, lookup, lookup-insert, nat_strict, none, not, refl, some, string_strict,
  subst, sym, true, ◌&&◌, ◌==◌, ◌∙◌, ◌≡◌, ◌≢◌,
}
use forget_ops.PrivacyRequest.Data.{RequestType, delete, export}
use forget_ops.PrivacyRequest.Status.{status_strict}
use forget_ops.Subjects.BindingParts.{
  alone, decide-Decided, duplicated, duplicates, first_candidate-Row, first_candidate-none,
  overridden,
}
use forget_ops.Subjects.Data.{BindSubjectInput}
use forget_ops.Subjects.Duplicates.{
  BindingDeps, Decision, after_decision, bound_row, cancel_duplicate, cancelled_row,
  candidate_is_duplicate, current_is_duplicate, decide, is_candidate, is_open, no_candidate,
  same_type,
}
use forget_ops.Subjects.Rivals.{
  Checked, IsSound, Rivals-compete, compete, compete-Rivals, same_subject, same_type_sym, six-parts,
}

cancelled-Row :
    (input : BindSubjectInput) (id other : String) (rows : List (String × RequestRow))
    (s : RequestRow)
    → lookup other (cancel_duplicate input id rows) ≡ some s
    → is_open s ≡ true
    → lookup other rows ≡ some s
unfolding cancel_duplicate
cancelled-Row input id other rows s there open_row = elim (Option-cases (lookup id rows)) [
  | inl nothing ↦ ground arith
  | inr (c, found) ↦
      elim (Bool-cases (c.tenant_id == input.tenant_id && not (is_terminal c.status))) [
        | inr unset ↦ ground (arith, found, unset)
        | inl sets ↦
            let here = lookup-insert id other (cancelled_row input c) rows in
            ground (arith, found, sets, here)
      ]
]

-- A candidate that is cancelled is open no more.
cancelled_candidate :
    (input : BindSubjectInput) (type : RequestType) (id : String)
    (rows : List (String × RequestRow)) (c s : RequestRow)
    → lookup id rows ≡ some c
    → is_candidate input type id c ≡ true
    → lookup id (cancel_duplicate input id rows) ≡ some s
    → is_open s ≢ true
unfolding cancel_duplicate
cancelled_candidate input type id rows c s found fits there open_row =
    let here = lookup-insert id id (cancelled_row input c) rows in
    ground (arith, found, fits, here, eq_refl id)

pub after_decision-Row :
    (input : BindSubjectInput) (d : Decision) (other : String) (rows : List (String × RequestRow))
    (s : RequestRow)
    → lookup other (after_decision input d rows) ≡ some s
    → is_open s ≡ true
    → lookup other rows ≡ some s
unfolding after_decision
after_decision-Row input (candidate_is_duplicate id) other rows s there open_row =
    cancelled-Row input id other rows s there open_row
after_decision-Row input no_candidate other rows s there open_row = there
after_decision-Row input (current_is_duplicate id) other rows s there open_row = there

same_owner :
    (t u environment : String) (db : Tables)
    → owns_environment t environment db ≡ true
    → owns_environment u environment db ≡ true
    → t ≡ u
same_owner t u environment db h k = elim (Option-cases (lookup environment db.environments)) [
  | inl nothing ↦ absurd (ground arith)
  | inr (e, found) ↦ ground (arith, found, eq_iff e.tenant_id t, eq_iff e.tenant_id u)
]

other_text : (x y : String) → y ≢ x → (x == y) ≡ false
other_text x y h = elim (Bool-cases (x == y)) [
  | inl same ↦ absurd (h (sym ((eq_iff x y).0 same)))
  | inr differ ↦ differ
]

pub same_subject_by :
    (g h : Option String) (x : String)
    → is_some_text g x ≡ true
    → is_some_text h x ≡ true
    → same_subject g h ≡ true
same_subject_by none h x a b = absurd (ground arith)
same_subject_by (some y) none x a b = absurd (ground arith)
same_subject_by (some y) (some z) x a b = ground (arith, eq_iff y x, eq_iff z x, eq_iff z y)

pub same_type_by :
    (s t u : RequestType) → same_type s u ≡ true → same_type t u ≡ true → same_type s t ≡ true
same_type_by delete t delete a b = same_type_sym t delete b
same_type_by export t export a b = same_type_sym t export b
same_type_by delete t export a b = absurd (ground arith)
same_type_by export t delete a b = absurd (ground arith)

candidate-parts :
    (input : BindSubjectInput) (type : RequestType) (i : String) (r : RequestRow)
    → is_candidate input type i r ≡ true
    → (r.environment_id ≡ input.environment_id)
      × (is_some_text r.subject_hash input.subject_hash ≡ true)
      × (same_type r.request_type type ≡ true)
      × (is_open r ≡ true)
candidate-parts input type i r h =
    let parts =
      six-parts (r.tenant_id == input.tenant_id) (r.environment_id == input.environment_id)
        (is_some_text r.subject_hash input.subject_hash) (same_type r.request_type type)
        (not (i == input.request_id)) (is_open r) h in
    ((eq_iff r.environment_id input.environment_id).0 parts.0, parts.1, parts.2, parts.3)

-- A row that competes with the new one was a candidate.
rival-Candidate :
    (input : BindSubjectInput) (d : Decision) (r s : RequestRow) (j : String) (db : Tables)
    → Checked input r db
    → IsSound db
    → input.request_id ≢ j
    → lookup j db.requests ≡ some s
    → compete (bound_row input d r) s ≡ true
    → is_candidate input r.request_type j s ≡ true
rival-Candidate input d r s j db c sound differ there rivals =
    let v = compete-Rivals (bound_row input d r) s rivals in
    let place : s.environment_id ≡ input.environment_id = sym v.environment ∙ c.environment in
    let mine : owns_environment r.tenant_id r.environment_id db ≡ true =
      sound.owned input.request_id r c.row in
    let its = sound.owned j s there in
    let owner : s.tenant_id ≡ input.tenant_id =
      same_owner s.tenant_id r.tenant_id s.environment_id db its
        (subst (λ e. owns_environment r.tenant_id e db ≡ true) v.environment mine)
      ∙ c.tenant in
    rw
      (
        (eq_iff s.tenant_id input.tenant_id).1 owner,
        (eq_iff s.environment_id input.environment_id).1 place,
        v.subject,
        same_type_sym r.request_type s.request_type v.type,
        other_text j input.request_id differ,
        v.second_open,
      )
      refl

-- Two candidates compete.
candidates-Rivals :
    (input : BindSubjectInput) (type : RequestType) (i j : String) (r s : RequestRow)
    → is_candidate input type i r ≡ true
    → is_candidate input type j s ≡ true
    → compete r s ≡ true
candidates-Rivals input type i j r s x y =
    let a = candidate-parts input type i r x in
    let b = candidate-parts input type j s y in
    Rivals-compete r s (record {
      environment = a.0 ∙ sym b.0;
      subject = same_subject_by r.subject_hash s.subject_hash input.subject_hash a.1 b.1;
      type = same_type_by r.request_type s.request_type type a.2 b.2;
      first_open = a.3;
      second_open = b.3;
    })

overridden_shut :
    (input : BindSubjectInput) (r : RequestRow)
    → is_present input.duplicate_override ≡ true
    → is_open (bound_row input no_candidate r) ≢ true
overridden_shut input r some_override h = ground (arith, some_override)

duplicate_shut :
    (input : BindSubjectInput) (r : RequestRow) (id : String)
    → is_open (bound_row input (current_is_duplicate id) r) ≢ true
duplicate_shut input r id h = ground arith

-- No row that is left competes with the new one.
pub no_rival :
    (deps : BindingDeps) (input : BindSubjectInput) (r s : RequestRow) (j : String) (db : Tables)
    → Checked input r db
    → IsSound db
    → lookup j (after_decision input (decide deps input r db) db.requests) ≡ some s
    → compete (bound_row input (decide deps input r db) r) s ≡ true
    → input.request_id ≡ j
unfolding after_decision
no_rival deps input r s j db c sound there rivals =
    let v = compete-Rivals (bound_row input (decide deps input r db) r) s rivals in
    let before =
      after_decision-Row input (decide deps input r db) j db.requests s there v.second_open in
    elim (Bool-cases (input.request_id == j)) [
      | inl same ↦ (eq_iff input.request_id j).0 same
      | inr differ ↦
          let fits =
            rival-Candidate input (decide deps input r db) r s j db c sound
              (λ e. ground (arith, eq_iff input.request_id j)) before rivals in
          elim (decide-Decided deps input r db) [
            | overridden some_override d ↦ absurd (
                overridden_shut input r some_override
                  (subst (λ d. is_open (bound_row input d r) ≡ true) d v.first_open))
            | alone nothing d ↦ absurd (
                first_candidate-none deps.collate input r.request_type db.requests j s nothing
                  before fits)
            | duplicates id x found d ↦ absurd (
                duplicate_shut input r id
                  (subst (λ d. is_open (bound_row input d r) ≡ true) d v.first_open))
            | duplicated id x found d ↦
                let known =
                  first_candidate-Row deps.collate input r.request_type db.requests id x
                    sound.distinct found in
                let same =
                  sound.unique id j x s known.0 before
                    (candidates-Rivals input r.request_type id j x s known.1 fits) in
                absurd (
                  cancelled_candidate input r.request_type id db.requests x s known.0 known.1
                    (subst (λ i. lookup i (cancel_duplicate input id db.requests) ≡ some s)
                      (sym same)
                      (subst (λ d. lookup j (after_decision input d db.requests) ≡ some s) d there))
                    v.second_open)
          ]
    ]
