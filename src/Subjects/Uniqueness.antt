-- ===== src/Subjects/Uniqueness.antt =====
-- A binding leaves no two open requests of a type for one subject of an environment.
-- The new row competes with itself alone.
use forget_ops.Database.Tables.{RequestRow, Tables}
use forget_ops.Prelude.{
  Bool-cases, Option, String, eq_iff, get_or, inl, inr, lookup, lookup-insert, nat_strict, some,
  string_strict, subst, sym, true, ◌==◌, ◌∙◌, ◌≡◌,
}
use forget_ops.PrivacyRequest.Status.{status_strict}
use forget_ops.Subjects.Candidates.{after_decision-Row, no_rival}
use forget_ops.Subjects.Data.{BindSubjectInput}
use forget_ops.Subjects.Duplicates.{BindingDeps, after_decision, bound_row, bound_rows, decide}
use forget_ops.Subjects.Rivals.{Checked, IsSound, IsUnique, compete, compete-Rivals, compete_sym}

new_row_unique :
    (deps : BindingDeps) (input : BindSubjectInput) (r : RequestRow) (db : Tables) (i j : String)
    (x y : RequestRow)
    → Checked input r db
    → IsSound db
    → (input.request_id == i) ≡ true
    → lookup i (bound_rows input (decide deps input r db) r db.requests) ≡ some x
    → lookup j (bound_rows input (decide deps input r db) r db.requests) ≡ some y
    → compete x y ≡ true
    → i ≡ j
unfolding bound_rows
new_row_unique deps input r db i j x y c sound i_same at_i at_j rivals =
    let rows = after_decision input (decide deps input r db) db.requests in
    let new = bound_row input (decide deps input r db) r in
    let here_i = lookup-insert input.request_id i new rows in
    let here_j = lookup-insert input.request_id j new rows in
    let is_i = (eq_iff input.request_id i).0 i_same in
    elim (Bool-cases (input.request_id == j)) [
      | inl j_same ↦ sym is_i ∙ (eq_iff input.request_id j).0 j_same
      | inr j_other ↦
          let is_x : some new ≡ some x = rw (here_i, i_same) at at_i in
          sym is_i
          ∙ no_rival deps input r y j db c sound (rw (here_j, j_other) at at_j)
              (subst (λ (o : Option RequestRow). compete (get_or o x) y ≡ true) (sym is_x) rivals)
    ]

pub bound_rows-IsUnique :
    (deps : BindingDeps) (input : BindSubjectInput) (r : RequestRow) (db : Tables)
    → Checked input r db
    → IsSound db
    → IsUnique (bound_rows input (decide deps input r db) r db.requests)
unfolding bound_rows
bound_rows-IsUnique deps input r db c sound i j x y at_i at_j rivals =
    let d = decide deps input r db in
    let rows = after_decision input d db.requests in
    let here_i = lookup-insert input.request_id i (bound_row input d r) rows in
    let here_j = lookup-insert input.request_id j (bound_row input d r) rows in
    let v = compete-Rivals x y rivals in
    elim (Bool-cases (input.request_id == i)) [
      | inl i_same ↦ new_row_unique deps input r db i j x y c sound i_same at_i at_j rivals
      | inr i_other ↦ elim (Bool-cases (input.request_id == j)) [
        | inl j_same ↦ sym (
            new_row_unique deps input r db j i y x c sound j_same at_j at_i
              (compete_sym x y rivals))
        | inr j_other ↦
            sound.unique i j x y
              (after_decision-Row input d i db.requests x (rw (here_i, i_other) at at_i)
                v.first_open)
              (after_decision-Row input d j db.requests y (rw (here_j, j_other) at at_j)
                v.second_open)
              rivals
      ]
    ]
