-- ===== src/Subjects/Placement.antt =====
-- The rows that a binding writes are in the places of rows of the same tenant and environment.
-- The rows of others are left, or one of them is cancelled.
use forget_ops.Database.Repository.{is_terminal}
use forget_ops.Database.Tables.{RequestRow, Tables}
use forget_ops.Prelude.{
  Bool-cases, List, Option, Option-cases, String, eq_iff, get_or, inl, inr, insert, lookup,
  lookup-insert, nat_strict, not, refl, some, string_strict, subst, sym, ◌&&◌, ◌==◌, ◌≡◌,
}
use forget_ops.PrivacyRequest.Status.{status_strict}
use forget_ops.Subjects.BindingParts.{IsDistinct, insert-IsDistinct}
use forget_ops.Subjects.Data.{BindSubjectInput}
use forget_ops.Subjects.Duplicates.{
  Decision, after_decision, bound_row, bound_rows, cancel_duplicate, cancelled_row,
  candidate_is_duplicate, current_is_duplicate, no_candidate,
}
use forget_ops.Subjects.Rivals.{Checked}

data Others (input : BindSubjectInput) (d : Decision) (rows : List (String × RequestRow))
    : Type 0 where
  untouched : after_decision input d rows ≡ rows → Others input d rows
  cancels :
      (id : String) (c : RequestRow)
      → lookup id rows ≡ some c
      → after_decision input d rows ≡ insert id (cancelled_row input c) rows
      → Others input d rows

after_decision-Others :
    (input : BindSubjectInput) (d : Decision) (rows : List (String × RequestRow))
    → Others input d rows
unfolding after_decision cancel_duplicate
after_decision-Others input no_candidate rows = untouched refl
after_decision-Others input (current_is_duplicate id) rows = untouched refl
after_decision-Others input (candidate_is_duplicate id) rows =
    elim (Option-cases (lookup id rows)) [
      | inl nothing ↦ untouched (rw (nothing, cancel_duplicate) refl)
      | inr (c, found) ↦
          elim (Bool-cases (c.tenant_id == input.tenant_id && not (is_terminal c.status))) [
            | inr unset ↦ untouched (rw (found, unset, cancel_duplicate) refl)
            | inl sets ↦ cancels id c found (rw (found, sets, cancel_duplicate) refl)
          ]
    ]

pub bound_rows-IsDistinct :
    (input : BindSubjectInput) (d : Decision) (r : RequestRow) (rows : List (String × RequestRow))
    → IsDistinct rows
    → IsDistinct (bound_rows input d r rows)
unfolding bound_rows
bound_rows-IsDistinct input d r rows x =
    insert-IsDistinct input.request_id (bound_row input d r) (after_decision input d rows)
      (elim (after_decision-Others input d rows) [
        | untouched e ↦ subst IsDistinct (sym e) x
        | cancels id c found e ↦
            subst IsDistinct (sym e) (insert-IsDistinct id (cancelled_row input c) rows x)
      ])

-- A row that is written is in the place of one of the same tenant and environment.
unfoldable pub Placed : String → RequestRow → List (String × RequestRow) → Type 0
Placed j s rows =
    (old : RequestRow) × (lookup j rows ≡ some old)
    × (old.tenant_id ≡ s.tenant_id)
    × (old.environment_id ≡ s.environment_id)

unfoldable pub AllPlaced : List (String × RequestRow) → List (String × RequestRow) → Type 0
AllPlaced base rows = (j : String) (s : RequestRow) → lookup j rows ≡ some s → Placed j s base

insert-AllPlaced :
    (base rows : List (String × RequestRow)) (i : String) (x : RequestRow)
    → AllPlaced base rows
    → Placed i x base
    → AllPlaced base (insert i x rows)
unfolding AllPlaced
insert-AllPlaced base rows i x all placed j s at_j =
    let here = lookup-insert i j x rows in
    elim (Bool-cases (i == j)) [
      | inr other ↦ all j s (rw (here, other) at at_j)
      | inl same ↦
          let is_x : some x ≡ some s = rw (here, same) at at_j in
          let moved = subst (λ k. Placed k x base) ((eq_iff i j).0 same) placed in
          subst (λ (o : Option RequestRow). Placed j (get_or o x) base) is_x moved
    ]

-- A changed row in the place of one that was there.
pub in_place-Placed :
    (i : String) (r x : RequestRow) (rows : List (String × RequestRow))
    → lookup i rows ≡ some r
    → r.tenant_id ≡ x.tenant_id
    → r.environment_id ≡ x.environment_id
    → Placed i x rows
unfolding Placed
in_place-Placed i r x rows there tenant environment = (r, there, tenant, environment)

after_decision-AllPlaced :
    (input : BindSubjectInput) (d : Decision) (rows : List (String × RequestRow))
    → AllPlaced rows (after_decision input d rows)
unfolding AllPlaced
after_decision-AllPlaced input d rows =
    let all : AllPlaced rows rows = λ j s at_j. in_place-Placed j s s rows at_j refl refl in
    elim (after_decision-Others input d rows) [
      | untouched e ↦ subst (AllPlaced rows) (sym e) all
      | cancels id c found e ↦ subst (AllPlaced rows) (sym e) (
          insert-AllPlaced rows rows id (cancelled_row input c) all
            (in_place-Placed id c (cancelled_row input c) rows found refl refl))
    ]

pub bound_rows-AllPlaced :
    (input : BindSubjectInput) (d : Decision) (r : RequestRow) (db : Tables)
    → Checked input r db
    → AllPlaced db.requests (bound_rows input d r db.requests)
unfolding bound_rows
bound_rows-AllPlaced input d r db c =
    insert-AllPlaced db.requests (after_decision input d db.requests) input.request_id
      (bound_row input d r) (after_decision-AllPlaced input d db.requests)
      (in_place-Placed input.request_id r (bound_row input d r) db.requests c.row refl refl)
