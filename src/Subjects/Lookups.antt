-- ===== src/Subjects/Lookups.antt =====
-- What `findRequest` finds, and when it finds it.
use forget_ops.Database.Tables.{EnvironmentRow, RequestRow, Tables}
use forget_ops.Prelude.{
  Bool-cases, Option, Option-cases, ap, arith, eq_iff, get_or, inl, inr, lookup, nat_strict, none,
  refl, some, string_strict, subst, ◌&&◌, ◌==◌, ◌≡◌, ◌≢◌,
}
use forget_ops.PrivacyRequest.Status.{status_strict}
use forget_ops.Subjects.Data.{BindSubjectInput}
use forget_ops.Subjects.Requests.{find_request}
use forget_ops.Subjects.Rivals.{Checked}

pub record Found (input : BindSubjectInput) (r : RequestRow) (e : EnvironmentRow) (db : Tables)
    : Type 0 where
  pub checked : Checked input r db
  pub at_place : lookup input.environment_id db.environments ≡ some e
  pub place_tenant : e.tenant_id ≡ input.tenant_id

none_some : {A : Type 0} → (a : A) → ◌≢◌ {A = Option A} none (some a)
none_some a h = ground arith

both_rows-Found :
    (input : BindSubjectInput) (row r : RequestRow) (place e : EnvironmentRow) (db : Tables)
    → lookup input.request_id db.requests ≡ some row
    → lookup input.environment_id db.environments ≡ some place
    → find_request input.tenant_id input.environment_id input.request_id db ≡ some (r, e)
    → Found input r e db
unfolding find_request
both_rows-Found input row r place e db found placed h =
    elim (Bool-cases (
      row.tenant_id == input.tenant_id
      && row.environment_id == input.environment_id
      && place.tenant_id == input.tenant_id)) [
        | inr fits_not ↦ absurd (none_some (r, e) (rw (found, placed, fits_not, find_request) at h))
        | inl fits ↦
            let tenant : row.tenant_id ≡ input.tenant_id =
              ground (arith, fits, eq_iff row.tenant_id input.tenant_id) in
            let environment : row.environment_id ≡ input.environment_id =
              ground (arith, fits, eq_iff row.environment_id input.environment_id) in
            let owner : place.tenant_id ≡ input.tenant_id =
              ground (arith, fits, eq_iff place.tenant_id input.tenant_id) in
            let pair : some (row, place) ≡ some (r, e) =
              rw (found, placed, fits, find_request) at h in
            let same : (row, place) ≡ (r, e) =
              ap (λ (o : Option (RequestRow × EnvironmentRow)). get_or o (row, place)) pair in
            subst (λ (x : RequestRow × EnvironmentRow). Found input x.0 x.1 db) same
              (record {
                checked = record { row = found; tenant = tenant; environment = environment };
                at_place = placed;
                place_tenant = owner;
              })
      ]

pub find_request-Found :
    (input : BindSubjectInput) (r : RequestRow) (e : EnvironmentRow) (db : Tables)
    → find_request input.tenant_id input.environment_id input.request_id db ≡ some (r, e)
    → Found input r e db
unfolding find_request
find_request-Found input r e db h = elim (Option-cases (lookup input.request_id db.requests)) [
  | inl nothing ↦ absurd (ground (arith, nothing))
  | inr (row, found) ↦ elim (Option-cases (lookup input.environment_id db.environments)) [
    | inl nowhere ↦ absurd (ground (arith, found, nowhere))
    | inr (place, placed) ↦ both_rows-Found input row r place e db found placed h
  ]
]

pub Found-find_request :
    (input : BindSubjectInput) (r : RequestRow) (e : EnvironmentRow) (db : Tables)
    → Found input r e db
    → find_request input.tenant_id input.environment_id input.request_id db ≡ some (r, e)
unfolding find_request
Found-find_request input r e db f =
    rw
      (
        f.checked.row,
        f.at_place,
        (eq_iff r.tenant_id input.tenant_id).1 f.checked.tenant,
        (eq_iff r.environment_id input.environment_id).1 f.checked.environment,
        (eq_iff e.tenant_id input.tenant_id).1 f.place_tenant,
        find_request,
      )
      refl
