-- ===== src/Database/Saves.antt =====
-- What a save promises: it writes the aggregate's row once for each version it starts from, and
-- keeps the audit chains.
use forget_ops.Database.AuditLog.{AuditEntry, append_entry, open_head}
use forget_ops.Database.Chains.{
  IsChained, append_entry-SameRows, open_head-IsChained, persist_from-IsChained,
}
use forget_ops.Database.Repository.{
  SaveError, SaveInput, entry_of, persist_attempt, persist_attempts, persist_events, persist_from,
  persist_snapshot, save, snapshot_row,
}
use forget_ops.Database.Tables.{ChainCrypto, RequestRow, Tables}
use forget_ops.Prelude.{
  Bool-cases, List, Option-cases, Outcome, Outcome-cases, String, [], arith, eq_iff, eq_refl, err,
  inl, inr, insert, length, lookup, lookup-insert, nat_strict, ok, refl, some, string_strict, subst,
  sym, ℕ, ◌+◌, ◌<◌, ◌==◌, ◌∙◌, ◌∷◌, ◌≡◌, ◌≢◌,
}
use forget_ops.PrivacyRequest.Data.{DomainEvent, ExecutionAttempt}
use forget_ops.PrivacyRequest.Effect.{Aggregate}
use forget_ops.PrivacyRequest.Status.{status_strict}

-- The attempts are written to their own table.
record SameButAttempts (db after : Tables) : Type 0 where
  requests : after.requests ≡ db.requests
  heads : after.heads ≡ db.heads
  events : after.events ≡ db.events

persist_attempts-SameButAttempts :
    (input : SaveInput) (a : Aggregate) (attempts : List ExecutionAttempt) (db after : Tables)
    → persist_attempts input a attempts db ≡ ok after
    → SameButAttempts db after
unfolding persist_attempts persist_attempt
persist_attempts-SameButAttempts input a [] db after h = ground arith
persist_attempts-SameButAttempts input a (attempt ∷ attempts) db after h =
    elim (Outcome-cases (persist_attempt input a attempt db)) [
      | inr (e, bad) ↦ absurd (ground arith)
      | inl (mid, done) ↦
          let rest = persist_attempts-SameButAttempts input a attempts mid after (ground arith) in
          record {
            requests = ground (arith, rest.requests);
            heads = ground (arith, rest.heads);
            events = ground (arith, rest.events);
          }
    ]

append_entry_requests :
    (k : ChainCrypto) (e : AuditEntry) (db after : Tables)
    → append_entry k e db ≡ ok after
    → after.requests ≡ db.requests
append_entry_requests k e db after h = (append_entry-SameRows k e db after h).requests

persist_from_requests :
    (input : SaveInput) (a : Aggregate) (n : ℕ) (events : List DomainEvent) (db after : Tables)
    → persist_from input a n events db ≡ ok after
    → after.requests ≡ db.requests
unfolding persist_from
persist_from_requests input a n [] db after h = ground arith
persist_from_requests input a n (e ∷ events) db after h =
    elim (Outcome-cases (append_entry input.crypto (entry_of input a n e) db)) [
      | inr (failure, bad) ↦ absurd (ground arith)
      | inl (mid, done) ↦
          persist_from_requests input a (n + 1) events mid after (ground arith)
          ∙ append_entry_requests input.crypto (entry_of input a n e) db mid done
    ]

-- The parts of a save that succeeds.
record Saved (input : SaveInput) (a : Aggregate) (expected : ℕ) (db after : Tables) : Type 0 where
  row : RequestRow
  found : snapshot_row input a expected db ≡ some row
  versions : a.version ≡ expected + length a.events
  some_event : length a.events ≢ 0
  with_attempts : Tables
  same : SameButAttempts (record db { requests = insert a.id row db.requests }) with_attempts
  with_events :
      persist_from input a 0 a.events (open_head input.tenant_id a.environment_id with_attempts)
      ≡ ok after

save-Saved :
    (input : SaveInput) (a b : Aggregate) (expected : ℕ) (db after : Tables)
    → save input a expected db ≡ ok (after, b)
    → Saved input a expected db after
unfolding save persist_snapshot persist_events
save-Saved input a b expected db after h = elim (Option-cases (snapshot_row input a expected db)) [
  | inl nothing ↦ absurd (ground arith)
  | inr (row, found) ↦
      let with_row : Tables = record db { requests = insert a.id row db.requests } in
      elim (Outcome-cases (persist_attempts input a a.attempts with_row)) [
        | inr (e, bad) ↦ absurd (ground arith)
        | inl (with_attempts, done) ↦ record {
          row = row;
          found = found;
          versions = ground arith;
          some_event = λ e. ground arith;
          with_attempts = with_attempts;
          same = persist_attempts-SameButAttempts input a a.attempts with_row with_attempts done;
          with_events = ground (arith, found, done);
        }
      ]
]

snapshot_row-parts :
    (input : SaveInput) (a : Aggregate) (expected : ℕ) (db : Tables) (row : RequestRow)
    → snapshot_row input a expected db ≡ some row
    → (row.version ≡ a.version)
      × (row.status ≡ a.status)
      × ((old : RequestRow) → lookup a.id db.requests ≡ some old → old.version ≡ expected)
unfolding snapshot_row
snapshot_row-parts input a expected db row h =
    (ground arith, ground arith, λ old there. ground arith)

open_head_requests :
    (tenant environment : String) (db : Tables)
    → (open_head tenant environment db).requests ≡ db.requests
open_head_requests tenant environment db = ground arith

row_after_save :
    (input : SaveInput) (a : Aggregate) (expected : ℕ) (db after : Tables)
    (s : Saved input a expected db after)
    → after.requests ≡ insert a.id s.row db.requests
row_after_save input a expected db after s =
    persist_from_requests input a 0 a.events
      (open_head input.tenant_id a.environment_id s.with_attempts) after s.with_events
    ∙ open_head_requests input.tenant_id a.environment_id s.with_attempts
    ∙ s.same.requests

-- Saves by any repositories, of any aggregates.
pub record SaveCall : Type 0 where
  pub input : SaveInput
  pub aggregate : Aggregate
  pub expected : ℕ

abbrev pub saved_or : Tables → Outcome SaveError (Tables × Aggregate) → Tables
saved_or db (ok (after, a)) = after
saved_or db (err e) = db

abbrev pub save_call : SaveCall → Tables → Tables
save_call c db = saved_or db (save c.input c.aggregate c.expected db)

abbrev pub save_run : List SaveCall → Tables → Tables
save_run [] db = db
save_run (c ∷ cs) db = save_run cs (save_call c db)

-- The request has a row, of a later version than this.
PastVersion : String → ℕ → Tables → Type 0
PastVersion id version db =
    (row : RequestRow) × (lookup id db.requests ≡ some row) × (version < row.version)

save_call-PastVersion :
    (c : SaveCall) (id : String) (version : ℕ) (db : Tables)
    → PastVersion id version db
    → PastVersion id version (save_call c db)
unfolding PastVersion
save_call-PastVersion c id version db (row, there, lt) =
    elim (Outcome-cases (save c.input c.aggregate c.expected db)) [
      | inr (e, failed_call) ↦ rw failed_call (row, there, lt)
      | inl ((after, b), done) ↦
          let s = save-Saved c.input c.aggregate b c.expected db after done in
          let parts = snapshot_row-parts c.input c.aggregate c.expected db s.row s.found in
          let set = row_after_save c.input c.aggregate c.expected db after s in
          let here = lookup-insert c.aggregate.id id s.row db.requests in
          rw done (elim (Bool-cases (c.aggregate.id == id)) [
            | inr differ ↦ (row, rw (set, here, differ) there, lt)
            | inl same ↦
                let old = parts.2 row (
                  subst (λ i. lookup i db.requests ≡ some row)
                    (sym ((eq_iff c.aggregate.id id).0 same)) there) in
                (s.row, rw (set, here, same) refl, omega (arith, parts.0, old, s.versions))
          ])
    ]

save_run-PastVersion :
    (cs : List SaveCall) (id : String) (version : ℕ) (db : Tables)
    → PastVersion id version db
    → PastVersion id version (save_run cs db)
save_run-PastVersion [] id version db p = p
save_run-PastVersion (c ∷ cs) id version db p =
    save_run-PastVersion cs id version (save_call c db) (save_call-PastVersion c id version db p)

-- A save that succeeds leaves the request's row with the aggregate's version and status; and no save
-- of the request that expects the same version succeeds after it, whatever saves come in between.
pub saved_version_spent :
    (input again : SaveInput) (a b c d : Aggregate) (expected : ℕ) (db after final : Tables)
    (cs : List SaveCall)
    → save input a expected db ≡ ok (after, b)
    → c.id ≡ a.id
    → ((row : RequestRow) × (lookup a.id after.requests ≡ some row)
        × (row.version ≡ a.version)
        × (row.status ≡ a.status))
      × (save again c expected (save_run cs after) ≢ ok (final, d))
unfolding PastVersion
saved_version_spent input again a b c d expected db after final cs h same =
    let s = save-Saved input a b expected db after h in
    let parts = snapshot_row-parts input a expected db s.row s.found in
    let there : lookup a.id after.requests ≡ some s.row =
      rw
        (
          row_after_save input a expected db after s,
          lookup-insert a.id a.id s.row db.requests,
          eq_refl a.id,
        )
        refl in
    (
      (s.row, there, parts.0, parts.1),
      λ repeated.
          let past =
            save_run-PastVersion cs a.id expected after
              (s.row, there, omega (arith, parts.0, s.versions, s.some_event)) in
          let t = save-Saved again c d expected (save_run cs after) final repeated in
          let old =
            (snapshot_row-parts again c expected (save_run cs after) t.row t.found).2 past.0 (
              subst (λ i. lookup i (save_run cs after).requests ≡ some past.0) (sym same) past.1) in
          omega (arith, old, past.2),
    )

-- A save that succeeds keeps the audit events of every environment a valid chain that ends at the
-- environment's head, which counts them.
pub save-IsChained :
    (input : SaveInput) (a b : Aggregate) (expected : ℕ) (db after : Tables) (environment : String)
    → save input a expected db ≡ ok (after, b)
    → IsChained input.crypto environment db
    → IsChained input.crypto environment after
save-IsChained input a b expected db after environment h c =
    let s = save-Saved input a b expected db after h in
    persist_from-IsChained input a 0 a.events environment
      (open_head input.tenant_id a.environment_id s.with_attempts) after s.with_events
      (open_head-IsChained input.crypto input.tenant_id a.environment_id environment s.with_attempts
        (record {
          checked = rw s.same.events c.checked;
          head_fits = rw (s.same.heads, s.same.events) c.head_fits;
        }))
