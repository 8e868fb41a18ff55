-- ===== src/Subjects/BindingParts.antt =====
-- The candidates that `bindSubject` finds, and what it finds of them.
use forget_ops.Database.Tables.{RequestRow, Tables}
use forget_ops.Prelude.{
  Bool, Bool-cases, List, Option, Option-cases, String, [], ap, arith, eq_iff, eq_refl, get_or, inl,
  inr, insert, is_present, lookup, lookup-insert, nat_strict, none, not, refl, some, string_strict,
  subst, true, ◌==◌, ◌||◌, ◌∷◌, ◌≡◌, ◌≢◌, ◌⊎◌,
}
use forget_ops.PrivacyRequest.Attempts.{misses}
use forget_ops.PrivacyRequest.Data.{RequestType}
use forget_ops.PrivacyRequest.Effect.{after}
use forget_ops.PrivacyRequest.Status.{status_strict}
use forget_ops.Subjects.Data.{BindSubjectInput}
use forget_ops.Subjects.Duplicates.{
  BindingDeps, candidate_is_duplicate, created_before, current_is_duplicate, decide, earlier,
  first_candidate, is_candidate, is_newer, no_candidate,
}
use forget_ops.Subjects.Requests.{is_cancellable}

module _ {ℓ} {V : Type ℓ} where
  -- No key is there twice.
  unfoldable pub IsDistinct : List (String × V) → Type ℓ
  IsDistinct [] = Unit
  IsDistinct ((k, v) ∷ m) = (lookup k m ≡ none) × IsDistinct m

  pub insert-IsDistinct :
      (key : String) (value : V) (m : List (String × V))
      → IsDistinct m
      → IsDistinct (insert key value m)
  unfolding lookup insert IsDistinct
  insert-IsDistinct key value [] d = (refl, tt)
  insert-IsDistinct key value ((k, v) ∷ rest) d = elim (Bool-cases (k == key)) [
    | inl same ↦ rw same (d.0, d.1)
    | inr differ ↦ rw differ (
      ground (arith, d.0, lookup-insert key k value rest, eq_iff k key, eq_iff key k),
      insert-IsDistinct key value rest d.1,
    )
  ]

pub first_candidate-none :
    (collate : String → String → Bool) (input : BindSubjectInput) (type : RequestType)
    (rows : List (String × RequestRow)) (id : String) (r : RequestRow)
    → first_candidate collate input type rows ≡ none
    → lookup id rows ≡ some r
    → is_candidate input type id r ≢ true
unfolding first_candidate lookup
first_candidate-none collate input type [] id r nothing there c = ground arith
first_candidate-none collate input type ((k, v) ∷ rows) id r nothing there c =
    elim (Option-cases (first_candidate collate input type rows)) [
      | inr (found, e) ↦ ground arith
      | inl e ↦ elim (Bool-cases (k == id)) [
        | inl same ↦ ground (arith, eq_iff k id)
        | inr differ ↦ first_candidate-none collate input type rows id r e (ground arith) c
      ]
    ]

earlier-cases :
    (collate : String → String → Bool) (x y : String × RequestRow)
    (rest : Option (String × RequestRow))
    → earlier collate x rest ≡ some y
    → (some x ≡ some y) ⊎ (rest ≡ some y)
earlier-cases collate x y none e = inl e
earlier-cases collate x y (some z) e = elim (Bool-cases (created_before collate z x)) [
  | inl before ↦ inr (rw before at e)
  | inr after ↦ inl (rw after at e)
]

found_behind :
    (k : String) (v : RequestRow) (rows : List (String × RequestRow)) (id : String) (r : RequestRow)
    → lookup k rows ≡ none
    → lookup id rows ≡ some r
    → lookup id ((k, v) ∷ rows) ≡ some r
unfolding lookup
found_behind k v rows id r fresh there = ground (arith, eq_iff k id)

pub first_candidate-Row :
    (collate : String → String → Bool) (input : BindSubjectInput) (type : RequestType)
    (rows : List (String × RequestRow)) (id : String) (r : RequestRow)
    → IsDistinct rows
    → first_candidate collate input type rows ≡ some (id, r)
    → (lookup id rows ≡ some r) × (is_candidate input type id r ≡ true)
unfolding first_candidate lookup IsDistinct
first_candidate-Row collate input type [] id r d found = absurd (ground arith)
first_candidate-Row collate input type ((k, v) ∷ rows) id r d found =
    elim (Bool-cases (is_candidate input type k v)) [
      | inl fits ↦
          elim (earlier-cases collate (k, v) (id, r) (first_candidate collate input type rows)
            (rw fits at found)) [
              | inl same ↦
                  let pair : (k, v) ≡ (id, r) =
                    ap (λ (o : Option (String × RequestRow)). get_or o (id, r)) same in
                  subst
                    (λ (x : String × RequestRow).
                      (lookup x.0 ((k, v) ∷ rows) ≡ some x.1)
                      × (is_candidate input type x.0 x.1 ≡ true))
                    pair (rw (eq_refl k) refl, fits)
              | inr rest ↦
                  let known = first_candidate-Row collate input type rows id r d.1 rest in
                  (found_behind k v rows id r d.0 known.0, known.1)
            ]
      | inr misses ↦
          let known = first_candidate-Row collate input type rows id r d.1 (rw misses at found) in
          (found_behind k v rows id r d.0 known.0, known.1)
    ]

-- What `decide` finds.
pub data Decided (deps : BindingDeps) (input : BindSubjectInput) (r : RequestRow) (db : Tables)
    : Type 0 where
  overridden :
      is_present input.duplicate_override ≡ true
      → decide deps input r db ≡ no_candidate
      → Decided deps input r db
  alone :
      first_candidate deps.collate input r.request_type db.requests ≡ none
      → decide deps input r db ≡ no_candidate
      → Decided deps input r db
  duplicates :
      (id : String) (c : RequestRow)
      → first_candidate deps.collate input r.request_type db.requests ≡ some (id, c)
      → decide deps input r db ≡ current_is_duplicate id
      → Decided deps input r db
  duplicated :
      (id : String) (c : RequestRow)
      → first_candidate deps.collate input r.request_type db.requests ≡ some (id, c)
      → decide deps input r db ≡ candidate_is_duplicate id
      → Decided deps input r db

pub decide-Decided :
    (deps : BindingDeps) (input : BindSubjectInput) (r : RequestRow) (db : Tables)
    → Decided deps input r db
unfolding decide
decide-Decided deps input r db = elim (Bool-cases (is_present input.duplicate_override)) [
  | inl some_override ↦ overridden some_override (rw (some_override, decide) refl)
  | inr no_override ↦
      elim (Option-cases (first_candidate deps.collate input r.request_type db.requests)) [
        | inl nothing ↦ alone nothing (rw (no_override, nothing, decide) refl)
        | inr ((id, c), found) ↦
            elim (Bool-cases (
              is_newer deps.locale_after input.request_id r id c
              || not (is_cancellable c.status))) [
                | inl newer ↦ duplicates id c found (rw (no_override, found, newer, decide) refl)
                | inr older ↦ duplicated id c found (rw (no_override, found, older, decide) refl)
              ]
      ]
]
