-- ===== src/Adapter/Recorded.antt =====
-- A nonce that was consumed stays in the file, and in the memory that is loaded from it, until it
-- expires.
use forget_ops.Adapter.Nonces.{
  DiskWrite, NonceRecord, NonceStore, consume_exclusive, consume_loaded, fresh_nonce, line_lost,
  line_synced, line_unsynced, load, load_lines, prune, write_nonce,
}
use forget_ops.Prelude.{
  Bool, Bool-cases, List, Option, Option-cases, String, [], ap, arith, eq_iff, eq_refl, false,
  if◌then◌else◌, inl, inr, insert, lookup, lookup-insert, nat_strict, none, refl, some,
  string_strict, subst, sym, true, ℕ, ◌++◌, ◌==◌, ◌∷◌, ◌≡◌, ◌≢◌, ◌≤◌,
}
use forget_ops.PrivacyRequest.Execution.{complete}
use forget_ops.PrivacyRequest.Status.{status_strict}

-- A reading of the file that comes to its end has the nonce.
abbrev pub Keeps : String → ℕ → List (String × ℕ) × Bool → Type 0
Keeps nonce expiry read = read.1 ≡ true → lookup nonce read.0 ≡ some expiry

pub record IsRecorded (nonce : String) (expiry : ℕ) (s : NonceStore) : Type 0 where
  pub on_disk : (m : List (String × ℕ)) → Keeps nonce expiry (load_lines s.file m)
  pub in_memory : s.loaded ≡ true → lookup nonce s.nonces ≡ some expiry

load_lines-append :
    (lines : List (Option NonceRecord)) (r : NonceRecord) (m : List (String × ℕ))
    → load_lines (lines ++ some r ∷ []) m ≡ (
        if (load_lines lines m).1
        then (insert r.nonce r.expires_at_ms (load_lines lines m).0, true)
        else ((load_lines lines m).0, false))
unfolding load_lines
load_lines-append [] r m = refl
load_lines-append (none ∷ lines) r m = refl
load_lines-append (some x ∷ lines) r m =
    load_lines-append lines r (insert x.nonce x.expires_at_ms m)

lookup-prune :
    (nonce : String) (expiry now : ℕ) (m : List (String × ℕ))
    → now ≤ expiry
    → lookup nonce m ≡ some expiry
    → lookup nonce (prune now m) ≡ some expiry
unfolding lookup prune
lookup-prune nonce expiry now [] le there = there
lookup-prune nonce expiry now ((n, x) ∷ rest) le there =
    ground (arith, lookup-prune nonce expiry now rest le)

-- A line of another nonce changes nothing, one of this nonce is the last.
append-Keeps :
    (nonce other : String) (expiry x : ℕ) (file : List (Option NonceRecord)) (m : List (String × ℕ))
    → ((other == nonce) ≡ false → Keeps nonce expiry (load_lines file m))
    → ((other == nonce) ≡ true → x ≡ expiry)
    → Keeps nonce expiry
        (load_lines (file ++ some (record { nonce = other; expires_at_ms = x }) ∷ []) m)
append-Keeps nonce other expiry x file m before same =
    let whole = load_lines-append file (record { nonce = other; expires_at_ms = x }) m in
    let here = lookup-insert other nonce x (load_lines file m).0 in
    subst (Keeps nonce expiry) (sym whole) (elim (Bool-cases (load_lines file m).1) [
      | inr broken ↦ rw broken (λ done. absurd (ground arith))
      | inl complete ↦ rw complete (λ done. elim (Bool-cases (other == nonce)) [
        | inl is_same ↦ rw (here, is_same) (ap some (same is_same))
        | inr is_other ↦ rw (here, is_other) (before is_other complete)
      ])
    ])

load-IsRecorded :
    (nonce : String) (expiry : ℕ) (s : NonceStore)
    → IsRecorded nonce expiry s
    → IsRecorded nonce expiry (load s).0
      × ((load s).1 ≡ true → lookup nonce (load s).0.nonces ≡ some expiry)
unfolding load
load-IsRecorded nonce expiry s r = elim (Bool-cases s.loaded) [
  | inl before ↦ rw before (
    record { on_disk = r.on_disk; in_memory = λ l. r.in_memory before },
    λ done. r.in_memory before,
  )
  | inr after_start ↦
      rw after_start
        (record { on_disk = r.on_disk; in_memory = r.on_disk s.nonces }, r.on_disk s.nonces)
]

absent_other :
    (nonce other : String) (expiry : ℕ) (m : List (String × ℕ))
    → lookup nonce m ≡ some expiry
    → lookup other m ≡ none
    → (other == nonce) ≡ false
absent_other nonce other expiry m there nothing = elim (Bool-cases (other == nonce)) [
  | inr differ ↦ differ
  | inl same ↦
      let empty : lookup nonce m ≡ none =
        subst (λ n. lookup n m ≡ none) ((eq_iff other nonce).0 same) nothing in
      absurd (ground (arith, there, empty))
]

write_nonce-IsRecorded :
    (nonce other : String) (expiry x : ℕ) (disk : DiskWrite) (s : NonceStore)
    → (other == nonce) ≡ false
    → IsRecorded nonce expiry s
    → IsRecorded nonce expiry (write_nonce other x disk s).0
unfolding write_nonce
write_nonce-IsRecorded nonce other expiry x line_lost s differ r = r
write_nonce-IsRecorded nonce other expiry x line_unsynced s differ r = record {
  on_disk = λ m.
      append-Keeps nonce other expiry x s.file m (λ d. r.on_disk m)
        (λ same. absurd (ground (arith, same, differ)));
  in_memory = r.in_memory;
}
write_nonce-IsRecorded nonce other expiry x line_synced s differ r = record {
  on_disk = λ m.
      append-Keeps nonce other expiry x s.file m (λ d. r.on_disk m)
        (λ same. absurd (ground (arith, same, differ)));
  in_memory = λ l. rw (lookup-insert other nonce x s.nonces, differ) (r.in_memory l);
}

-- The step of a nonce store that is loaded.
loaded-IsRecorded :
    (nonce other : String) (expiry x now : ℕ) (disk : DiskWrite) (s : NonceStore)
    → now ≤ expiry
    → IsRecorded nonce expiry s
    → lookup nonce s.nonces ≡ some expiry
    → IsRecorded nonce expiry (consume_loaded other x now disk s).0
      × ((other == nonce) ≡ true → (consume_loaded other x now disk s).1 ≢ fresh_nonce)
unfolding consume_loaded write_nonce
loaded-IsRecorded nonce other expiry x now disk s le r there =
    let kept = lookup-prune nonce expiry now s.nonces le there in
    let pruned : IsRecorded nonce expiry (record s { nonces = prune now s.nonces }) = record {
      on_disk = r.on_disk;
      in_memory = λ l. kept;
    } in
    elim (Option-cases (lookup other (prune now s.nonces))) [
      | inr (y, found) ↦ rw found (pruned, λ same e. ground arith)
      | inl nothing ↦ rw nothing (
          let differ = absent_other nonce other expiry (prune now s.nonces) kept nothing in
          (
            write_nonce-IsRecorded nonce other expiry x disk
                (record s { nonces = prune now s.nonces }) differ pruned,
            λ same e. absurd (ground (arith, same, differ)),
          ))
    ]

-- A nonce that is recorded stays so up to its expiry, and is not consumed again.
pub consume_exclusive-IsRecorded :
    (nonce other : String) (expiry x now : ℕ) (disk : DiskWrite) (s : NonceStore)
    → now ≤ expiry
    → IsRecorded nonce expiry s
    → IsRecorded nonce expiry (consume_exclusive other x now disk s).0
      × ((other == nonce) ≡ true → (consume_exclusive other x now disk s).1 ≢ fresh_nonce)
unfolding consume_exclusive
consume_exclusive-IsRecorded nonce other expiry x now disk s le r =
    let read = load-IsRecorded nonce expiry s r in
    elim (Bool-cases (load s).1) [
      | inr broken ↦ rw broken (read.0, λ same e. ground arith)
      | inl complete ↦
          rw complete
            (loaded-IsRecorded nonce other expiry x now disk (load s).0 le read.0 (read.1 complete))
    ]

written-IsRecorded :
    (nonce : String) (expiry : ℕ) (disk : DiskWrite) (s : NonceStore)
    → (write_nonce nonce expiry disk s).1 ≡ fresh_nonce
    → IsRecorded nonce expiry (write_nonce nonce expiry disk s).0
unfolding write_nonce
written-IsRecorded nonce expiry line_lost s fresh = absurd (ground arith)
written-IsRecorded nonce expiry line_unsynced s fresh = absurd (ground arith)
written-IsRecorded nonce expiry line_synced s fresh = record {
  on_disk = λ m.
      append-Keeps nonce nonce expiry expiry s.file m
        (λ differ. absurd (ground (arith, differ, eq_refl nonce))) (λ same. refl);
  in_memory = λ l. rw (lookup-insert nonce nonce expiry s.nonces, eq_refl nonce) refl;
}

consumed-IsRecorded :
    (nonce : String) (expiry now : ℕ) (disk : DiskWrite) (s : NonceStore)
    → (consume_loaded nonce expiry now disk s).1 ≡ fresh_nonce
    → IsRecorded nonce expiry (consume_loaded nonce expiry now disk s).0
unfolding consume_loaded
consumed-IsRecorded nonce expiry now disk s fresh =
    elim (Option-cases (lookup nonce (prune now s.nonces))) [
      | inr (y, found) ↦ absurd (ground (arith, found))
      | inl nothing ↦ rw nothing (
          written-IsRecorded nonce expiry disk (record s { nonces = prune now s.nonces })
            (rw nothing at fresh))
    ]

-- A nonce that is consumed is recorded.
pub fresh_nonce-IsRecorded :
    (nonce : String) (expiry now : ℕ) (disk : DiskWrite) (s : NonceStore)
    → (consume_exclusive nonce expiry now disk s).1 ≡ fresh_nonce
    → IsRecorded nonce expiry (consume_exclusive nonce expiry now disk s).0
unfolding consume_exclusive consume_loaded
fresh_nonce-IsRecorded nonce expiry now disk s fresh = elim (Bool-cases (load s).1) [
  | inr broken ↦ absurd (ground (arith, broken))
  | inl complete ↦
      rw complete (consumed-IsRecorded nonce expiry now disk (load s).0 (rw complete at fresh))
]
