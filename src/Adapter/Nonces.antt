-- ===== src/Adapter/Nonces.antt =====
-- `FileNonceStore` of sdk/typescript/src/signature.ts, and `MemoryNonceStore`, whose `consume` is its
-- middle. The calls of a store wait for each other in its queue, so that each of them is one step.
-- A line of the file is a record, or none if it is not one, which throws.
use forget_ops.Prelude.{
  Bool, List, Option, String, [], false, if◌then◌else◌, insert, is_present, lookup, ltb, none, some,
  true, ℕ, ◌++◌, ◌∷◌,
}

pub record NonceRecord : Type 0 where
  pub nonce : String
  pub expires_at_ms : ℕ

-- The file outlives the process, the rest does not.
pub record NonceStore : Type 0 where
  pub loaded : Bool
  pub nonces : List (String × ℕ)
  pub file : List (Option NonceRecord)

pub data NonceAnswer : Type 0 where
  fresh_nonce seen_nonce store_failed : NonceAnswer

-- What becomes of the line that is written: it is synced; or the call throws, with the line in the
-- file or not.
pub data DiskWrite : Type 0 where
  line_synced line_lost line_unsynced : DiskWrite

-- `for (const [value, expiry] of this.nonces) if (expiry < nowMs) …`
unfoldable pub prune : ℕ → List (String × ℕ) → List (String × ℕ)
prune now [] = []
prune now ((n, expiry) ∷ rest) =
    if ltb expiry now then prune now rest else (n, expiry) ∷ prune now rest

-- `MemoryNonceStore.consume`
unfoldable pub consume_in_memory : String → ℕ → ℕ → List (String × ℕ) → List (String × ℕ) × Bool
unfolding prune
consume_in_memory nonce expires_at_ms now nonces =
    if is_present (lookup nonce (prune now nonces))
    then (prune now nonces, false)
    else (insert nonce expires_at_ms (prune now nonces), true)

-- The loop of `load`, with whether it comes to its end.
unfoldable pub load_lines : List (Option NonceRecord) → List (String × ℕ) → List (String × ℕ) × Bool
load_lines [] nonces = (nonces, true)
load_lines (none ∷ lines) nonces = (nonces, false)
load_lines (some r ∷ lines) nonces = load_lines lines (insert r.nonce r.expires_at_ms nonces)

-- `load`
unfoldable pub load : NonceStore → NonceStore × Bool
unfolding load_lines
load s =
    if s.loaded
    then (s, true)
    else let read = load_lines s.file s.nonces in
      (record s { loaded = read.1; nonces = read.0 }, read.1)

-- The line is written, and the nonce is kept if it is synced.
unfoldable pub write_nonce : String → ℕ → DiskWrite → NonceStore → NonceStore × NonceAnswer
write_nonce nonce expires_at_ms line_lost s = (s, store_failed)
write_nonce nonce expires_at_ms line_unsynced s = (
  record s { file = s.file ++ some (record { nonce = nonce; expires_at_ms = expires_at_ms }) ∷ [] },
  store_failed,
)
write_nonce nonce expires_at_ms line_synced s = (
  record s {
    file = s.file ++ some (record { nonce = nonce; expires_at_ms = expires_at_ms }) ∷ [];
    nonces = insert nonce expires_at_ms s.nonces;
  },
  fresh_nonce,
)

-- `consumeExclusive`, once the file is loaded.
unfoldable pub consume_loaded : String → ℕ → ℕ → DiskWrite → NonceStore → NonceStore × NonceAnswer
unfolding prune write_nonce
consume_loaded nonce expires_at_ms now disk s =
    let pruned : NonceStore = record s { nonces = prune now s.nonces } in
    if is_present (lookup nonce pruned.nonces)
    then (pruned, seen_nonce)
    else write_nonce nonce expires_at_ms disk pruned

-- `consumeExclusive`
unfoldable pub consume_exclusive :
    String → ℕ → ℕ → DiskWrite → NonceStore → NonceStore × NonceAnswer
unfolding load consume_loaded
consume_exclusive nonce expires_at_ms now disk s =
    let read = load s in
    if read.1 then consume_loaded nonce expires_at_ms now disk read.0 else (read.0, store_failed)

-- A new process on the same file.
abbrev pub restarted : NonceStore → NonceStore
restarted s = record { loaded = false; nonces = []; file = s.file }
