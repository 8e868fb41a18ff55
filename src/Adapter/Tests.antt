-- ===== src/Adapter/Tests.antt =====
-- An adapter with one resource, with stand-ins for the packages' functions: a request is let through
-- once, and its resource erases and verifies.
use forget_ops.Adapter.Fetch.{
  AdapterDeps, AdapterRequest, adapter_run, admit, header_text, restarts,
}
use forget_ops.Adapter.Nonces.{NonceStore, line_synced}
use forget_ops.Adapter.Replay.{Verified, request_served_once}
use forget_ops.Adapter.Resources.{
  EraseRequest, ResourceDefinition, delete_action, deletes_data, discovers_data, erase_resource,
  verifies_data, was_deleted,
}
use forget_ops.Adapter.Signature.{AdapterCrypto}
use forget_ops.Prelude.{
  List, [], char_codes, false, if◌then◌else◌, insert, lookup, nat_beq, nat_strict, none, ok, refl,
  some, string_strict, suc, zero, ℕ, ◌==◌, ◌∷◌, ◌≡◌, ◌≢◌, ◌≤◌,
}
use forget_ops.PrivacyRequest.Status.{status_strict}

abbrev crypto : AdapterCrypto
crypto = record {
  canonicalize_envelope = λ e. some (char_codes e.nonce);
  sha256_text = λ bytes. "00";
  hmac_sha256 = λ key bytes. 7 ∷ [];
  decode_base64 = λ value. 7 ∷ [];
  encode_base64 = λ bytes. "Bw";
  to_upper_case = λ value. value;
  parse_date = λ value. if value == "2026-01-01T00:00:00Z" then some 100000 else none;
}

abbrev secret : ℕ → List ℕ
secret zero = []
secret (suc n) = 1 ∷ secret n

abbrev deps : AdapterDeps
deps = record { crypto = crypto; secret = secret 32; max_payload_bytes = 1000 }

abbrev request : AdapterRequest
request = record {
  path = "/forgetops/v1/health";
  method = "POST";
  content_type = some "application/json";
  content_length = some 2;
  body = 123 ∷ 125 ∷ [];
  timestamp = some "2026-01-01T00:00:00Z";
  nonce = some "nonce-0123456789";
  signature = some "Bw";
}

abbrev empty_store : NonceStore
empty_store = record { loaded = false; nonces = []; file = [] }

let_through : (admit deps request 100000 line_synced empty_store).1 ≡ ok tt
unfolding admit lookup insert
let_through = refl

request_served_once_example :
    Verified deps request 100000
    × ((sent : ℕ)
        → deps.crypto.parse_date (header_text request.timestamp) ≡ some sent
        → sent ≤ 100000
        → (admit deps request 150000 line_synced (
            adapter_run deps
              (restarts ∷ [])
              (admit deps request 100000 line_synced empty_store).0)).1
          ≢ ok tt)
request_served_once_example =
    request_served_once deps request request 100000 150000 line_synced line_synced empty_store
      (restarts ∷ []) let_through (tt, tt) refl refl

-- A request whose date is a minute ahead is let through again once its nonce has expired.
let_through_twice :
    (admit deps request 100500 line_synced (admit deps request 40000 line_synced empty_store).0).1
    ≡ ok tt
unfolding admit lookup insert
let_through_twice = refl

abbrev users : ResourceDefinition ℕ
users = record {
  name = "users";
  capabilities = discovers_data ∷ deletes_data ∷ verifies_data ∷ [];
  has_export = false;
  erase_handler = some λ input rows. (
    0,
    some (record {
      operation_key = input.operation_key;
      affected_count = some rows;
      outcome = was_deleted;
      reason = none;
    }),
  );
  verify_handler = some λ input rows. (
    rows,
    some (record { satisfied = nat_beq rows 0; remaining_count = some rows; reason = none }),
  );
}

abbrev erase_users : EraseRequest
erase_users = record {
  subject = record { user_id = some "u1"; email = none };
  resource = "users";
  operation_key = "operation";
  action = delete_action;
  request_id = "request";
  attempt_id = "attempt";
  step_id = "step";
  idempotency_key = "key";
  dry_run = false;
}

users_erased : (erase_resource (("users", users) ∷ []) erase_users 3).0 ≡ 0
unfolding erase_resource lookup
users_erased = refl
