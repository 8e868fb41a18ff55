-- ===== src/Adapter/Fetch.antt =====
-- The handler `fetch` of sdk/typescript/src/create-adapter.ts up to the payload.
use forget_ops.Adapter.Nonces.{
  DiskWrite, NonceAnswer, NonceStore, consume_exclusive, fresh_nonce, restarted, seen_nonce,
  store_failed,
}
use forget_ops.Adapter.Signature.{
  AdapterCrypto, AdapterSignatureInput, adapter_acceptance_window_ms, verify_adapter_signature,
}
use forget_ops.Prelude.{
  Bool, List, Option, Outcome, String, [], contains, err, false, get_or, length, ltb, nat_strict,
  none, not, ok, reject_if, require, some, string_strict, ℕ, ◌+◌, ◌==◌, ◌>>=◌, ◌>>◌, ◌||◌, ◌∷◌,
}
use forget_ops.PrivacyRequest.Status.{status_strict}

pub record AdapterRequest : Type 0 where
  pub path : String
  pub method : String
  pub content_type : Option String
  pub content_length : Option ℕ
  pub body : List ℕ
  pub timestamp : Option String
  pub nonce : Option String
  pub signature : Option String

-- What the adapter was made with.
pub record AdapterDeps : Type 0 where
  pub crypto : AdapterCrypto
  pub secret : List ℕ
  pub max_payload_bytes : ℕ

-- The codes of the answers before the payload, and the throw of the signature's material.
pub data AdapterFailure : Type 0 where
  route_not_found method_not_allowed payload_invalid payload_too_large : AdapterFailure
  signature_invalid nonce_replayed nonce_store_unavailable material_throws : AdapterFailure

abbrev pub routes : List String
routes =
    "/forgetops/v1/health" ∷ "/forgetops/v1/discover" ∷ "/forgetops/v1/export"
    ∷ "/forgetops/v1/erase" ∷ "/forgetops/v1/verify" ∷ []

abbrev pub exceeds : Option ℕ → ℕ → Bool
exceeds none limit = false
exceeds (some n) limit = ltb limit n

abbrev pub header_text : Option String → String
header_text header = get_or header ""

abbrev pub signature_input : AdapterDeps → AdapterRequest → ℕ → AdapterSignatureInput
signature_input deps request now_ms = record {
  secret = deps.secret;
  method = request.method;
  normalized_path = request.path;
  timestamp = header_text request.timestamp;
  nonce = header_text request.nonce;
  content_type = header_text request.content_type;
  body = request.body;
  signature = header_text request.signature;
  now_ms = now_ms;
}

-- The checks before the nonce.
unfoldable pub check_request : AdapterDeps → AdapterRequest → ℕ → Outcome AdapterFailure (Unit {0})
unfolding verify_adapter_signature
check_request deps request now_ms = do
  reject_if (not (contains request.path routes)) route_not_found
  reject_if (not (request.method == "POST")) method_not_allowed
  reject_if
      (not (header_text request.content_type == "application/json")
        || exceeds request.content_length deps.max_payload_bytes)
      payload_invalid
  reject_if (ltb deps.max_payload_bytes (length request.body)) payload_too_large
  good ←
      require (verify_adapter_signature deps.crypto (signature_input deps request now_ms))
        material_throws
  reject_if (not good) signature_invalid

abbrev pub nonce_outcome : NonceAnswer → Outcome AdapterFailure (Unit {0})
nonce_outcome fresh_nonce = ok tt
nonce_outcome seen_nonce = err nonce_replayed
nonce_outcome store_failed = err nonce_store_unavailable

-- The request is let through to its payload, or is answered with an error.
unfoldable pub admit :
    AdapterDeps
    → AdapterRequest
    → ℕ
    → DiskWrite
    → NonceStore
    → NonceStore × Outcome AdapterFailure (Unit {0})
unfolding check_request consume_exclusive
admit deps request now_ms disk s = elim (check_request deps request now_ms) [
  | err e ↦ (s, err e)
  | ok passed ↦
      let taken =
        consume_exclusive (header_text request.nonce) (now_ms + adapter_acceptance_window_ms) now_ms
          disk s in
      (taken.0, nonce_outcome taken.1)
]

-- Requests at their times, and new processes.
pub data AdapterEvent : Type 0 where
  receives : AdapterRequest → ℕ → DiskWrite → AdapterEvent
  restarts : AdapterEvent

abbrev pub adapter_step : AdapterDeps → AdapterEvent → NonceStore → NonceStore
adapter_step deps (receives request now_ms disk) s = (admit deps request now_ms disk s).0
adapter_step deps restarts s = restarted s

abbrev pub adapter_run : AdapterDeps → List AdapterEvent → NonceStore → NonceStore
adapter_run deps [] s = s
adapter_run deps (e ∷ es) s = adapter_run deps es (adapter_step deps e s)
