-- ===== src/Adapter/Replay.antt =====
-- A signed request is let through once.
use forget_ops.Adapter.Fetch.{
  AdapterDeps, AdapterEvent, AdapterFailure, AdapterRequest, adapter_run, admit, check_request,
  exceeds, header_text, material_throws, method_not_allowed, nonce_outcome, payload_invalid,
  payload_too_large, receives, restarts, route_not_found, routes, signature_input,
  signature_invalid,
}
use forget_ops.Adapter.Nonces.{
  DiskWrite, NonceAnswer, NonceStore, consume_exclusive, fresh_nonce, restarted, seen_nonce,
  store_failed,
}
use forget_ops.Adapter.Recorded.{IsRecorded, consume_exclusive-IsRecorded, fresh_nonce-IsRecorded}
use forget_ops.Adapter.Signature.{
  AdapterCrypto, AdapterSignatureInput, adapter_acceptance_window_ms, decode_signature, in_window,
  is_expected_mac, is_well_formed, signature_material, verify_adapter_signature,
}
use forget_ops.Prelude.{
  All, All-map, Bool, Bool-cases, List, Option, Option-cases, Outcome, Outcome-cases, String, [],
  ap, arith, bind-ok, contains, eq_iff, err, false, get_or, inl, inr, length, ltb, nat_beq_iff,
  nat_strict, none, not, ok, refl, reject_if, reject_if-ok, require, require-ok, same_codes, some,
  string_strict, sym, then-ok, true, ℕ, ◌&&◌, ◌+◌, ◌==◌, ◌||◌, ◌∙◌, ◌∷◌, ◌≡◌, ◌≢◌, ◌≤◌,
}
use forget_ops.PrivacyRequest.Status.{status_strict}

abbrev pub IsNotLaterThan : ℕ → AdapterEvent → Type 0
IsNotLaterThan time (receives request now_ms disk) = now_ms ≤ time
IsNotLaterThan time restarts = Unit

nonce_outcome-ok : (a : NonceAnswer) → nonce_outcome a ≡ ok tt → a ≡ fresh_nonce
nonce_outcome-ok fresh_nonce h = refl
nonce_outcome-ok seen_nonce h = absurd (ground arith)
nonce_outcome-ok store_failed h = absurd (ground arith)

admit-IsRecorded :
    (deps : AdapterDeps) (request : AdapterRequest) (now expiry : ℕ) (disk : DiskWrite)
    (s : NonceStore) (nonce : String)
    → now ≤ expiry
    → IsRecorded nonce expiry s
    → IsRecorded nonce expiry (admit deps request now disk s).0
      × ((header_text request.nonce == nonce) ≡ true → (admit deps request now disk s).1 ≢ ok tt)
unfolding admit
admit-IsRecorded deps request now expiry disk s nonce le r =
    elim (Outcome-cases (check_request deps request now)) [
      | inr (e, bad) ↦ rw (bad, admit) (r, λ same a. ground arith)
      | inl (passed, checked) ↦
          let step =
            consume_exclusive-IsRecorded nonce (header_text request.nonce) expiry
              (now + adapter_acceptance_window_ms) now disk s le r in
          rw (checked, admit)
            (
              step.0,
              λ same a. step.1 same (
                  nonce_outcome-ok
                    (consume_exclusive (header_text request.nonce)
                      (now + adapter_acceptance_window_ms) now disk s).1
                    a),
            )
    ]

run-IsRecorded :
    (deps : AdapterDeps) (events : List AdapterEvent) (expiry : ℕ) (s : NonceStore) (nonce : String)
    → All (IsNotLaterThan expiry) events
    → IsRecorded nonce expiry s
    → IsRecorded nonce expiry (adapter_run deps events s)
run-IsRecorded deps [] expiry s nonce h r = r
run-IsRecorded deps (receives request now disk ∷ events) expiry s nonce h r =
    run-IsRecorded deps events expiry (admit deps request now disk s).0 nonce h.1
      (admit-IsRecorded deps request now expiry disk s nonce h.0 r).0
run-IsRecorded deps (restarts ∷ events) expiry s nonce h r =
    run-IsRecorded deps events expiry (restarted s) nonce h.1
      (record { on_disk = r.on_disk; in_memory = λ l. absurd (ground arith) })

same_codes-equal : (xs ys : List ℕ) → same_codes xs ys ≡ true → xs ≡ ys
same_codes-equal [] [] h = refl
same_codes-equal [] (y ∷ ys) h = absurd (ground arith)
same_codes-equal (x ∷ xs) [] h = absurd (ground arith)
same_codes-equal (x ∷ xs) (y ∷ ys) h = ground (arith, nat_beq_iff x y, same_codes-equal xs ys)

-- What has been checked when a request is let through.
pub record Verified (deps : AdapterDeps) (request : AdapterRequest) (now : ℕ) : Type 0 where
  pub on_route : contains request.path routes ≡ true
  pub posted : request.method ≡ "POST"
  pub fits : length request.body ≤ deps.max_payload_bytes
  pub sent_at : ℕ
  pub dated : deps.crypto.parse_date (header_text request.timestamp) ≡ some sent_at
  pub recent : (now ≤ sent_at + 60000) × (sent_at ≤ now + 60000)
  pub material : List ℕ
  pub material_made :
      signature_material deps.crypto (signature_input deps request now) ≡ some material
  pub signed :
      decode_signature deps.crypto (header_text request.signature)
      ≡ some (deps.crypto.hmac_sha256 deps.secret material)

in_window-parts :
    (sent : Option ℕ) (now : ℕ)
    → in_window sent now ≡ true
    → (at_time : ℕ) × (sent ≡ some at_time) × (now ≤ at_time + 60000) × (at_time ≤ now + 60000)
in_window-parts none now h = absurd (ground arith)
in_window-parts (some at_time) now h = (at_time, refl, ground arith, ground arith)

unequal_answers : some false ≢ some true
unequal_answers h = ground arith

unnegated : (b : Bool) → not b ≡ false → b ≡ true
unnegated b h = ground arith

second_true : (a b : Bool) → (a && b) ≡ true → b ≡ true
second_true a b h = ground arith

not_less : (a b : ℕ) → ltb a b ≡ false → b ≤ a
not_less a b h = ground arith

mac_of :
    (k : AdapterCrypto) (input : AdapterSignatureInput) (material : List ℕ)
    → signature_material k input ≡ some material
    → (is_well_formed k input && in_window (k.parse_date input.timestamp) input.now_ms) ≡ true
    → verify_adapter_signature k input ≡ some true
    → is_expected_mac (decode_signature k input.signature) (k.hmac_sha256 input.secret material)
      ≡ true
unfolding verify_adapter_signature
mac_of k input material made fit h =
    ap (λ (o : Option Bool). get_or o true) (rw (fit, made, verify_adapter_signature) at h)

verify-parts :
    (k : AdapterCrypto) (input : AdapterSignatureInput)
    → verify_adapter_signature k input ≡ some true
    → (in_window (k.parse_date input.timestamp) input.now_ms ≡ true)
      × ((material : List ℕ) × (signature_material k input ≡ some material)
          × (is_expected_mac
                (decode_signature k input.signature)
                (k.hmac_sha256 input.secret material)
              ≡ true))
unfolding verify_adapter_signature
verify-parts k input h =
    elim (Bool-cases
      (is_well_formed k input && in_window (k.parse_date input.timestamp) input.now_ms)) [
        | inr unfit ↦ absurd (unequal_answers (rw unfit at h))
        | inl fit ↦ elim (Option-cases (signature_material k input)) [
          | inl nothing ↦ absurd (ground (arith, fit, nothing))
          | inr (material, made) ↦ (
            second_true (is_well_formed k input) _ fit,
            (material, made, mac_of k input material made fit h),
          )
        ]
      ]

is_expected_mac-equal :
    (received : Option (List ℕ)) (expected : List ℕ)
    → is_expected_mac received expected ≡ true
    → received ≡ some expected
is_expected_mac-equal none expected h = absurd (ground arith)
is_expected_mac-equal (some received) expected h =
    ap some (sym (same_codes-equal expected received h))

check_request-Verified :
    (deps : AdapterDeps) (request : AdapterRequest) (now : ℕ)
    → check_request deps request now ≡ ok tt
    → Verified deps request now
unfolding check_request
check_request-Verified deps request now h =
    let (on_route, h1) =
      then-ok (reject_if (not (contains request.path routes)) route_not_found) _ tt h in
    let (posted, h2) =
      then-ok (reject_if (not (request.method == "POST")) method_not_allowed) _ tt h1 in
    let (typed, h3) =
      then-ok
        (reject_if
          (not (header_text request.content_type == "application/json")
            || exceeds request.content_length deps.max_payload_bytes)
          payload_invalid)
        _ tt h2 in
    let (small, h4) =
      then-ok (reject_if (ltb deps.max_payload_bytes (length request.body)) payload_too_large) _ tt
        h3 in
    let (good, verified, h5) =
      bind-ok
        (require (verify_adapter_signature deps.crypto (signature_input deps request now))
          material_throws)
        _ tt h4 in
    let is_good : verify_adapter_signature deps.crypto (signature_input deps request now)
        ≡ some true =
      require-ok _ material_throws good verified
      ∙ ap some (unnegated good (reject_if-ok (not good) signature_invalid h5)) in
    let parts = verify-parts deps.crypto (signature_input deps request now) is_good in
    let time =
      in_window-parts (deps.crypto.parse_date (header_text request.timestamp)) now parts.0 in
    record {
      on_route = unnegated (contains request.path routes) (reject_if-ok _ route_not_found on_route);
      posted =
          (eq_iff request.method "POST").0
            (unnegated (request.method == "POST") (reject_if-ok _ method_not_allowed posted));
      fits =
          not_less deps.max_payload_bytes (length request.body)
            (reject_if-ok _ payload_too_large small);
      sent_at = time.0;
      dated = time.1;
      recent = (time.2, time.3);
      material = parts.1.0;
      material_made = parts.1.1;
      signed = is_expected_mac-equal _ _ parts.1.2;
    }

refused_not_let : (e : AdapterFailure) → ◌≢◌ {A = Outcome AdapterFailure (Unit {0})} (err e) (ok tt)
refused_not_let e h = ground arith

not_later :
    (time limit : ℕ)
    → time ≤ limit
    → (e : AdapterEvent) → IsNotLaterThan time e
    → IsNotLaterThan limit e
not_later time limit le (receives request now disk) h = omega arith
not_later time limit le restarts h = tt

admit-Verified :
    (deps : AdapterDeps) (request : AdapterRequest) (now : ℕ) (disk : DiskWrite) (s : NonceStore)
    → (admit deps request now disk s).1 ≡ ok tt
    → Verified deps request now
      × IsRecorded
          (header_text request.nonce)
          (now + adapter_acceptance_window_ms)
          (admit deps request now disk s).0
unfolding admit
admit-Verified deps request now disk s h = elim (Outcome-cases (check_request deps request now)) [
  | inr (e, bad) ↦ absurd (refused_not_let e (rw (bad, admit) at h))
  | inl (passed, checked) ↦ (
    check_request-Verified deps request now checked,
    rw (checked, admit)
        (fresh_nonce-IsRecorded (header_text request.nonce) (now + adapter_acceptance_window_ms) now
          disk s (nonce_outcome-ok _ (rw (checked, admit) at h))),
  )
]

-- A request that is let through is a POST to one of the routes, with a body of an accepted size,
-- a date at most a minute from now and the message authentication code of its parts; and if its
-- date is not later than now, a request with its date and nonce is not let through again,
-- whatever requests and new processes on the same file come in between, whether their lines are
-- synced, unsynced or lost, if none of them comes later than the second time.
pub request_served_once :
    (deps : AdapterDeps) (request again : AdapterRequest) (now later : ℕ)
    (disk disk_again : DiskWrite) (s : NonceStore) (events : List AdapterEvent)
    → (admit deps request now disk s).1 ≡ ok tt
    → All (IsNotLaterThan later) events
    → again.timestamp ≡ request.timestamp
    → again.nonce ≡ request.nonce
    → Verified deps request now
      × ((sent : ℕ)
          → deps.crypto.parse_date (header_text request.timestamp) ≡ some sent
          → sent ≤ now
          → (admit deps again later disk_again
              (adapter_run deps events (admit deps request now disk s).0)).1
            ≢ ok tt)
request_served_once deps request again now later disk disk_again s events h ordered dates nonces =
    let (verified, recorded) = admit-Verified deps request now disk s h in
    (
      verified,
      λ sent parsed past second.
          let (repeated, ignored) =
            admit-Verified deps again later disk_again
              (adapter_run deps events (admit deps request now disk s).0) second in
          let same_date : some sent ≡ some repeated.sent_at =
            sym parsed
            ∙ ap (λ t. deps.crypto.parse_date (header_text t)) (sym dates)
            ∙ repeated.dated in
          let same : sent ≡ repeated.sent_at = ap (λ (o : Option ℕ). get_or o sent) same_date in
          let recent = repeated.recent.0 in
          let in_time : later ≤ now + adapter_acceptance_window_ms = omega (arith, same, recent) in
          let step =
            admit-IsRecorded deps again later (now + adapter_acceptance_window_ms) disk_again
              (adapter_run deps events (admit deps request now disk s).0)
              (header_text request.nonce) in_time
              (run-IsRecorded deps events (now + adapter_acceptance_window_ms)
                (admit deps request now disk s).0 (header_text request.nonce)
                (All-map (IsNotLaterThan later)
                  (IsNotLaterThan (now + adapter_acceptance_window_ms)) events
                  (not_later later (now + adapter_acceptance_window_ms) in_time) ordered)
                recorded) in
          step.1
            ((eq_iff (header_text again.nonce) (header_text request.nonce)).1
              (ap header_text nonces))
            second,
    )
