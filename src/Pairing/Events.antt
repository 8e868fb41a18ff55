-- ===== src/Pairing/Events.antt =====
-- Histories of `InMemoryPairingRepository`: its calls, of which `consumeAndPair` counts where it goes on
-- after its wait, and the consumed tokens through them.
use forget_ops.Pairing.Consume.{
  admit_agent, check_version, finish_pairing, force_out, replace_if_active,
}
use forget_ops.Pairing.Data.{
  AgentRecord, AgentRegistration, ConsumeAndPairInput, PairingError, PairingTokenRecord,
  PersistPairingTokenInput,
}
use forget_ops.Pairing.Store.{
  PairingStore, add_pending_ciphertext, issue_token, mark_attempt_running,
  mark_subject_envelope_active, revoke_agent,
}
use forget_ops.Prelude.{
  All, Bool-cases, List, Outcome, Outcome-cases, String, [], arith, eq_iff, eq_refl, err, inl, inr,
  insert, is_present, lookup, lookup-insert, nat_strict, none, ok, refl, some, string_strict, true,
  ◌==◌, ◌∷◌, ◌≡◌, ◌≢◌, ◌⊎◌,
}
use forget_ops.PrivacyRequest.Status.{status_strict}

-- `finishes` is a call that goes on with the token that its check found at some time before.
pub data PairingEvent : Type 0 where
  issues : (input : PersistPairingTokenInput) → PairingEvent
  finishes : (id : String) (input : ConsumeAndPairInput) (token : PairingTokenRecord) → PairingEvent
  marks_envelope marks_attempt : (environment request : String) → PairingEvent
  adds_ciphertext : (agent job ciphertext : String) → PairingEvent
  revokes : (tenant agent : String) → PairingEvent

-- A call that throws changes nothing.
abbrev pub stored : PairingStore → Outcome PairingError PairingStore → PairingStore
stored s (ok t) = t
stored s (err e) = s

abbrev pub finished :
    PairingStore → Outcome PairingError (PairingStore × AgentRecord) → PairingStore
finished s (ok (t, a)) = t
finished s (err e) = s

abbrev pub pairing_event : PairingEvent → PairingStore → PairingStore
pairing_event (issues input) s = stored s (issue_token input s)
pairing_event (finishes id input token) s = finished s (finish_pairing id input token s)
pairing_event (marks_envelope environment request) s =
    mark_subject_envelope_active environment request s
pairing_event (marks_attempt environment request) s = mark_attempt_running environment request s
pairing_event (adds_ciphertext agent job ciphertext) s =
    add_pending_ciphertext agent job ciphertext s
pairing_event (revokes tenant agent) s = stored s (revoke_agent tenant agent s)

abbrev pub pairing_run : List PairingEvent → PairingStore → PairingStore
pairing_run [] s = s
pairing_run (event ∷ events) s = pairing_run events (pairing_event event s)

-- No token is issued that has the hash.
abbrev pub IssuesOther : String → PairingEvent → Type 0
IssuesOther token_hash (issues input) = input.token_hash ≢ token_hash
IssuesOther token_hash event = Unit

-- The token of the hash is there, and is consumed.
pub record IsSpent (token_hash : String) (tokens : List (String × PairingTokenRecord))
    : Type 0 where
  pub token : PairingTokenRecord
  pub there : lookup token_hash tokens ≡ some token
  pub consumed : is_present token.consumed_at ≡ true

replace_keeps_tokens :
    (token : PairingTokenRecord) (registration : AgentRegistration) (s t : PairingStore)
    → replace_if_active token registration s ≡ ok t
    → t.tokens ≡ s.tokens
unfolding replace_if_active force_out
replace_keeps_tokens token registration s t h = ground arith

-- A call that finishes well has marked its token.
finish_tokens :
    (id : String) (input : ConsumeAndPairInput) (token : PairingTokenRecord) (s t : PairingStore)
    (a : AgentRecord)
    → finish_pairing id input token s ≡ ok (t, a)
    → t.tokens ≡ insert input.token_hash (record token { consumed_at = some input.now }) s.tokens
unfolding finish_pairing admit_agent
finish_tokens id input token s t a h = elim (Outcome-cases (check_version input token s)) [
  | inr (e, bad) ↦ absurd (ground arith)
  | inl (u, good) ↦ elim (Outcome-cases (replace_if_active token input.registration s)) [
    | inr (e, bad) ↦ absurd (ground arith)
    | inl (replaced, by_rules) ↦
        let same = replace_keeps_tokens token input.registration s replaced by_rules in ground arith
  ]
]

insert-IsSpent :
    (token_hash other : String) (token : PairingTokenRecord)
    (tokens : List (String × PairingTokenRecord))
    → (other ≢ token_hash) ⊎ (is_present token.consumed_at ≡ true)
    → IsSpent token_hash tokens
    → IsSpent token_hash (insert other token tokens)
insert-IsSpent token_hash other token tokens either spent =
    elim (Bool-cases (other == token_hash)) [
      | inr differ ↦ record {
        token = spent.token;
        there = rw (lookup-insert other token_hash token tokens, differ) spent.there;
        consumed = spent.consumed;
      }
      | inl same ↦ record {
        token = token;
        there = rw (lookup-insert other token_hash token tokens, same) refl;
        consumed = ground (arith, either, eq_iff other token_hash);
      }
    ]

pub finish-IsSpent :
    (id : String) (input : ConsumeAndPairInput) (token : PairingTokenRecord) (s t : PairingStore)
    (a : AgentRecord)
    → finish_pairing id input token s ≡ ok (t, a)
    → IsSpent input.token_hash t.tokens
finish-IsSpent id input token s t a h = record {
  token = record token { consumed_at = some input.now };
  there =
      rw
        (
          finish_tokens id input token s t a h,
          lookup-insert input.token_hash input.token_hash
              (record token { consumed_at = some input.now }) s.tokens,
          eq_refl input.token_hash,
        )
        refl;
  consumed = refl;
}

issued_tokens :
    (input : PersistPairingTokenInput) (s t : PairingStore)
    → issue_token input s ≡ ok t
    → t.tokens ≡ insert input.token_hash (record { issued = input; consumed_at = none }) s.tokens
unfolding issue_token
issued_tokens input s t h = ground arith

issue_keeps :
    (token_hash : String) (input : PersistPairingTokenInput) (s : PairingStore)
    → input.token_hash ≢ token_hash
    → IsSpent token_hash s.tokens
    → IsSpent token_hash (stored s (issue_token input s)).tokens
issue_keeps token_hash input s differ spent = elim (Outcome-cases (issue_token input s)) [
  | inr (e, bad) ↦ rw bad spent
  | inl (t, good) ↦
      let set : t.tokens
          ≡ insert input.token_hash (record { issued = input; consumed_at = none }) s.tokens =
        issued_tokens input s t good in
      rw (good, set)
        (insert-IsSpent token_hash input.token_hash (record { issued = input; consumed_at = none })
          s.tokens (inl differ) spent)
]

finish_keeps :
    (token_hash id : String) (input : ConsumeAndPairInput) (token : PairingTokenRecord)
    (s : PairingStore)
    → IsSpent token_hash s.tokens
    → IsSpent token_hash (finished s (finish_pairing id input token s)).tokens
finish_keeps token_hash id input token s spent =
    elim (Outcome-cases (finish_pairing id input token s)) [
      | inr (e, bad) ↦ rw bad spent
      | inl ((t, a), good) ↦
          rw (good, finish_tokens id input token s t a good)
            (insert-IsSpent token_hash input.token_hash
              (record token { consumed_at = some input.now }) s.tokens (inr refl) spent)
    ]

revoke_keeps :
    (tenant agent : String) (s : PairingStore)
    → (stored s (revoke_agent tenant agent s)).tokens ≡ s.tokens
unfolding revoke_agent
revoke_keeps tenant agent s = ground arith

event-IsSpent :
    (token_hash : String) (event : PairingEvent) (s : PairingStore)
    → IssuesOther token_hash event
    → IsSpent token_hash s.tokens
    → IsSpent token_hash (pairing_event event s).tokens
unfolding mark_subject_envelope_active mark_attempt_running add_pending_ciphertext
event-IsSpent token_hash (issues input) s other spent = issue_keeps token_hash input s other spent
event-IsSpent token_hash (finishes id input token) s other spent =
    finish_keeps token_hash id input token s spent
event-IsSpent token_hash (marks_envelope environment request) s other spent = spent
event-IsSpent token_hash (marks_attempt environment request) s other spent = spent
event-IsSpent token_hash (adds_ciphertext agent job ciphertext) s other spent = spent
event-IsSpent token_hash (revokes tenant agent) s other spent =
    rw (revoke_keeps tenant agent s) spent

-- A token that is consumed stays so through every history in which no token of its hash is issued.
pub run-IsSpent :
    (token_hash : String) (events : List PairingEvent) (s : PairingStore)
    → All (IssuesOther token_hash) events
    → IsSpent token_hash s.tokens
    → IsSpent token_hash (pairing_run events s).tokens
run-IsSpent token_hash [] s others spent = spent
run-IsSpent token_hash (event ∷ events) s others spent =
    run-IsSpent token_hash events (pairing_event event s) others.1
      (event-IsSpent token_hash event s others.0 spent)
