-- ===== src/Pairing/Replacement.antt =====
-- What becomes of the active agent of an environment, and of its work, when another is paired.
use forget_ops.Pairing.Consume.{
  admit_agent, affected_requests, consume_and_pair, force_out, is_drain, is_force, is_none_mode,
  new_agent, replace_active, replace_if_active, set_needs_review,
}
use forget_ops.Pairing.Data.{
  AgentRecord, AgentRegistration, ConsumeAndPairInput, PairingTokenRecord, drain, force, none_mode,
  revoked,
}
use forget_ops.Pairing.Laws.{Paired, consume-Paired, token_of_valid}
use forget_ops.Pairing.Store.{PairingStore, find_active, requests_of, revoke_in}
use forget_ops.Prelude.{
  Bool-cases, List, String, [], ap, arith, contains, eq_iff, eq_refl, erase, false, inl, inr,
  insert, length, lookup, lookup-erase, lookup-insert, ltb, nat_strict, ok, refl, set_from, some,
  string_strict, subst, true, ◌==◌, ◌∷◌, ◌≡◌, ◌≢◌,
}
use forget_ops.PrivacyRequest.Status.{status_strict}

-- The rules that a replacement passed: the keys differ, the token allows it, and with drain no
-- request of the environment is under way.
pub record Allowed (token : PairingTokenRecord) (r : AgentRegistration) (active : AgentRecord)
    (s : PairingStore) : Type 0 where
  pub new_key : active.public_signing_key ≢ r.public_signing_key
  pub confirmed : token.replacement_mode ≢ none_mode
  pub drained : token.replacement_mode ≡ drain → affected_requests token.environment_id s ≡ []

empty_of_length : (xs : List String) → ltb 0 (length xs) ≡ false → xs ≡ []
empty_of_length [] h = refl
empty_of_length (x ∷ xs) h = absurd (ground arith)

replace-Allowed :
    (token : PairingTokenRecord) (r : AgentRegistration) (active : AgentRecord) (s t : PairingStore)
    → replace_active token r active s ≡ ok t
    → Allowed token r active s
unfolding replace_active
replace-Allowed token r active s t h = record {
  new_key = λ e. ground (arith, eq_iff active.public_signing_key r.public_signing_key);
  confirmed = λ e. ground (arith, ap is_none_mode e);
  drained = λ e.
      empty_of_length (affected_requests token.environment_id s)
        (ground (arith, ap is_drain e, ap is_none_mode e));
}

replace_revokes :
    (token : PairingTokenRecord) (r : AgentRegistration) (active : AgentRecord) (s t : PairingStore)
    → replace_active token r active s ≡ ok t
    → lookup active.id t.agents ≡ some (record active { status = revoked })
unfolding replace_active force_out revoke_in
replace_revokes token r active s t h = ground (
  arith,
  lookup-insert active.id active.id (record active { status = revoked }) s.agents,
  eq_refl active.id,
)

-- A call that succeeds while another agent is active went through the replacement of that agent.
consume_replaces :
    (id : String) (input : ConsumeAndPairInput) (s t : PairingStore) (a active : AgentRecord)
    (token : PairingTokenRecord)
    → consume_and_pair id input s ≡ ok (t, a)
    → lookup input.token_hash s.tokens ≡ some token
    → find_active token.environment_id s.agents ≡ some active
    → (p : Paired id input s t a) × (replace_active token input.registration active s
        ≡ ok p.replaced)
unfolding replace_if_active
consume_replaces id input s t a active token h found act =
    let p = consume-Paired id input s t a h in
    let v = token_of_valid input s p.token p.valid in
    let same : p.token ≡ token = ground (arith, v.0, found) in
    (
      p,
      subst (λ x. replace_active x input.registration active s ≡ ok p.replaced) same
          (ground (arith, p.by_rules, ap (λ x. find_active x.environment_id s.agents) same, act)),
    )

-- A call that succeeds while another agent is active in the token's environment passed the rules of
-- replacement (the new signing key differs, the token's mode is not none, and with the mode drain
-- no request of the environment is under way), and leaves that agent revoked, if the new agent's id
-- is not its id.
pub pairing_replaces_by_rules :
    (id : String) (input : ConsumeAndPairInput) (s t : PairingStore) (a active : AgentRecord)
    (token : PairingTokenRecord)
    → consume_and_pair id input s ≡ ok (t, a)
    → lookup input.token_hash s.tokens ≡ some token
    → find_active token.environment_id s.agents ≡ some active
    → id ≢ active.id
    → Allowed token input.registration active s
      × (lookup active.id t.agents ≡ some (record active { status = revoked }))
unfolding admit_agent
pairing_replaces_by_rules id input s t a active token h found act fresh =
    let c = consume_replaces id input s t a active token h found act in
    (
      replace-Allowed token input.registration active s c.0.replaced c.1,
      ground (
        arith,
        c.0.after,
        replace_revokes token input.registration active s c.0.replaced c.1,
        lookup-insert id active.id (new_agent id c.0.token input) c.0.replaced.agents,
        eq_iff id active.id,
      ),
    )

needs_review_kept :
    (request : String) (xs : List String) (m : List (String × String))
    → lookup request m ≡ some "needs_review"
    → lookup request (set_needs_review xs m) ≡ some "needs_review"
unfolding set_needs_review
needs_review_kept request [] m h = h
needs_review_kept request (x ∷ xs) m h =
    needs_review_kept request xs (insert x "needs_review" m)
      (ground (arith, lookup-insert x request "needs_review" m))

needs_review_set :
    (request : String) (xs : List String) (m : List (String × String))
    → contains request xs ≡ true
    → lookup request (set_needs_review xs m) ≡ some "needs_review"
unfolding set_needs_review
needs_review_set request [] m h = absurd (ground arith)
needs_review_set request (x ∷ xs) m h = elim (Bool-cases (x == request)) [
  | inl same ↦
      needs_review_kept request xs (insert x "needs_review" m)
        (rw (lookup-insert x request "needs_review" m, same) refl)
  | inr other ↦ needs_review_set request xs (insert x "needs_review" m) (ground arith)
]

replace_forces :
    (token : PairingTokenRecord) (r : AgentRegistration) (active : AgentRecord) (s t : PairingStore)
    → replace_active token r active s ≡ ok t
    → token.replacement_mode ≡ force
    → t ≡ record (force_out token.environment_id active s) { agents = revoke_in active s.agents }
unfolding replace_active force_out
replace_forces token r active s t h f =
    ground (arith, ap is_force f, ap is_drain f, ap is_none_mode f)

no_requests_left :
    (environment : String) (m : List (String × List String))
    → requests_of environment (erase environment m) ≡ []
no_requests_left environment m =
    rw (lookup-erase environment environment m, eq_refl environment) refl

forced_marks :
    (environment request : String) (active : AgentRecord) (s : PairingStore)
    → contains request (affected_requests environment s) ≡ true
    → lookup request (force_out environment active s).request_statuses ≡ some "needs_review"
unfolding force_out
forced_marks environment request active s =
    needs_review_set request (affected_requests environment s) s.request_statuses

forced_erases :
    (environment : String) (active : AgentRecord) (s : PairingStore)
    → affected_requests environment (force_out environment active s) ≡ []
unfolding force_out affected_requests set_from
forced_erases environment active s =
    rw
      (
        no_requests_left environment s.subject_envelope_requests,
        no_requests_left environment s.running_attempt_requests,
      )
      refl

-- A call that succeeds with a token of the mode force, while another agent is active, leaves each
-- request that had an envelope or a running attempt in the environment in need of review, and the
-- environment with neither envelopes nor running attempts.
pub force_marks_and_erases :
    (id : String) (input : ConsumeAndPairInput) (s t : PairingStore) (a active : AgentRecord)
    (token : PairingTokenRecord) (request : String)
    → consume_and_pair id input s ≡ ok (t, a)
    → lookup input.token_hash s.tokens ≡ some token
    → find_active token.environment_id s.agents ≡ some active
    → token.replacement_mode ≡ force
    → contains request (affected_requests token.environment_id s) ≡ true
    → (lookup request t.request_statuses ≡ some "needs_review")
      × (affected_requests token.environment_id t ≡ [])
unfolding admit_agent affected_requests
force_marks_and_erases id input s t a active token request h found act f k =
    let c = consume_replaces id input s t a active token h found act in
    let r = replace_forces token input.registration active s c.0.replaced c.1 f in
    (
      rw (c.0.after, r) (forced_marks token.environment_id request active s k),
      rw (c.0.after, r) (forced_erases token.environment_id active s),
    )
