-- ===== src/Pairing/Laws.antt =====
-- What pairing promises: a token serves once, in time and for its environment; an active agent is
-- replaced only as the token allows.
use forget_ops.Pairing.Consume.{
  admit_agent, check_token, check_version, consume_and_pair, finish_pairing, new_agent,
  replace_if_active,
}
use forget_ops.Pairing.Data.{
  AgentRecord, ConsumeAndPairInput, PairingTokenRecord, pairing, token_invalid,
}
use forget_ops.Pairing.Events.{
  IsSpent, IssuesOther, PairingEvent, finish-IsSpent, pairing_run, run-IsSpent,
}
use forget_ops.Pairing.Store.{PairingStore, find_agent}
use forget_ops.Prelude.{
  All, List, Outcome-cases, String, arith, eq_iff, eq_refl, err, inl, inr, lookup, lookup-insert,
  none, ok, refl, some, subst, sym, ◌<◌, ◌≡◌,
}

-- The parts of a successful call.
pub record Paired (id : String) (input : ConsumeAndPairInput) (s t : PairingStore) (a : AgentRecord)
    : Type 0 where
  pub token : PairingTokenRecord
  pub valid : check_token input s ≡ ok token
  pub replaced : PairingStore
  pub by_rules : replace_if_active token input.registration s ≡ ok replaced
  pub after : t ≡ admit_agent id token input replaced
  pub agent : a ≡ new_agent id token input

pub consume-Paired :
    (id : String) (input : ConsumeAndPairInput) (s t : PairingStore) (a : AgentRecord)
    → consume_and_pair id input s ≡ ok (t, a)
    → Paired id input s t a
unfolding consume_and_pair finish_pairing
consume-Paired id input s t a h = elim (Outcome-cases (check_token input s)) [
  | inr (e, bad) ↦ absurd (ground arith)
  | inl (token, valid) ↦ elim (Outcome-cases (check_version input token s)) [
    | inr (e, bad) ↦ absurd (ground arith)
    | inl (u, good) ↦ elim (Outcome-cases (replace_if_active token input.registration s)) [
      | inr (e, bad) ↦ absurd (ground arith)
      | inl (replaced, by_rules) ↦ record {
        token = token;
        valid = valid;
        replaced = replaced;
        by_rules = by_rules;
        after = ground arith;
        agent = ground arith;
      }
    ]
  ]
]

pub token_of_valid :
    (input : ConsumeAndPairInput) (s : PairingStore) (token : PairingTokenRecord)
    → check_token input s ≡ ok token
    → (lookup input.token_hash s.tokens ≡ some token)
      × (token.consumed_at ≡ none)
      × (input.now < token.expires_at)
      × (token.environment_id ≡ input.registration.environment_id)
unfolding check_token
token_of_valid input s token h =
    let same = eq_iff token.environment_id input.registration.environment_id in ground arith

spent_refused :
    (id : String) (input : ConsumeAndPairInput) (s : PairingStore)
    → IsSpent input.token_hash s.tokens
    → (check_token input s ≡ err token_invalid) × (consume_and_pair id input s ≡ err token_invalid)
unfolding consume_and_pair check_token
spent_refused id input s spent =
    (ground (arith, spent.there, spent.consumed), ground (arith, spent.there, spent.consumed))

-- After a call that goes on with its token, whenever that was checked, has succeeded, every call with
-- the token's hash whose check comes later throws the invalid token error, at any time, for any
-- registration and after any history of the repository's calls in which no token of that hash is
-- issued: among them calls whose checks came before, and which may still succeed.
pub token_serves_once :
    (id : String) (input : ConsumeAndPairInput) (token : PairingTokenRecord) (s t : PairingStore)
    (a : AgentRecord) (events : List PairingEvent) (later_id : String) (later : ConsumeAndPairInput)
    → finish_pairing id input token s ≡ ok (t, a)
    → All (IssuesOther input.token_hash) events
    → later.token_hash ≡ input.token_hash
    → (check_token later (pairing_run events t) ≡ err token_invalid)
      × (consume_and_pair later_id later (pairing_run events t) ≡ err token_invalid)
token_serves_once id input token s t a events later_id later h others same =
    spent_refused later_id later (pairing_run events t) (
      subst (λ token_hash. IsSpent token_hash (pairing_run events t).tokens) (sym same)
        (run-IsSpent input.token_hash events t others (finish-IsSpent id input token s t a h)))

-- A call that succeeds with a token was made before the token's end, while the token was not
-- consumed, and for the environment of the registration; the new agent waits in that environment,
-- and is found under the token's tenant.
pub paired_by_valid_token :
    (id : String) (input : ConsumeAndPairInput) (s t : PairingStore) (a : AgentRecord)
    (token : PairingTokenRecord)
    → consume_and_pair id input s ≡ ok (t, a)
    → lookup input.token_hash s.tokens ≡ some token
    → (token.consumed_at ≡ none)
      × (input.now < token.expires_at)
      × (token.environment_id ≡ input.registration.environment_id)
      × (a.environment_id ≡ token.environment_id)
      × (a.status ≡ pairing)
      × (find_agent token.tenant_id id t ≡ some a)
unfolding admit_agent new_agent find_agent
paired_by_valid_token id input s t a token h found =
    let p = consume-Paired id input s t a h in
    let v = token_of_valid input s p.token p.valid in
    let same : p.token ≡ token = ground (arith, v.0, found) in
    let tenant = lookup-insert id id p.token.tenant_id p.replaced.agent_tenants in
    let agent = lookup-insert id id (new_agent id p.token input) p.replaced.agents in
    let there : find_agent p.token.tenant_id id t ≡ some a =
      rw (p.after, p.agent)
        (rw (tenant, agent, eq_refl id) (rw (eq_refl p.token.tenant_id) refl)) in
    subst
      (λ x.
        (x.consumed_at ≡ none)
        × (input.now < x.expires_at)
        × (x.environment_id ≡ input.registration.environment_id)
        × (a.environment_id ≡ x.environment_id)
        × (a.status ≡ pairing)
        × (find_agent x.tenant_id id t ≡ some a))
      same (v.1, v.2, v.3, ground (arith, p.agent), ground (arith, p.agent), there)
