-- ===== src/Gateway/Routes.antt =====
-- What the authentication of messages promises, and what the routes make of it.
use forget_ops.Gateway.Authenticate.{
  AgentMessage, GatewayCrypto, agent_to_control, answer_claim, authenticate, check_message,
  claim_input, decimal_from, is_sequence, max_u64, message_freshness_ms, parse_sequence,
  verify_agent_message,
}
use forget_ops.Gateway.Calls.{GatewayCall, gateway_run}
use forget_ops.Gateway.Data.{
  ClaimAgentMessageInput, ClaimResult, GatewayAgent, GatewayAgentIdentity, GatewayDb, accepted,
  revoked,
}
use forget_ops.Gateway.Messages.{claim_agent_message, find_agent_identity}
use forget_ops.Gateway.Replay.{accepted_once}
use forget_ops.Prelude.{
  List, Option-cases, Outcome-cases, String, [], ap, arith, char_codes, eq_iff, false, inl, inr,
  lookup, ltb, ok, some, subst, true, ℕ, ◌*◌, ◌+◌, ◌-◌, ◌<◌, ◌∷◌, ◌≡◌, ◌≢◌, ◌≤◌, ◌⊎◌,
}

-- Who an agent is, by the database's row under its id and by the tenant of that row's environment.
pub record KnownAs (db : GatewayDb) (agent_id : String) (a : GatewayAgentIdentity) : Type 0 where
  pub row : GatewayAgent
  pub there : lookup agent_id db.agents ≡ some row
  pub own_id : a.agent_id ≡ agent_id
  pub row_key : a.public_signing_key ≡ row.public_signing_key
  pub row_environment : a.environment_id ≡ row.environment_id
  pub row_status : a.status ≡ row.status
  pub row_tenant : lookup row.environment_id db.environment_tenants ≡ some a.tenant_id

identity-KnownAs :
    (key_id_for : String → String) (agent_id : String) (db : GatewayDb) (a : GatewayAgentIdentity)
    → find_agent_identity key_id_for agent_id db ≡ some a
    → KnownAs db agent_id a
unfolding find_agent_identity
identity-KnownAs key_id_for agent_id db a h = elim (Option-cases (lookup agent_id db.agents)) [
  | inl absent ↦ absurd (ground arith)
  | inr (row, there) ↦ elim (Option-cases (lookup row.environment_id db.environment_tenants)) [
    | inl nowhere ↦ absurd (ground arith)
    | inr (tenant, of_tenant) ↦ record {
      row = row;
      there = there;
      own_id = ground arith;
      row_key = ground arith;
      row_environment = ground arith;
      row_status = ground arith;
      row_tenant = ground arith;
    }
  ]
]

-- A message that is let in: signed by the key of the agent that it names, as the database knows it,
-- fresh, in its environment, by an agent that is not revoked, with a sequence from 1 to the greatest
-- of 64 bits.
pub record Authentic (k : GatewayCrypto) (m : AgentMessage) (received_at sequence : ℕ)
    (db : GatewayDb) (a : GatewayAgentIdentity) : Type 0 where
  pub sender : KnownAs db m.agent_id a
  pub signed : verify_agent_message k m a.public_signing_key ≡ true
  pub own_key : m.key_id ≡ a.signing_key_id
  pub own_environment : a.environment_id ≡ m.environment_id
  pub not_revoked : a.status ≢ revoked
  pub from_agent : m.direction ≡ agent_to_control
  pub sent : ℕ
  pub sent_then : m.sent_at ≡ some sent
  pub not_old : received_at ≤ sent + message_freshness_ms
  pub not_early : sent ≤ received_at + message_freshness_ms
  pub positive : 0 < sequence
  pub bounded : sequence ≤ max_u64

decimal_from-le : (value : ℕ) (cs : List ℕ) → value ≤ decimal_from value cs
decimal_from-le value [] = omega arith
decimal_from-le value (c ∷ cs) = omega (arith, decimal_from-le (value * 10 + (c - 48)) cs)

sequence_in_bounds :
    (cs : List ℕ) (sequence : ℕ)
    → is_sequence cs ≡ true
    → ltb max_u64 (decimal_from 0 cs) ≡ false
    → sequence ≡ decimal_from 0 cs
    → (0 < sequence) × (sequence ≤ max_u64)
sequence_in_bounds [] sequence h le e = absurd (ground arith)
sequence_in_bounds (c ∷ cs) sequence h le e =
    let above = decimal_from-le (0 * 10 + (c - 48)) cs in (ground arith, ground arith)

sequence_bounds :
    (value : String) (sequence : ℕ)
    → parse_sequence value ≡ ok sequence
    → (0 < sequence) × (sequence ≤ max_u64)
unfolding parse_sequence
sequence_bounds value sequence h =
    sequence_in_bounds (char_codes value) sequence (ground arith) (ground arith) (ground arith)

check-parts :
    (k : GatewayCrypto) (m : AgentMessage) (received_at : ℕ) (db : GatewayDb)
    (input : ClaimAgentMessageInput) (a : GatewayAgentIdentity)
    → check_message k m received_at db ≡ ok (input, a)
    → (sequence : ℕ) × (parse_sequence m.sequence ≡ ok sequence)
      × (input ≡ claim_input m a sequence received_at)
      × Authentic k m received_at sequence db a
unfolding check_message
check-parts k m received_at db input a h = elim (Outcome-cases (parse_sequence m.sequence)) [
  | inr (e, bad) ↦ absurd (ground arith)
  | inl (sequence, good) ↦ elim (Option-cases (find_agent_identity k.key_id_for m.agent_id db)) [
    | inl absent ↦ absurd (ground arith)
    | inr (b, there) ↦ elim (Option-cases m.sent_at) [
      | inl never ↦ absurd (ground arith)
      | inr (sent, then_sent) ↦
          let one : a ≡ b = ground arith in
          let bounds = sequence_bounds m.sequence sequence good in
          (
            sequence,
            good,
            ground arith,
            record {
              sender = identity-KnownAs k.key_id_for m.agent_id db a (ground (arith, there, one));
              signed = rw one (ground arith);
              own_key = rw one (ground (arith, eq_iff m.key_id b.signing_key_id));
              own_environment = rw one (ground (arith, eq_iff b.environment_id m.environment_id));
              not_revoked = rw one (ground arith);
              from_agent = ground arith;
              sent = sent;
              sent_then = then_sent;
              not_old = ground arith;
              not_early = ground arith;
              positive = bounds.0;
              bounded = bounds.1;
            },
          )
    ]
  ]
]

-- An authentication that succeeds passed the checks, and its claim was accepted.
record Passed (k : GatewayCrypto) (m : AgentMessage) (received_at : ℕ) (db after : GatewayDb)
    (a : GatewayAgentIdentity) : Type 0 where
  input : ClaimAgentMessageInput
  checked : check_message k m received_at db ≡ ok (input, a)
  claimed : claim_agent_message input db ≡ (after, accepted)

accepted_claim :
    (a b : GatewayAgentIdentity) (answer : ClaimResult)
    → answer_claim a answer ≡ ok b
    → (answer ≡ accepted) × (a ≡ b)
accepted_claim a b answer h = ground arith

authenticate-Passed :
    (k : GatewayCrypto) (m : AgentMessage) (received_at : ℕ) (db after : GatewayDb)
    (a : GatewayAgentIdentity)
    → authenticate k m received_at db ≡ (after, ok a)
    → Passed k m received_at db after a
unfolding authenticate
authenticate-Passed k m received_at db after a h =
    elim (Outcome-cases (check_message k m received_at db)) [
      | inr (e, bad) ↦ absurd (ground arith)
      | inl ((input, b), good) ↦
          let answered =
            accepted_claim b a (claim_agent_message input db).1 (ground (arith, good)) in
          record {
            input = input;
            checked = ground (arith, good, answered.1);
            claimed = ground (arith, good, answered.0);
          }
    ]

reused :
    (first second : ClaimAgentMessageInput) (m again : AgentMessage) (a b : GatewayAgentIdentity)
    (n n' received_at later : ℕ)
    → first ≡ claim_input m a n received_at
    → second ≡ claim_input again b n' later
    → (again.message_id ≡ m.message_id) ⊎ (n' ≤ n)
    → (second.message_id ≡ first.message_id) ⊎ (second.sequence ≤ first.sequence)
reused first second m again a b n n' received_at later e f (inl id) = inl (ground (arith, e, f, id))
reused first second m again a b n n' received_at later e f (inr le) = inr (ground (arith, e, f, le))

-- A message that is authenticated is signed by the key that the database has for the agent that the
-- message names, sent within five minutes of its receipt, of the agent's environment and direction
-- and by an agent that is not revoked, with a sequence from 1 to the greatest number of 64 bits; and
-- after it no history of the repository's calls lets another message of the agent be authenticated
-- that has its id or a sequence that is not above its sequence.
pub authenticated_once :
    (k : GatewayCrypto) (m again : AgentMessage) (received_at later sequence next_sequence : ℕ)
    (db after : GatewayDb) (a b : GatewayAgentIdentity) (cs : List GatewayCall)
    → authenticate k m received_at db ≡ (after, ok a)
    → parse_sequence m.sequence ≡ ok sequence
    → parse_sequence again.sequence ≡ ok next_sequence
    → again.agent_id ≡ m.agent_id
    → (again.message_id ≡ m.message_id) ⊎ (next_sequence ≤ sequence)
    → Authentic k m received_at sequence db a
      × ((authenticate k again later (gateway_run cs after)).1 ≢ ok b)
authenticated_once k m again received_at later sequence next_sequence db after a b cs h p q same
      used =
    (
      let first = authenticate-Passed k m received_at db after a h in
          let c = check-parts k m received_at db first.input a first.checked in
          subst (λ n. Authentic k m received_at n db a) (ground (arith, c.1, p)) c.3,
      λ repeated.
          let first = authenticate-Passed k m received_at db after a h in
          let second =
            authenticate-Passed k again later (gateway_run cs after)
              (authenticate k again later (gateway_run cs after)).0 b
              (ap (λ o. ((authenticate k again later (gateway_run cs after)).0, o)) repeated) in
          let c = check-parts k m received_at db first.input a first.checked in
          let d = check-parts k again later (gateway_run cs after) second.input b second.checked in
          let n : c.0 ≡ sequence = ground (arith, c.1, p) in
          let n' : d.0 ≡ next_sequence = ground (arith, d.1, q) in
          accepted_once first.input db after cs second.input first.claimed
            (ground (arith, c.2, d.2, same))
            (reused first.input second.input m again a b c.0 d.0 received_at later c.2 d.2
              (rw (n, n') used))
            (ap (λ (x : GatewayDb × ClaimResult). x.1) second.claimed),
    )
