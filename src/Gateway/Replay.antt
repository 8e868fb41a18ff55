-- ===== src/Gateway/Replay.antt =====
-- A message of an agent is accepted once: neither its id nor its sequence is taken again.
use forget_ops.Gateway.Calls.{
  GatewayCall, beats, claims, closes, enqueues, gateway_call, gateway_run, leases, numbered,
  numbers, opens,
}
use forget_ops.Gateway.Data.{
  ClaimAgentMessageInput, ClaimResult, GatewayAgent, GatewayDb, MessageReceipt, accepted,
  is_available_status, visible_agent,
}
use forget_ops.Gateway.Jobs.{enqueue, heartbeat, lease}
use forget_ops.Gateway.Messages.{
  claim_agent_message, claim_answer, is_receipt_of, next_control_sequence, receipt_of,
  store_if_accepted, store_receipt,
}
use forget_ops.Gateway.Transports.{claim_transport, release_transport}
use forget_ops.Prelude.{
  Bool, Bool-cases, List, Option-cases, String, [], any, ap, arith, eq_iff, eq_refl, false, inl,
  inr, insert, lookup, lookup-insert, nat_strict, refl, some, string_strict, subst, sym, true, ℕ,
  ◌&&◌, ◌+◌, ◌<◌, ◌==◌, ◌∙◌, ◌∷◌, ◌≡◌, ◌≢◌, ◌≤◌, ◌⊎◌,
}
use forget_ops.PrivacyRequest.Status.{status_strict}

abbrev has_receipt : String → String → List MessageReceipt → Bool
has_receipt id message = any λ (r : MessageReceipt). r.agent_id == id && r.message_id == message

-- The agent is there, and has got as far as the sequence.
abbrev SeenUpTo : String → ℕ → GatewayDb → Type 0
SeenUpTo id sequence db =
    (a : GatewayAgent) × (lookup id db.agents ≡ some a) × (sequence ≤ a.last_sequence)

-- What a call may do to the agents: nothing, or write one that has got no less far.
abbrev AgentsGrow : GatewayDb → GatewayDb → Type 0
AgentsGrow db after =
    (after.agents ≡ db.agents)
    ⊎ ((id : String) × (b : GatewayAgent) × (after.agents ≡ insert id b db.agents)
        × ((a : GatewayAgent) → lookup id db.agents ≡ some a → a.last_sequence ≤ b.last_sequence))

AgentsGrow-SeenUpTo :
    (id : String) (sequence : ℕ) (db after : GatewayDb)
    → AgentsGrow db after
    → SeenUpTo id sequence db
    → SeenUpTo id sequence after
AgentsGrow-SeenUpTo id sequence db after (inl same) (a, there, le) = (a, rw same there, le)
AgentsGrow-SeenUpTo id sequence db after (inr (other, b, set, grows)) (a, there, le) =
    elim (Bool-cases (other == id)) [
      | inl same ↦ (
        b,
        rw (set, lookup-insert other id b db.agents, same) refl,
        omega (
          arith,
          le,
          grows a (subst (λ i. lookup i db.agents ≡ some a) (sym ((eq_iff other id).0 same)) there),
        ),
      )
      | inr differ ↦ (a, rw (set, lookup-insert other id b db.agents, differ) there, le)
    ]

-- What a call may do to the receipts: nothing, or add one.
abbrev ReceiptsGrow : GatewayDb → GatewayDb → Type 0
ReceiptsGrow db after =
    (after.receipts ≡ db.receipts) ⊎ ((r : MessageReceipt) × (after.receipts ≡ r ∷ db.receipts))

ReceiptsGrow-has_receipt :
    (id message : String) (db after : GatewayDb)
    → ReceiptsGrow db after
    → has_receipt id message db.receipts ≡ true
    → has_receipt id message after.receipts ≡ true
ReceiptsGrow-has_receipt id message db after (inl same) h = rw same h
ReceiptsGrow-has_receipt id message db after (inr (r, more)) h = rw more (ground arith)

visible-lookup :
    (tenant id : String) (db : GatewayDb) (a : GatewayAgent)
    → visible_agent tenant id db ≡ some a
    → lookup id db.agents ≡ some a
unfolding visible_agent
visible-lookup tenant id db a h = ground arith

abbrev is_accepted : ClaimResult → Bool
is_accepted accepted = true
is_accepted _ = false

accepted_answer : (answer : ClaimResult) → is_accepted answer ≡ true → answer ≡ accepted
accepted_answer answer h = ground arith

kept_answer :
    (answer : ClaimResult) (input : ClaimAgentMessageInput) (a : GatewayAgent) (db : GatewayDb)
    → is_accepted answer ≡ false
    → store_if_accepted answer input a db ≡ db
kept_answer answer input a db h = ground arith

accepted-lt :
    (input : ClaimAgentMessageInput) (a : GatewayAgent) (db : GatewayDb)
    → is_accepted (claim_answer input a db) ≡ true
    → a.last_sequence < input.sequence
unfolding claim_answer
accepted-lt input a db h = ground arith

accepted_unreceipted :
    (input : ClaimAgentMessageInput) (a : GatewayAgent) (db : GatewayDb)
    → is_accepted (claim_answer input a db) ≡ true
    → any (is_receipt_of input) db.receipts ≡ false
unfolding claim_answer
accepted_unreceipted input a db h = ground arith

-- A claim changes nothing, or it is accepted: then the sequence is a new one, and there is no
-- receipt of it.
claim-cases :
    (input : ClaimAgentMessageInput) (db : GatewayDb)
    → (((claim_agent_message input db).0 ≡ db) × ((claim_agent_message input db).1 ≢ accepted))
      ⊎ ((a : GatewayAgent) × (lookup input.agent_id db.agents ≡ some a)
          × (a.last_sequence < input.sequence)
          × (any (is_receipt_of input) db.receipts ≡ false)
          × (claim_agent_message input db ≡ (store_receipt input a db, accepted)))
unfolding claim_agent_message
claim-cases input db = elim (Option-cases (visible_agent input.tenant_id input.agent_id db)) [
  | inl absent ↦ inl (ground arith, ground arith)
  | inr (a, there) ↦ elim (Bool-cases (is_accepted (claim_answer input a db))) [
    | inl accepts ↦ inr (
      a,
      visible-lookup input.tenant_id input.agent_id db a there,
      accepted-lt input a db accepts,
      accepted_unreceipted input a db accepts,
      ground (arith, there, accepted_answer (claim_answer input a db) accepts),
    )
    | inr refuses ↦ inl (
      ground (arith, there, kept_answer (claim_answer input a db) input a db refuses),
      ground (arith, there, refuses),
    )
  ]
]

claim-Grows :
    (input : ClaimAgentMessageInput) (db : GatewayDb)
    → AgentsGrow db (claim_agent_message input db).0
      × ReceiptsGrow db (claim_agent_message input db).0
unfolding store_receipt
claim-Grows input db = elim (claim-cases input db) [
  | inl (same, other) ↦
      (inl (ap (λ (d : GatewayDb). d.agents) same), inl (ap (λ (d : GatewayDb). d.receipts) same))
  | inr (a, there, lt, fresh, done) ↦ (
    inr (
      input.agent_id,
      record a { last_sequence = input.sequence; last_seen_at = some input.received_at },
      ap (λ (d : GatewayDb × ClaimResult). d.0.agents) done,
      λ b found. ground arith,
    ),
    inr (receipt_of input, ap (λ (d : GatewayDb × ClaimResult). d.0.receipts) done),
  )
]

number-Grows :
    (tenant id : String) (db : GatewayDb)
    → AgentsGrow db (numbered db (next_control_sequence tenant id db))
unfolding next_control_sequence
number-Grows tenant id db = elim (Option-cases (visible_agent tenant id db)) [
  | inl absent ↦ inl (ground arith)
  | inr (a, there) ↦ elim (Bool-cases (is_available_status a.status)) [
    | inr off ↦ inl (ground arith)
    | inl on ↦ inr (
      id,
      record a { last_control_sequence = a.last_control_sequence + 1 },
      ground arith,
      λ b found. ground (arith, visible-lookup tenant id db a there),
    )
  ]
]

-- The calls that are no claims add no receipts, and but for the numbering write no agent.
call-Grows :
    (c : GatewayCall) (db : GatewayDb)
    → AgentsGrow db (gateway_call c db) × ReceiptsGrow db (gateway_call c db)
unfolding claim_transport release_transport next_control_sequence enqueue lease heartbeat
call-Grows (claims input) db = claim-Grows input db
call-Grows (opens input) db = (inl (ground arith), inl (ground arith))
call-Grows (closes input) db = (inl (ground arith), inl (ground arith))
call-Grows (numbers tenant id) db = (number-Grows tenant id db, inl (ground arith))
call-Grows (enqueues input now) db = (inl (ground arith), inl (ground arith))
call-Grows (leases input) db = (inl (ground arith), inl (ground arith))
call-Grows (beats input) db = (inl (ground arith), inl (ground arith))

-- The message was taken: its receipt is there, and the agent has got as far.
record Taken (id message : String) (sequence : ℕ) (db : GatewayDb) : Type 0 where
  receipt : has_receipt id message db.receipts ≡ true
  seen : SeenUpTo id sequence db

run-Taken :
    (cs : List GatewayCall) (id message : String) (sequence : ℕ) (db : GatewayDb)
    → Taken id message sequence db
    → Taken id message sequence (gateway_run cs db)
run-Taken [] id message sequence db t = t
run-Taken (c ∷ cs) id message sequence db t =
    let g = call-Grows c db in
    run-Taken cs id message sequence (gateway_call c db) (record {
      receipt = ReceiptsGrow-has_receipt id message db (gateway_call c db) g.1 t.receipt;
      seen = AgentsGrow-SeenUpTo id sequence db (gateway_call c db) g.0 t.seen;
    })

claim-Taken :
    (input : ClaimAgentMessageInput) (db after : GatewayDb)
    → claim_agent_message input db ≡ (after, accepted)
    → Taken input.agent_id input.message_id input.sequence after
unfolding store_receipt
claim-Taken input db after h = elim (claim-cases input db) [
  | inl (same, other) ↦ absurd (other (ap (λ (d : GatewayDb × ClaimResult). d.1) h))
  | inr (a, there, lt, fresh, done) ↦
      let stored : after ≡ store_receipt input a db =
        ap (λ (d : GatewayDb × ClaimResult). d.0) (sym h ∙ done) in
      record {
        receipt = rw stored (ground (arith, eq_refl input.agent_id, eq_refl input.message_id));
        seen = (
          record a { last_sequence = input.sequence; last_seen_at = some input.received_at },
          rw stored (
              ground (
                arith,
                lookup-insert input.agent_id input.agent_id
                    (record a {
                      last_sequence = input.sequence;
                      last_seen_at = some input.received_at;
                    })
                    db.agents,
                eq_refl input.agent_id,
              )),
          omega arith,
        );
      }
]

receipt_found :
    (again : ClaimAgentMessageInput) (rs : List MessageReceipt)
    → has_receipt again.agent_id again.message_id rs ≡ true
    → any (is_receipt_of again) rs ≡ true
receipt_found again [] h = h
receipt_found again (r ∷ rs) h = ground (arith, receipt_found again rs)

-- Once a message of an agent was accepted, no history of calls lets another be accepted that has its
-- id, or a sequence that is not above its sequence.
pub accepted_once :
    (input : ClaimAgentMessageInput) (db after : GatewayDb) (cs : List GatewayCall)
    (again : ClaimAgentMessageInput)
    → claim_agent_message input db ≡ (after, accepted)
    → again.agent_id ≡ input.agent_id
    → (again.message_id ≡ input.message_id) ⊎ (again.sequence ≤ input.sequence)
    → (claim_agent_message again (gateway_run cs after)).1 ≢ accepted
accepted_once input db after cs again h same used again_accepted =
    let t =
      run-Taken cs input.agent_id input.message_id input.sequence after
        (claim-Taken input db after h) in
    elim (claim-cases again (gateway_run cs after)) [
      | inl (kept, refused) ↦ refused again_accepted
      | inr (a, there, lt, fresh, done) ↦ elim used [
        | inl message ↦ ground (
          arith,
          receipt_found again (gateway_run cs after).receipts,
          subst (λ id. has_receipt id again.message_id (gateway_run cs after).receipts ≡ true)
              (sym same)
              (subst (λ m. has_receipt input.agent_id m (gateway_run cs after).receipts ≡ true)
                (sym message) t.receipt),
        )
        | inr le ↦
            let found : lookup again.agent_id (gateway_run cs after).agents ≡ some t.seen.0 =
              subst (λ id. lookup id (gateway_run cs after).agents ≡ some t.seen.0) (sym same)
                t.seen.1 in
            let one : a.last_sequence ≡ t.seen.0.last_sequence = ground (arith, found, there) in
            omega (arith, one, t.seen.2)
      ]
    ]
