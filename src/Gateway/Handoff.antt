-- ===== src/Gateway/Handoff.antt =====
-- An agent has one session: the last that was claimed.
use forget_ops.Gateway.Authenticate.{AgentMessage, auth_replay_detected}
use forget_ops.Gateway.Calls.{
  GatewayCall, beats, claims, closes, enqueues, gateway_call, gateway_run, leases, numbers, opens,
}
use forget_ops.Gateway.Data.{AgentTransportInput, GatewayAgentIdentity, GatewayDb, TransportSession}
use forget_ops.Gateway.Jobs.{enqueue, heartbeat, lease, poll}
use forget_ops.Gateway.Messages.{claim_agent_message, next_control_sequence, store_receipt}
use forget_ops.Gateway.Polling.{
  RouteInput, enter, job_lookup, parsed_for_poll, poll_route, polling_input, refused,
}
use forget_ops.Gateway.Transports.{
  claim_transport, is_transport_active, release_transport, session_of,
}
use forget_ops.Prelude.{
  All, Bool, List, Option, Option-cases, String, [], ap, arith, eq_iff, err, false, inl, inr,
  lookup, lookup-erase, lookup-insert, none, ok, refl, some, subst, suc, sym, true, ℕ, ◌++◌, ◌∙◌,
  ◌∷◌, ◌≡◌, ◌≢◌,
}

-- The agent's session, if it has one, has not this id.
abbrev NotSession : String → String → GatewayDb → Type 0
NotSession id session db =
    (s : TransportSession) → lookup id db.sessions ≡ some s → s.session_id ≢ session

-- The call does not claim this session of the agent.
abbrev pub KeepsOff : String → String → GatewayCall → Type 0
KeepsOff id session (opens input) = (input.agent_id ≡ id) → input.session_id ≢ session
KeepsOff id session c = Unit

open-NotSession :
    (input : AgentTransportInput) (id session : String) (db : GatewayDb)
    → ((input.agent_id ≡ id) → input.session_id ≢ session)
    → NotSession id session db
    → NotSession id session (claim_transport input db).0
unfolding claim_transport
open-NotSession input id session db off h s found = ground (
  arith,
  h s,
  eq_iff input.agent_id id,
  off,
  lookup-insert input.agent_id id (session_of input (lookup input.agent_id db.sessions))
      db.sessions,
)

close-NotSession :
    (input : AgentTransportInput) (id session : String) (db : GatewayDb)
    → NotSession id session db
    → NotSession id session (release_transport input db)
unfolding release_transport
close-NotSession input id session db h s found =
    ground (arith, h s, lookup-erase input.agent_id id db.sessions)

call-NotSession :
    (c : GatewayCall) (id session : String) (db : GatewayDb)
    → KeepsOff id session c
    → NotSession id session db
    → NotSession id session (gateway_call c db)
unfolding claim_agent_message store_receipt next_control_sequence enqueue lease heartbeat
call-NotSession (opens input) id session db off h = open-NotSession input id session db off h
call-NotSession (closes input) id session db off h = close-NotSession input id session db h
call-NotSession (claims input) id session db off h = λ s found. h s (ground arith)
call-NotSession (numbers tenant agent_id) id session db off h = λ s found. h s (ground arith)
call-NotSession (enqueues input now) id session db off h = λ s found. h s (ground arith)
call-NotSession (leases input) id session db off h = λ s found. h s (ground arith)
call-NotSession (beats input) id session db off h = λ s found. h s (ground arith)

run-NotSession :
    (cs : List GatewayCall) (id session : String) (db : GatewayDb)
    → All (KeepsOff id session) cs
    → NotSession id session db
    → NotSession id session (gateway_run cs db)
run-NotSession [] id session db off h = h
run-NotSession (c ∷ cs) id session db off h =
    run-NotSession cs id session (gateway_call c db) off.1 (call-NotSession c id session db off.0 h)

inactive :
    (input : AgentTransportInput) (db : GatewayDb)
    → NotSession input.agent_id input.session_id db
    → is_transport_active input db ≡ false
unfolding is_transport_active
inactive input db h = elim (Option-cases (lookup input.agent_id db.sessions)) [
  | inl absent ↦ ground arith
  | inr (s, there) ↦ ground (arith, h s there, eq_iff s.session_id input.session_id)
]

-- The session that is active is the one that the row holds.
active-NotSession :
    (input : AgentTransportInput) (session : String) (db : GatewayDb)
    → is_transport_active input db ≡ true
    → input.session_id ≢ session
    → NotSession input.agent_id session db
unfolding is_transport_active
active-NotSession input session db h differ s found =
    ground (arith, eq_iff s.session_id input.session_id)

gateway_run-append :
    (cs ds : List GatewayCall) (db : GatewayDb)
    → gateway_run (cs ++ ds) db ≡ gateway_run ds (gateway_run cs db)
gateway_run-append [] ds db = refl
gateway_run-append (c ∷ cs) ds db = gateway_run-append cs ds (gateway_call c db)

-- After another session of the agent was claimed and is active, a session that is not claimed again
-- is never active.
handed_off :
    (input other : AgentTransportInput) (cs ds : List GatewayCall) (db : GatewayDb)
    → other.agent_id ≡ input.agent_id
    → other.session_id ≢ input.session_id
    → is_transport_active other (gateway_run (cs ++ opens other ∷ []) db) ≡ true
    → All (KeepsOff input.agent_id input.session_id) ds
    → is_transport_active input (gateway_run (cs ++ opens other ∷ ds) db) ≡ false
handed_off input other cs ds db same differ granted off =
    let mid = gateway_run (cs ++ opens other ∷ []) db in
    let out : NotSession input.agent_id input.session_id mid =
      subst (λ id. NotSession id input.session_id mid) same
        (active-NotSession other input.session_id mid granted differ) in
    let split : gateway_run (cs ++ opens other ∷ ds) db ≡ gateway_run ds mid =
      gateway_run-append cs (opens other ∷ ds) db
      ∙ ap (gateway_run ds) (sym (gateway_run-append cs (opens other ∷ []) db)) in
    rw split (
      inactive input (gateway_run ds mid)
        (run-NotSession ds input.agent_id input.session_id mid off out))

-- A long poll that found no job fails as a replay, with no job offered, if during its wait another
-- session of the agent was claimed and became active, and its own session was not claimed again.
pub poll_superseded :
    (collate : String → String → Bool) (input : RouteInput) (parsed : Option AgentMessage)
    (m : AgentMessage) (wait again_at : ℕ) (db entered : GatewayDb) (a : GatewayAgentIdentity)
    (other : AgentTransportInput) (cs ds : List GatewayCall)
    → parsed_for_poll parsed ≡ ok (m, suc wait)
    → enter input m db ≡ (entered, ok a)
    → poll collate (job_lookup a input.looked_at) entered ≡ none
    → other.agent_id ≡ a.agent_id
    → other.session_id ≢ m.message_id
    → is_transport_active other (gateway_run (cs ++ opens other ∷ []) entered) ≡ true
    → All (KeepsOff a.agent_id m.message_id) ds
    → poll_route collate input parsed (cs ++ opens other ∷ ds) again_at db
      ≡ (gateway_run (cs ++ opens other ∷ ds) entered, err (refused auth_replay_detected))
unfolding poll_route
poll_superseded collate input parsed m wait again_at db entered a other cs ds p e none_found same
      differ granted off =
    let gone =
      handed_off (polling_input a m.message_id again_at) other cs ds entered same differ granted
        off in
    ground (arith, p, e, none_found, gone)
