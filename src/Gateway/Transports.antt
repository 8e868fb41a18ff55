-- ===== src/Gateway/Transports.antt =====
-- `claimTransport`, `isTransportActive` and `releaseTransport`. The trigger that checks the scope
-- of a session on the way in finds nothing to refuse, since the agent was read by that scope.
use forget_ops.Gateway.Data.{
  AgentTransport, AgentTransportInput, GatewayDb, TransportSession, is_revoked_status, polling,
  visible_agent, websocket,
}
use forget_ops.Prelude.{
  Bool, Option, String, erase, false, if◌then◌else◌, insert, lookup, nat_strict, none, not, some,
  string_strict, true, ℕ, ◌&&◌, ◌==◌, ◌||◌,
}
use forget_ops.PrivacyRequest.Status.{status_strict}

-- The row level security of `agent_transport_sessions`.
abbrev pub visible_session : String → String → GatewayDb → Option TransportSession
visible_session tenant agent db = elim (lookup agent db.sessions) [
  | none ↦ none
  | some s ↦ if s.tenant_id == tenant then some s else none
]

abbrev pub start_of : Option TransportSession → ℕ → ℕ
start_of none now = now
start_of (some s) now = s.started_at

-- The row after `insert … on conflict do update`, which leaves the start of a session as it was.
abbrev pub session_of : AgentTransportInput → Option TransportSession → TransportSession
session_of input current = record {
  tenant_id = input.tenant_id;
  environment_id = input.environment_id;
  transport = input.transport;
  session_id = input.session_id;
  started_at = start_of current input.now;
  last_seen_at = input.now;
}

abbrev pub session_id_of : Option TransportSession → Option String
session_id_of none = none
session_id_of (some s) = some s.session_id

-- The session that was there before, if the claim is granted.
unfoldable pub claim_transport : AgentTransportInput → GatewayDb → GatewayDb × Option String
claim_transport input db = elim (visible_agent input.tenant_id input.agent_id db) [
  | none ↦ (db, none)
  | some a ↦
      if not (a.environment_id == input.environment_id) || is_revoked_status a.status
      then (db, none)
      else (
        record db {
          sessions =
              insert input.agent_id (session_of input (lookup input.agent_id db.sessions))
                db.sessions;
        },
        session_id_of (visible_session input.tenant_id input.agent_id db),
      )
]

abbrev pub same_transport : AgentTransport → AgentTransport → Bool
same_transport websocket websocket = true
same_transport polling polling = true
same_transport _ _ = false

abbrev pub is_session_of : AgentTransportInput → TransportSession → Bool
is_session_of input s =
    s.tenant_id == input.tenant_id
    && s.environment_id == input.environment_id
    && same_transport s.transport input.transport
    && s.session_id == input.session_id

unfoldable pub is_transport_active : AgentTransportInput → GatewayDb → Bool
is_transport_active input db = elim (lookup input.agent_id db.sessions) [
  | none ↦ false
  | some s ↦ is_session_of input s
]

unfoldable pub release_transport : AgentTransportInput → GatewayDb → GatewayDb
unfolding is_transport_active
release_transport input db =
    if is_transport_active input db
    then record db { sessions = erase input.agent_id db.sessions }
    else db
