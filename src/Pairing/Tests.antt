-- ===== src/Pairing/Tests.antt =====
-- Runs of pairing: an agent is replaced by force.
use forget_ops.Pairing.Consume.{
  admit_agent, affected_requests, check_token, check_version, consume_and_pair, finish_pairing,
  force_out, new_agent, replace_active, replace_if_active, set_needs_review, without_agent,
}
use forget_ops.Pairing.Data.{
  AgentRecord, AgentRegistration, ConsumeAndPairInput, PairingTokenRecord, force, online, pairing,
  revoked, token_invalid,
}
use forget_ops.Pairing.Events.{PairingEvent, finishes, marks_attempt, pairing_run, revokes}
use forget_ops.Pairing.Laws.{paired_by_valid_token, token_serves_once}
use forget_ops.Pairing.Replacement.{Allowed, force_marks_and_erases, pairing_replaces_by_rules}
use forget_ops.Pairing.Store.{PairingStore, find_active, find_agent, revoke_in}
use forget_ops.Prelude.{
  List, Option, String, [], arith, contains, eq_iff, erase, err, insert, lookup, none, ok, refl,
  set_add, set_from, some, true, ℕ, ◌<◌, ◌∷◌, ◌≡◌,
}

abbrev registration : AgentRegistration
registration = record {
  pairing_token = "secret";
  environment_id = "env";
  public_signing_key = "new signing key";
  public_encryption_key = "new encryption key";
  signing_key_id = "s2";
  encryption_key_id = "e2";
  subject_hmac_key_version = 1;
  version = "1.0.0";
  protocol_version = "1";
  instance_fingerprint = "print";
  proof = "proof";
}

abbrev old_agent : AgentRecord
old_agent = record {
  id = "agt_1";
  environment_id = "env";
  public_signing_key = "old signing key";
  public_encryption_key = "old encryption key";
  signing_key_id = "s1";
  encryption_key_id = "e1";
  subject_hmac_key_version = 1;
  version = "1.0.0";
  protocol_version = "1";
  instance_fingerprint = "print";
  status = online;
  last_seen_at = some 5;
  last_sequence = "3";
  created_at = 1;
}

abbrev forced_token : PairingTokenRecord
forced_token = record {
  issued = record {
    id = "ptk_1";
    tenant_id = "tenant";
    environment_id = "env";
    token_hash = "hash";
    replacement_mode = force;
    allow_replacement = true;
    created_by_actor_id = "owner";
    created_at = 10;
    expires_at = 900010;
  };
  consumed_at = none;
}

abbrev hierarchy : String → String → Option ℕ
hierarchy tenant environment = some 1

abbrev store : PairingStore
store = record {
  tokens = ("hash", forced_token) ∷ [];
  agents = ("agt_1", old_agent) ∷ [];
  agent_tenants = ("agt_1", "tenant") ∷ [];
  subject_envelope_requests = ("env", "r1" ∷ []) ∷ [];
  running_attempt_requests = ("env", "r1" ∷ "r2" ∷ []) ∷ [];
  request_statuses = ("r2", "executing") ∷ [];
  pending_ciphertexts = ("job", ("agt_1", "secret")) ∷ [];
  hierarchy = some hierarchy;
}

abbrev input : ConsumeAndPairInput
input = record { token_hash = "hash"; registration = registration; now = 20 }

abbrev paired : AgentRecord
paired = new_agent "agt_2" forced_token input

abbrev after : PairingStore
after =
    admit_agent "agt_2" forced_token input
      (record (force_out "env" old_agent store) { agents = revoke_in old_agent store.agents })

finish : finish_pairing "agt_2" input forced_token store ≡ ok (after, paired)
unfolding finish_pairing check_version replace_if_active replace_active find_active force_out
    affected_requests set_from set_add lookup
finish = refl

-- Another call with the same token, whose check came before the first was finished.
abbrev second_input : ConsumeAndPairInput
second_input = record {
  token_hash = "hash";
  registration = record registration { public_signing_key = "third signing key" };
  now = 21;
}

abbrev second_after : PairingStore
second_after =
    admit_agent "agt_3" forced_token second_input
      (record (force_out "env" paired after) { agents = revoke_in paired after.agents })

first_check : check_token input store ≡ ok forced_token
unfolding check_token lookup
first_check = refl

second_check : check_token second_input store ≡ ok forced_token
unfolding check_token lookup
second_check = refl

-- It goes on after the first has finished, and succeeds too.
second_finish :
    finish_pairing "agt_3" second_input forced_token after
    ≡ ok (second_after, new_agent "agt_3" forced_token second_input)
unfolding finish_pairing check_version replace_if_active replace_active find_active force_out
    affected_requests set_from set_add lookup admit_agent revoke_in insert erase new_agent
    without_agent set_needs_review
second_finish = refl

run : consume_and_pair "agt_2" input store ≡ ok (after, paired)
unfolding consume_and_pair check_token finish_pairing check_version replace_if_active replace_active
    find_active force_out affected_requests set_from set_add lookup
run = refl

abbrev events : List PairingEvent
events =
    finishes "agt_3" second_input forced_token
    ∷ marks_attempt "env" "r3"
    ∷ revokes "tenant" "agt_2"
    ∷ []

token_serves_once_example :
    (check_token (record input { now = 22 }) (pairing_run events after) ≡ err token_invalid)
    × (consume_and_pair "agt_4" (record input { now = 22 }) (pairing_run events after)
        ≡ err token_invalid)
token_serves_once_example =
    token_serves_once "agt_2" input forced_token store after paired events "agt_4"
      (record input { now = 22 }) finish (tt, (tt, (tt, tt))) refl

found : lookup "hash" store.tokens ≡ some forced_token
unfolding lookup
found = refl

active : find_active "env" store.agents ≡ some old_agent
unfolding find_active
active = refl

paired_by_valid_token_example :
    (forced_token.consumed_at ≡ none)
    × (20 < 900010)
    × (forced_token.environment_id ≡ registration.environment_id)
    × (paired.environment_id ≡ forced_token.environment_id)
    × (paired.status ≡ pairing)
    × (find_agent "tenant" "agt_2" after ≡ some paired)
paired_by_valid_token_example =
    paired_by_valid_token "agt_2" input store after paired forced_token run found

pairing_replaces_by_rules_example :
    Allowed forced_token registration old_agent store
    × (lookup "agt_1" after.agents ≡ some (record old_agent { status = revoked }))
pairing_replaces_by_rules_example =
    pairing_replaces_by_rules "agt_2" input store after paired old_agent forced_token run found
      active (λ e. ground (arith, e, eq_iff "agt_2" "agt_1"))

is_affected : contains "r2" (affected_requests "env" store) ≡ true
unfolding affected_requests set_from set_add lookup
is_affected = refl

force_marks_and_erases_example :
    (lookup "r2" after.request_statuses ≡ some "needs_review")
    × (affected_requests "env" after ≡ [])
force_marks_and_erases_example =
    force_marks_and_erases "agt_2" input store after paired old_agent forced_token "r2" run found
      active refl is_affected
