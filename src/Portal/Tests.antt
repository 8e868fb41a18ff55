-- ===== src/Portal/Tests.antt =====
-- Runs of the magic link and the export services.
use forget_ops.Portal.Exports.{
  CreateCapabilityInput, ExportCapabilityProjection, capability_expired, create_capability,
  create_capability-get_capability, get_capability, new_capability,
}
use forget_ops.Portal.MagicLink.{
  MagicLinkChallenge, check_link, consume_link, finish_link, link_invalid, link_replayed,
}
use forget_ops.Portal.MagicLinkLaws.{consume_link_once}
use forget_ops.Prelude.{
  Bool, List, String, [], arith, eq_iff, err, if◌then◌else◌, insert, leb, lookup, nat_strict, none,
  ok, refl, some, string_strict, true, ℕ, ◌<◌, ◌==◌, ◌∷◌, ◌≡◌,
}
use forget_ops.PrivacyRequest.Status.{status_strict}

abbrev own_digest : String → String
own_digest value = value

abbrev challenge : MagicLinkChallenge
challenge = record {
  id = "challenge";
  project_id = "project";
  expires_at = 900;
  consumed_at = none;
  token_hash = "token";
}

abbrev challenges : List (String × MagicLinkChallenge)
challenges = ("challenge", challenge) ∷ []

abbrev consumed : List (String × MagicLinkChallenge)
consumed = ("challenge", record challenge { consumed_at = some 12 }) ∷ []

there : lookup "challenge" challenges ≡ some challenge
unfolding lookup
there = refl

run : consume_link own_digest "challenge" "token" true 10 12 challenges ≡ (consumed, ok "project")
unfolding consume_link check_link finish_link lookup insert
run = refl

consume_link_once_example :
    ((challenge.token_hash ≡ own_digest "token")
      × (10 < challenge.expires_at)
      × (challenge.consumed_at ≡ none)
      × (true ≡ true)
      × ("project" ≡ challenge.project_id))
    × ((again : String) (agreed : Bool) (later ended : ℕ)
        → consume_link own_digest "challenge" again agreed later ended consumed ≡ (
          consumed,
          err (if own_digest "token" == own_digest again then link_replayed else link_invalid),
        ))
consume_link_once_example =
    consume_link_once own_digest "challenge" "token" true 10 12 challenges consumed challenge
      "project" there run

abbrev export_input : CreateCapabilityInput
export_input = record {
  request_id = "request";
  object_key = "exports/request";
  download_url = "https://objects.example/request";
  encrypted_archive_key = "wrapped";
  archive_size_bytes = 2048;
  browser_key_id = "browser";
  key_wrap_version = 1;
  expires_at = 500;
}

abbrev capability : ExportCapabilityProjection
capability = new_capability own_digest export_input

abbrev capabilities : List (String × ExportCapabilityProjection)
capabilities = ("request", capability) ∷ []

capability_created :
    create_capability own_digest export_input 100 [] ≡ ok (capabilities, capability)
unfolding create_capability new_capability insert
capability_created = refl

create_capability-get_capability_example :
    (100 < capability.expires_at)
    × (get_capability "request" 499 capabilities
        ≡ (if leb capability.expires_at 499 then err capability_expired else ok capability))
    × (get_capability "other" 499 capabilities ≡ get_capability "other" 499 [])
create_capability-get_capability_example =
    create_capability-get_capability own_digest export_input 100 [] capabilities capability "other"
      499 capability_created (λ e. ground (arith, eq_iff "other" "request"))
