-- ===== src/Portal/MagicLink.antt =====
-- `MagicLinkService`: apps/api/src/modules/identity-verification/magic-link-service.ts. The adapter's
-- answers, the digest, the building of the URL and the random texts are parameters; a date that is
-- written by `toISOString` and read back is its milliseconds.
use forget_ops.Prelude.{
  Bool, List, Option, Outcome, String, err, get_or, if◌then◌else◌, insert, is_present, leb, lookup,
  ltb, nat_beq, nat_strict, none, not, ok, reject_if, require, some, string_strict, ℕ, ◌*◌, ◌+◌,
  ◌==◌, ◌>>=◌, ◌>>◌, ◌||◌,
}
use forget_ops.PrivacyRequest.Status.{status_strict}

pub record MagicLinkChallenge : Type 0 where
  pub id : String
  pub project_id : String
  pub expires_at : ℕ
  pub consumed_at : Option ℕ
  pub token_hash : String

-- `url_invalid` is the error of `new URL`, `sending_failed` that of the adapter.
pub data MagicLinkError : Type 0 where
  link_invalid link_expired link_replayed url_invalid sending_failed : MagicLinkError

pub record CreateLinkInput : Type 0 where
  pub project_id : String
  pub portal_base_url : String
  pub ttl_ms : Option ℕ

pub record CreatedLink : Type 0 where
  pub challenge_id : String
  pub token : String
  pub challenge_url : String

abbrev pub default_link_ttl_ms : ℕ
default_link_ttl_ms = 15 * 60 * 1000

abbrev pub max_link_ttl_ms : ℕ
max_link_ttl_ms = 30 * 60 * 1000

-- The link to send, given the random id and token, or the error that keeps it from being made.
unfoldable pub new_link :
    (String → String → String → Option String)
    → CreateLinkInput
    → String
    → String
    → Outcome MagicLinkError CreatedLink
new_link url_of input challenge_id token = do
  let ttl = get_or input.ttl_ms default_link_ttl_ms
  reject_if (nat_beq ttl 0 || ltb max_link_ttl_ms ttl) link_invalid
  challenge_url ← require (url_of challenge_id token input.portal_base_url) url_invalid
  ok (record { challenge_id = challenge_id; token = token; challenge_url = challenge_url })

unfoldable pub new_challenge :
    (String → String) → CreateLinkInput → CreatedLink → ℕ → MagicLinkChallenge
new_challenge digest input link now = record {
  id = link.challenge_id;
  project_id = input.project_id;
  expires_at = now + get_or input.ttl_ms default_link_ttl_ms;
  consumed_at = none;
  token_hash = digest link.token;
}

-- The challenge is kept also if the adapter fails to send the link.
unfoldable pub create_link :
    (String → String → String → Option String)
    → (String → String)
    → CreateLinkInput
    → String
    → String
    → Bool
    → ℕ
    → List (String × MagicLinkChallenge)
    → List (String × MagicLinkChallenge) × Outcome MagicLinkError CreatedLink
unfolding new_link new_challenge
create_link url_of digest input challenge_id token sent now challenges =
    elim (new_link url_of input challenge_id token) [
      | err e ↦ (challenges, err e)
      | ok link ↦ (
        insert challenge_id (new_challenge digest input link now) challenges,
        if sent then ok link else err sending_failed,
      )
    ]

-- `consume` up to where it waits for the adapter.
unfoldable pub check_link :
    (String → String)
    → String
    → String
    → ℕ
    → List (String × MagicLinkChallenge)
    → Outcome MagicLinkError MagicLinkChallenge
check_link digest challenge_id token now challenges = do
  challenge ← require (lookup challenge_id challenges) link_invalid
  reject_if (not (challenge.token_hash == digest token)) link_invalid
  reject_if (is_present challenge.consumed_at) link_replayed
  reject_if (leb challenge.expires_at now) link_expired
  ok challenge

-- The rest of it: the challenge object, which the map still holds, is marked.
unfoldable pub finish_link :
    String
    → MagicLinkChallenge
    → Bool
    → ℕ
    → List (String × MagicLinkChallenge)
    → List (String × MagicLinkChallenge) × Outcome MagicLinkError String
finish_link challenge_id challenge verified now challenges =
    if verified
    then (
      insert challenge_id (record challenge { consumed_at = some now }) challenges,
      ok challenge.project_id,
    )
    else (challenges, err link_invalid)

-- A call with none other between its two parts.
unfoldable pub consume_link :
    (String → String)
    → String
    → String
    → Bool
    → ℕ
    → ℕ
    → List (String × MagicLinkChallenge)
    → List (String × MagicLinkChallenge) × Outcome MagicLinkError String
unfolding check_link finish_link
consume_link digest challenge_id token verified now finished challenges =
    elim (check_link digest challenge_id token now challenges) [
      | err e ↦ (challenges, err e)
      | ok challenge ↦ finish_link challenge_id challenge verified finished challenges
    ]
