-- ===== src/Portal/MagicLinkLaws.antt =====
-- A magic link serves its own token, once and in time.
use forget_ops.Portal.MagicLink.{MagicLinkChallenge, consume_link, link_invalid, link_replayed}
use forget_ops.Prelude.{
  Bool, List, String, ap, arith, eq_iff, eq_refl, err, if◌then◌else◌, insert, lookup, lookup-insert,
  nat_strict, none, ok, some, string_strict, true, ℕ, ◌<◌, ◌==◌, ◌≡◌,
}
use forget_ops.PrivacyRequest.Status.{status_strict}

-- A call that succeeds without another between its parts was made with the token that belongs to the
-- challenge, before the challenge's end and while it was not consumed, and the adapter agreed; after
-- it every call for the challenge fails: as replayed with a token of the same digest, as invalid
-- with any other.
pub consume_link_once :
    (digest : String → String) (challenge_id token : String) (verified : Bool) (now finished : ℕ)
    (challenges after : List (String × MagicLinkChallenge)) (challenge : MagicLinkChallenge)
    (project : String)
    → lookup challenge_id challenges ≡ some challenge
    → consume_link digest challenge_id token verified now finished challenges ≡ (after, ok project)
    → ((challenge.token_hash ≡ digest token)
        × (now < challenge.expires_at)
        × (challenge.consumed_at ≡ none)
        × (verified ≡ true)
        × (project ≡ challenge.project_id))
      × ((again : String) (agreed : Bool) (later ended : ℕ)
          → consume_link digest challenge_id again agreed later ended after
            ≡ (after, err (if digest token == digest again then link_replayed else link_invalid)))
unfolding consume_link
consume_link_once digest challenge_id token verified now finished challenges after challenge project
      there h =
    let hashes = eq_iff challenge.token_hash (digest token) in
    let marked : MagicLinkChallenge = record challenge { consumed_at = some finished } in
    let set : after ≡ insert challenge_id marked challenges = ground arith in
    let found : lookup challenge_id after ≡ some marked = ground (
      arith,
      set,
      lookup-insert challenge_id challenge_id marked challenges,
      eq_refl challenge_id,
    ) in
    let own : challenge.token_hash ≡ digest token = ground arith in
    (
      (own, ground arith, ground arith, ground arith, ground arith),
      λ again agreed later ended. ground (arith, found, ap (λ x. x == digest again) own),
    )
