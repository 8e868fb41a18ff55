-- ===== src/Portal/Exports.antt =====
-- `ExportCapabilityService`: apps/api/src/modules/exports/export-capability-service.ts. SHA-256 is a
-- parameter; a date that is written by `toISOString` and read back is its milliseconds.
use forget_ops.Prelude.{
  Bool, List, Option, Outcome, String, arith, eq_iff, eq_refl, err, if◌then◌else◌, insert, is_empty,
  leb, lookup, lookup-insert, nat_beq, not, ok, reject_if, require, some, text_append, ℕ, ◌<◌,
  ◌>>=◌, ◌>>◌, ◌||◌, ◌≡◌, ◌≢◌,
}

pub record ExportCapabilityProjection : Type 0 where
  pub request_id : String
  pub object_key_hash : String
  pub download_url : String
  pub expires_at : ℕ
  pub encrypted_archive_key : String
  pub archive_size_bytes : ℕ
  pub browser_key_id : Option String
  pub key_wrap_version : ℕ

pub data ExportCapabilityError : Type 0 where
  capability_not_found capability_expired export_key_invalid : ExportCapabilityError

pub record CreateCapabilityInput : Type 0 where
  pub request_id : String
  pub object_key : String
  pub download_url : String
  pub encrypted_archive_key : String
  pub archive_size_bytes : ℕ
  pub browser_key_id : String
  pub key_wrap_version : ℕ
  pub expires_at : ℕ

unfoldable pub new_capability :
    (String → String) → CreateCapabilityInput → ExportCapabilityProjection
new_capability sha256_hex input = record {
  request_id = input.request_id;
  object_key_hash = text_append "sha256:" (sha256_hex input.object_key);
  download_url = input.download_url;
  expires_at = input.expires_at;
  encrypted_archive_key = input.encrypted_archive_key;
  archive_size_bytes = input.archive_size_bytes;
  browser_key_id = some input.browser_key_id;
  key_wrap_version = input.key_wrap_version;
}

abbrev pub capability_invalid : CreateCapabilityInput → ℕ → Bool
capability_invalid input now =
    is_empty input.encrypted_archive_key
    || is_empty input.browser_key_id
    || not (nat_beq input.key_wrap_version 1)
    || leb input.expires_at now

unfoldable pub create_capability :
    (String → String)
    → CreateCapabilityInput
    → ℕ
    → List (String × ExportCapabilityProjection)
    → Outcome ExportCapabilityError
        (List (String × ExportCapabilityProjection) × ExportCapabilityProjection)
unfolding new_capability
create_capability sha256_hex input now capabilities = do
  reject_if (capability_invalid input now) export_key_invalid
  let capability = new_capability sha256_hex input
  ok (insert input.request_id capability capabilities, capability)

-- `get`, by `requireActive`.
unfoldable pub get_capability :
    String
    → ℕ
    → List (String × ExportCapabilityProjection)
    → Outcome ExportCapabilityError ExportCapabilityProjection
get_capability request now capabilities = do
  capability ← require (lookup request capabilities) capability_not_found
  reject_if (leb capability.expires_at now) capability_expired
  ok capability

-- A capability that is created serves its request up to the date it expires at, which lies behind
-- the date of its creation, and from then on the request is refused as expired; what another request
-- gets is as it was.
pub create_capability-get_capability :
    (sha256_hex : String → String) (input : CreateCapabilityInput) (now : ℕ)
    (capabilities after : List (String × ExportCapabilityProjection))
    (capability : ExportCapabilityProjection) (other : String) (later : ℕ)
    → create_capability sha256_hex input now capabilities ≡ ok (after, capability)
    → other ≢ input.request_id
    → (now < capability.expires_at)
      × (get_capability input.request_id later after
          ≡ (if leb capability.expires_at later then err capability_expired else ok capability))
      × (get_capability other later after ≡ get_capability other later capabilities)
unfolding create_capability get_capability
create_capability-get_capability sha256_hex input now capabilities after capability other later h
      differ =
    (
      ground arith,
      ground (
        arith,
        lookup-insert input.request_id input.request_id capability capabilities,
        eq_refl input.request_id,
      ),
      ground (
        arith,
        lookup-insert input.request_id other capability capabilities,
        eq_iff input.request_id other,
      ),
    )
