-- ===== src/Subjects/Validation.antt =====
-- The checks of `SubjectEnvelopeService`, before it calls its repository. `JSON.parse` and the
-- reading of base64url are parameters.
use forget_ops.Gateway.Authenticate.{is_base64url}
use forget_ops.Prelude.{
  Bool, List, Option, Outcome, String, [], all, char_codes, contains, false, if◌then◌else◌, leb,
  length, ltb, nat_beq, nat_strict, none, not, ok, reject_if, require, same_codes, set_add, some,
  string_strict, text_append, true, ℕ, ◌&&◌, ◌*◌, ◌++◌, ◌+◌, ◌==◌, ◌>>=◌, ◌>>◌, ◌||◌, ◌∷◌,
}
use forget_ops.PrivacyRequest.Status.{status_strict}
use forget_ops.Subjects.Data.{
  BindSubjectInput, DuplicateOverride, StoreSubjectEnvelopeInput, SubjectAliasBinding, SubjectError,
  alias_canonicalization_version_invalid, alias_duplicate, alias_key_version_invalid,
  alias_kind_invalid, alias_limit_exceeded, alias_must_be_explicit, alias_version_mismatch,
  canonicalization_version_invalid, ciphertext_required, envelope_expired, envelope_format_invalid,
  envelope_too_large, hash_key_version_invalid, key_id_required, override_invalid,
  request_version_invalid, subject_hash_invalid, subject_scope_required,
}

-- A field of a parsed object: the number one, a text, or any other value.
pub data EnvelopeField : Type 0 where
  one : EnvelopeField
  string : String → EnvelopeField
  other_field : EnvelopeField

-- A parsed value: an object, with its keys in the order of `sort`, or something else.
pub data ParsedEnvelope : Type 0 where
  parsed_object : (sorted_keys : List String) (field : String → EnvelopeField) → ParsedEnvelope
  parsed_other : ParsedEnvelope

-- What `trim` takes away.
abbrev pub is_space : ℕ → Bool
is_space c =
    leb 9 c && leb c 13
    || nat_beq c 32
    || nat_beq c 160
    || nat_beq c 5760
    || leb 8192 c && leb c 8202
    || leb 8232 c && leb c 8233
    || nat_beq c 8239
    || nat_beq c 8287
    || nat_beq c 12288
    || nat_beq c 65279

-- `!value.trim()`
abbrev pub is_blank : String → Bool
is_blank value = all is_space (char_codes value)

-- `value.length`, in units of 16 bits.
abbrev pub utf16_length : List ℕ → ℕ
utf16_length [] = 0
utf16_length (c ∷ cs) = (if ltb c 65536 then 1 else 2) + utf16_length cs

abbrev pub is_lower_hex : ℕ → Bool
is_lower_hex c = leb 48 c && leb c 57 || leb 97 c && leb c 102

-- `^prefix[0-9a-f]{64}$`
abbrev pub is_prefixed_digest : List ℕ → List ℕ → Bool
is_prefixed_digest [] cs = all is_lower_hex cs && nat_beq (length cs) 64
is_prefixed_digest (p ∷ ps) [] = false
is_prefixed_digest (p ∷ ps) (c ∷ cs) = nat_beq p c && is_prefixed_digest ps cs

abbrev pub is_subject_hash : String → Bool
is_subject_hash value = is_prefixed_digest (char_codes "hmac-sha256:") (char_codes value)

abbrev pub is_encryption_key_id : String → Bool
is_encryption_key_id value = is_prefixed_digest (char_codes "x25519:sha256:") (char_codes value)

unfoldable pub validate_scope : String → String → String → Outcome SubjectError (Unit {0})
validate_scope tenant environment request =
    reject_if (is_blank tenant || is_blank environment || is_blank request) subject_scope_required

unfoldable pub validate_subject_hash : String → Outcome SubjectError (Unit {0})
validate_subject_hash value = reject_if (not (is_subject_hash value)) subject_hash_invalid

abbrev pub validate_positive : ℕ → SubjectError → Outcome SubjectError (Unit {0})
validate_positive value code = reject_if (nat_beq value 0) code

-- `keys.join("\0")`
abbrev pub joined : List String → List ℕ
joined [] = []
joined (k ∷ []) = char_codes k
joined (k ∷ l ∷ ks) = char_codes k ++ 0 ∷ joined (l ∷ ks)

abbrev pub expected_keys : List String
expected_keys =
    "algorithm" ∷ "ciphertext" ∷ "encryptionKeyId" ∷ "environmentId" ∷ "ephemeralPublicKey" ∷ "iv"
    ∷ "requestId" ∷ "salt" ∷ "version" ∷ []

abbrev pub is_one : EnvelopeField → Bool
is_one one = true
is_one _ = false

abbrev pub is_string : EnvelopeField → String → Bool
is_string (string value) expected = value == expected
is_string _ expected = false

-- `isBase64UrlBytes`, with a test of the number of bytes.
abbrev pub is_base64url_bytes : (String → List ℕ) → (ℕ → Bool) → EnvelopeField → Bool
is_base64url_bytes decode fits (string value) =
    is_base64url (char_codes value) && fits (length (decode value))
is_base64url_bytes decode fits _ = false

abbrev pub is_envelope : (String → List ℕ) → StoreSubjectEnvelopeInput → ParsedEnvelope → Bool
is_envelope decode input parsed_other = false
is_envelope decode input (parsed_object keys field) =
    same_codes (joined keys) (joined expected_keys)
    && is_one (field "version")
    && is_string (field "algorithm") "X25519-HKDF-SHA256-AES-256-GCM"
    && is_string (field "environmentId") input.environment_id
    && is_string (field "requestId") input.request_id
    && is_string (field "encryptionKeyId") input.encryption_key_id
    && is_base64url_bytes decode (nat_beq 32) (field "ephemeralPublicKey")
    && is_base64url_bytes decode (nat_beq 32) (field "salt")
    && is_base64url_bytes decode (nat_beq 12) (field "iv")
    && is_base64url_bytes decode (leb 16) (field "ciphertext")

unfoldable pub validate_serialized_envelope :
    (String → Option ParsedEnvelope)
    → (String → List ℕ)
    → StoreSubjectEnvelopeInput
    → Outcome SubjectError (Unit {0})
validate_serialized_envelope parse_json decode input = do
  value ← require (parse_json input.ciphertext) envelope_format_invalid
  reject_if (not (is_envelope decode input value)) envelope_format_invalid

-- The checks of `storeEnvelope`: the date at which the envelope expires, if all is well.
unfoldable pub check_envelope :
    (String → Option ParsedEnvelope)
    → (String → List ℕ)
    → StoreSubjectEnvelopeInput
    → ℕ
    → Outcome SubjectError ℕ
unfolding validate_scope validate_serialized_envelope
check_envelope parse_json decode input now = do
  validate_scope input.tenant_id input.environment_id input.request_id
  reject_if (is_blank input.ciphertext) ciphertext_required
  reject_if (ltb (1024 * 1024) (utf16_length (char_codes input.ciphertext))) envelope_too_large
  reject_if (not (is_encryption_key_id input.encryption_key_id)) key_id_required
  expires_at ← require input.expires_at envelope_expired
  reject_if (leb expires_at now) envelope_expired
  validate_serialized_envelope parse_json decode input
  ok expires_at

abbrev pub alias_key : SubjectAliasBinding → String
alias_key alias = text_append alias.identifier_kind (text_append ":" alias.subject_hash)

-- The checks of one alias, given the keys of those before it.
unfoldable pub validate_alias :
    BindSubjectInput → List String → SubjectAliasBinding → Outcome SubjectError (Unit {0})
unfolding validate_subject_hash
validate_alias input seen alias = do
  reject_if (not (alias.identifier_kind == "email")) alias_kind_invalid
  reject_if (alias.subject_hash == input.subject_hash) alias_must_be_explicit
  validate_subject_hash alias.subject_hash
  validate_positive alias.subject_hash_key_version alias_key_version_invalid
  validate_positive alias.canonicalization_version alias_canonicalization_version_invalid
  reject_if
      (not (nat_beq alias.subject_hash_key_version input.subject_hash_key_version)
        || not (nat_beq alias.canonicalization_version input.canonicalization_version))
      alias_version_mismatch
  reject_if (contains (alias_key alias) seen) alias_duplicate

unfoldable pub validate_aliases_from :
    BindSubjectInput → List String → List SubjectAliasBinding → Outcome SubjectError (Unit {0})
unfolding validate_alias
validate_aliases_from input seen [] = ok tt
validate_aliases_from input seen (alias ∷ aliases) =
    let rest = validate_aliases_from input (set_add seen (alias_key alias)) aliases in
    validate_alias input seen alias >>= λ done. rest

unfoldable pub validate_aliases : BindSubjectInput → Outcome SubjectError (Unit {0})
unfolding validate_aliases_from
validate_aliases input = do
  reject_if (ltb 8 (length input.aliases)) alias_limit_exceeded
  validate_aliases_from input [] input.aliases

abbrev pub override_blank : Option DuplicateOverride → Bool
override_blank none = false
override_blank (some o) = is_blank o.owner_actor_id || is_blank o.reason

-- The checks of `bindSubject`.
unfoldable pub check_binding : BindSubjectInput → Outcome SubjectError (Unit {0})
unfolding validate_scope validate_subject_hash validate_aliases
check_binding input = do
  validate_scope input.tenant_id input.environment_id input.request_id
  validate_subject_hash input.subject_hash
  validate_positive input.subject_hash_key_version hash_key_version_invalid
  validate_positive input.canonicalization_version canonicalization_version_invalid
  reject_if (nat_beq input.expected_version 0) request_version_invalid
  validate_aliases input
  reject_if (override_blank input.duplicate_override) override_invalid
