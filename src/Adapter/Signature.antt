-- ===== src/Adapter/Signature.antt =====
-- `verifyAdapterSignature` of sdk/typescript/src/signature.ts. The canonical bytes of an envelope, the
-- digests, base64url, `toUpperCase` and `Date.parse` are parameters.
use forget_ops.Gateway.Authenticate.{is_base64url, is_base64url_char, is_digit}
use forget_ops.Prelude.{
  Bool, List, Option, String, [], all, char_codes, false, if◌then◌else◌, leb, length, nat_beq,
  nat_strict, none, not, same_codes, some, string_strict, text_append, ℕ, ◌&&◌, ◌++◌, ◌+◌, ◌-◌,
  ◌==◌, ◌||◌, ◌∷◌,
}
use forget_ops.PrivacyRequest.Status.{status_strict}

abbrev pub adapter_acceptance_window_ms : ℕ
adapter_acceptance_window_ms = 60000

-- What `signatureMaterial` gives to `canonicalize`, but for its constant fields.
pub record SignatureEnvelope : Type 0 where
  pub body_digest : String
  pub content_type : String
  pub method : String
  pub nonce : String
  pub path : String
  pub timestamp : String

pub record AdapterSignatureInput : Type 0 where
  pub secret : List ℕ
  pub method : String
  pub normalized_path : String
  pub timestamp : String
  pub nonce : String
  pub content_type : String
  pub body : List ℕ
  pub signature : String
  pub now_ms : ℕ

pub record AdapterCrypto : Type 0 where
  pub canonicalize_envelope : SignatureEnvelope → Option (List ℕ)
  pub sha256_text : List ℕ → String
  pub hmac_sha256 : List ℕ → List ℕ → List ℕ
  pub decode_base64 : String → List ℕ
  pub encode_base64 : List ℕ → String
  pub to_upper_case : String → String
  pub parse_date : String → Option ℕ

-- A shape of text in which `d` stands for a digit; what is left behind it.
abbrev pub after_shape : List ℕ → List ℕ → Option (List ℕ)
after_shape [] cs = some cs
after_shape (p ∷ ps) [] = none
after_shape (p ∷ ps) (c ∷ cs) =
    let rest = after_shape ps cs in
    if (if nat_beq p 100 then is_digit c else nat_beq c p) then rest else none

-- Behind the point: one to nine digits and `Z`.
abbrev pub is_fraction : ℕ → List ℕ → Bool
is_fraction n [] = false
is_fraction n (c ∷ cs) =
    let rest = is_fraction (n + 1) cs in
    if nat_beq c 90 then leb 1 n && leb n 9 && nat_beq (length cs) 0 else is_digit c && rest

abbrev pub is_zone : Option (List ℕ) → Bool
is_zone none = false
is_zone (some []) = false
is_zone (some (c ∷ cs)) = nat_beq c 90 && nat_beq (length cs) 0 || nat_beq c 46 && is_fraction 0 cs

-- `RFC3339_UTC`
unfoldable pub is_rfc3339_utc : String → Bool
is_rfc3339_utc value = is_zone (after_shape (char_codes "dddd-dd-ddTdd:dd:dd") (char_codes value))

unfoldable pub is_nonce : String → Bool
is_nonce value =
    all is_base64url_char (char_codes value)
    && leb 16 (length (char_codes value))
    && leb (length (char_codes value)) 128

abbrev pub starts_with_slash : List ℕ → Bool
starts_with_slash [] = false
starts_with_slash (c ∷ cs) = nat_beq c 47

-- The checks of the form.
unfoldable pub is_well_formed : AdapterCrypto → AdapterSignatureInput → Bool
unfolding is_rfc3339_utc is_nonce
is_well_formed k input =
    leb 32 (length input.secret)
    && input.method == k.to_upper_case input.method
    && starts_with_slash (char_codes input.normalized_path)
    && is_rfc3339_utc input.timestamp
    && is_nonce input.nonce

-- The distance of the date from now is in the window.
abbrev pub in_window : Option ℕ → ℕ → Bool
in_window none now = false
in_window (some sent) now =
    leb (now - sent) adapter_acceptance_window_ms && leb (sent - now) adapter_acceptance_window_ms

-- `signatureMaterial`
unfoldable pub signature_material : AdapterCrypto → AdapterSignatureInput → Option (List ℕ)
signature_material k input =
    elim (k.canonicalize_envelope (record {
      body_digest = text_append "sha256:" (k.sha256_text input.body);
      content_type = input.content_type;
      method = input.method;
      nonce = input.nonce;
      path = input.normalized_path;
      timestamp = input.timestamp;
    })) [
      | none ↦ none
      | some canonical ↦ some (char_codes "forgetops.adapter-request.v1" ++ 0 ∷ canonical)
    ]

-- `decodeBase64Url`
unfoldable pub decode_signature : AdapterCrypto → String → Option (List ℕ)
decode_signature k value =
    if is_base64url (char_codes value) && k.encode_base64 (k.decode_base64 value) == value
    then some (k.decode_base64 value)
    else none

abbrev pub is_expected_mac : Option (List ℕ) → List ℕ → Bool
is_expected_mac none expected = false
is_expected_mac (some received) expected = same_codes expected received

-- The answer, or none if the material cannot be made, which throws.
unfoldable pub verify_adapter_signature : AdapterCrypto → AdapterSignatureInput → Option Bool
unfolding is_well_formed signature_material decode_signature
verify_adapter_signature k input =
    if not (is_well_formed k input && in_window (k.parse_date input.timestamp) input.now_ms)
    then some false
    else elim (signature_material k input) [
      | none ↦ none
      | some material ↦ some (
          is_expected_mac (decode_signature k input.signature)
            (k.hmac_sha256 input.secret material))
    ]
