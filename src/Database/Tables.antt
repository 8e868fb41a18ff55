-- ===== src/Database/Tables.antt =====
-- The tables that the repositories write, as lists of rows by their primary key. A timestamp that
-- is compared is its milliseconds, one that is only written is its text.
use forget_ops.Audit.Chain.{AuditEvent, CanonicalAuditEvent}
use forget_ops.Prelude.{
  Bool, List, Option, String, if◌then◌else◌, ltb, nat_beq, suc, text_append, zero, ℕ, ◌%◌, ◌/◌,
}
use forget_ops.PrivacyRequest.Data.{EventValue, ExecutionAttempt, RequestSource, RequestType}
use forget_ops.PrivacyRequest.Status.{Status}

pub record EnvironmentRow : Type 0 where
  pub tenant_id : String
  pub subject_hash_key_version : ℕ
  pub subject_canonicalization_version : ℕ

-- A row of `privacy_requests`.
pub record RequestRow : Type 0 where
  pub tenant_id : String
  pub environment_id : String
  pub request_type : RequestType
  pub source : RequestSource
  pub subject_hash : Option String
  pub subject_hash_key_version : Option ℕ
  pub subject_canonicalization_version : Option ℕ
  pub duplicate_override : Bool
  pub duplicate_of_request_id : Option String
  pub status : Status
  pub policy_version : ℕ
  pub deadline_at : String
  pub created_by_actor_id : String
  pub created_at : ℕ
  pub completed_at : Option ℕ
  pub current_attempt_id : Option String
  pub version : ℕ

-- A row of `execution_attempts`.
pub record AttemptRow : Type 0 where
  pub tenant_id : String
  pub environment_id : String
  pub attempt : ExecutionAttempt

-- A row of `audit_chain_heads`.
pub record AuditHead : Type 0 where
  pub tenant_id : String
  pub sequence : ℕ
  pub event_hash : Option String

abbrev pub Metadata : Type 0
Metadata = List (String × EventValue)

-- A row of `outbox_events`.
pub record OutboxRow : Type 0 where
  pub id : String
  pub tenant_id : String
  pub environment_id : String
  pub aggregate_id : String
  pub event_type : String
  pub payload : Metadata
  pub occurred_at : String
  pub published_at : Option String

-- Audit events and outbox rows stand in the order in which they were written.
pub record Tables : Type 0 where
  pub environments : List (String × EnvironmentRow)
  pub requests : List (String × RequestRow)
  pub attempts : List (String × AttemptRow)
  pub heads : List (String × AuditHead)
  pub events : List (CanonicalAuditEvent Metadata)
  pub outbox : List OutboxRow

-- The audit chain of an environment: the code's `canonicalize` as bytes, the reading of hexadecimal
-- and SHA-256.
pub record ChainCrypto : Type 0 where
  pub canonicalize : AuditEvent Metadata → Option (List ℕ)
  pub hex_bytes : String → List ℕ
  pub sha256_hex : List ℕ → String

abbrev pub digit_text : ℕ → String
digit_text n =
    if nat_beq n 0
    then "0"
    else if nat_beq n 1
    then "1"
    else if nat_beq n 2
    then "2"
    else if nat_beq n 3
    then "3"
    else if nat_beq n 4
    then "4"
    else if nat_beq n 5
    then "5"
    else if nat_beq n 6
    then "6"
    else if nat_beq n 7
    then "7"
    else if nat_beq n 8
    then "8"
    else "9"

-- The decimal digits of a number before a text; fuel above the number is more than its digits.
unfoldable pub digits : ℕ → ℕ → String → String
digits zero n rest = rest
digits (suc fuel) n rest =
    let here = text_append (digit_text (n % 10)) rest in
    let more = digits fuel (n / 10) here in if ltb n 10 then here else more

-- `BigInt.toString`
unfoldable pub decimal : ℕ → String
unfolding digits
decimal n = digits (suc n) n ""
