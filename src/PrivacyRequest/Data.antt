-- ===== src/PrivacyRequest/Data.antt =====
-- The types of privacy-request.ts and errors.ts.
use forget_ops.Prelude.{Bool, List, Option, String, ℕ}
use forget_ops.PrivacyRequest.Status.{Status}

pub data RequestType : Type 0 where
  delete export : RequestType

pub data RequestSource : Type 0 where
  admin privacy_portal api : RequestSource

abbrev pub type_name : RequestType → String
type_name delete = "delete"
type_name export = "export"

abbrev pub source_name : RequestSource → String
source_name admin = "admin"
source_name privacy_portal = "privacy_portal"
source_name api = "api"

-- A value in the payload of an event.
pub data EventValue : Type 0 where
  text : String → EventValue
  number : ℕ → EventValue
  flag : Bool → EventValue
  null : EventValue
  texts : List String → EventValue

pub record DomainEvent : Type 0 where
  pub type : String
  pub payload : List (String × EventValue)

pub record PlanBinding : Type 0 where
  pub plan_id : String
  pub plan_version : ℕ
  pub plan_fingerprint : String

pub record AttachedPlan : Type 0 where
  pub binding : PlanBinding
  pub open binding use *
  pub requires_approval : Bool

pub record PlanApproval : Type 0 where
  pub binding : PlanBinding
  pub open binding use *
  pub decided_by : String

pub record ExecutionAuthorization : Type 0 where
  pub binding : PlanBinding
  pub open binding use *
  pub agent_id : String
  pub attempt_id : String
  pub allowed_step_ids : List String

pub data AttemptStatus : Type 0 where
  planned awaiting_approval authorized running succeeded : AttemptStatus
  partially_succeeded failed needs_review cancelled : AttemptStatus

pub data AttemptKind : Type 0 where
  initial retry : AttemptKind

pub record ExecutionAttempt : Type 0 where
  pub id : String
  pub request_id : String
  pub attempt_number : ℕ
  pub kind : AttemptKind
  pub binding : PlanBinding
  pub open binding use *
  pub allowed_step_ids : List String
  pub status : AttemptStatus
  pub created_at : String
  pub completed_at : Option String

pub record CreatePrivacyRequest : Type 0 where
  pub id : String
  pub environment_id : String
  pub request_type : RequestType
  pub source : RequestSource
  pub policy_version : ℕ
  pub created_by_actor_id : String
  pub deadline_at : String

pub record PrivacyRequestSnapshot : Type 0 where
  pub input : CreatePrivacyRequest
  pub open input use *
  pub status : Status
  pub version : ℕ
  pub current_attempt_id : Option String
  pub plan : Option AttachedPlan
  pub approval : Option PlanApproval

-- The codes of the `RangeError`s that the aggregate throws.
pub data RangeCode : Type 0 where
  step_scope_invalid audit_reason_invalid request_version_mismatch : RangeCode
  attempt_id_invalid attempt_not_found invalid_committed_event_count : RangeCode

pub data Error : Type 0 where
  state_conflict : Status → Status → Error
  plan_version_mismatch : Error
  range_error : RangeCode → Error
