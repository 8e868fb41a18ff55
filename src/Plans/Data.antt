-- ===== src/Plans/Data.antt =====
-- The types of plan-service.ts. The estimated count of a step is a number of JavaScript, of which
-- only the integers from zero on are told apart; any other is `none`. Versions and times are natural
-- numbers, and a date that is written by `toISOString` and read back is its milliseconds.
use forget_ops.Prelude.{Bool, List, Option, String, ℕ}

pub data PlanRisk : Type 0 where
  low medium high : PlanRisk

pub data PlanAction : Type 0 where
  discover export erase_data verify : PlanAction

pub record PlanStep : Type 0 where
  pub id : String
  pub connector : String
  pub resource : String
  pub action : PlanAction
  pub estimated_count : Option ℕ
  pub risk : PlanRisk
  pub dependencies : List String

pub data PlanStatus : Type 0 where
  draft awaiting_approval approved expired : PlanStatus

pub record PlanProjection : Type 0 where
  pub id : String
  pub request_id : String
  pub version : ℕ
  pub fingerprint : String
  pub connector_configuration_fingerprint : String
  pub steps : List PlanStep
  pub requires_approval : Bool
  pub status : PlanStatus
  pub created_at : ℕ
  pub expires_at : ℕ

pub record CreatePlanInput : Type 0 where
  pub id : String
  pub request_id : String
  pub version : ℕ
  pub connector_configuration_fingerprint : String
  pub steps : List PlanStep
  pub requires_approval : Option Bool
  pub ttl_ms : Option ℕ

-- What the fingerprint is taken of.
pub record NormalizedPlan : Type 0 where
  pub connector_configuration_fingerprint : String
  pub steps : List PlanStep

pub data PlanError : Type 0 where
  plan_invalid plan_version_mismatch plan_not_found plan_expired : PlanError
