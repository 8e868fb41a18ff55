-- ===== src/Adapter/Resources.antt =====
-- The resources of an adapter and its handlers `erase` and `verify`, of
-- sdk/typescript/src/create-adapter.ts and contracts.ts. The database is that of the customer, and a
-- handler of a resource goes from it to the database behind it and to its result, or to none if it
-- throws.
use forget_ops.Gateway.Authenticate.{is_base64url_char}
use forget_ops.Prelude.{
  Bool, List, Option, Outcome, String, [], all, any, char_codes, err, false, if◌then◌else◌, insert,
  is_present, leb, length, lookup, nat_beq, nat_strict, none, not, ok, some, string_strict, ℕ, ◌&&◌,
  ◌==◌, ◌||◌, ◌∷◌,
}
use forget_ops.PrivacyRequest.Status.{status_strict}

pub data ConnectorCapability : Type 0 where
  discovers_data exports_data deletes_data anonymizes_data retains_data verifies_data :
      ConnectorCapability

abbrev pub capability_index : ConnectorCapability → ℕ
capability_index discovers_data = 0
capability_index exports_data = 1
capability_index deletes_data = 2
capability_index anonymizes_data = 3
capability_index retains_data = 4
capability_index verifies_data = 5

-- The actions that `EraseRequestSchema` lets through.
pub data EraseAction : Type 0 where
  delete_action anonymize_action retain_by_policy_action : EraseAction
  unsupported_action needs_review_action : EraseAction

pub data LifecycleOutcome : Type 0 where
  was_deleted was_anonymized was_retained was_unsupported was_left_for_review : LifecycleOutcome

pub record SubjectIdentity : Type 0 where
  pub user_id : Option String
  pub email : Option String

pub record EraseRequest : Type 0 where
  pub subject : SubjectIdentity
  pub resource : String
  pub operation_key : String
  pub action : EraseAction
  pub request_id : String
  pub attempt_id : String
  pub step_id : String
  pub idempotency_key : String
  pub dry_run : Bool

-- A count is none if it is no safe integer from zero on.
pub record EraseResult : Type 0 where
  pub operation_key : String
  pub affected_count : Option ℕ
  pub outcome : LifecycleOutcome
  pub reason : Option String

pub record VerifyRequest : Type 0 where
  pub subject : SubjectIdentity
  pub resource : String
  pub expected_state : LifecycleOutcome

pub record VerificationResult : Type 0 where
  pub satisfied : Bool
  pub remaining_count : Option ℕ
  pub reason : Option String

pub record ResourceDefinition (Db : Type 0) : Type 0 where
  pub name : String
  pub capabilities : List ConnectorCapability
  pub has_export : Bool
  pub erase_handler : Option (EraseRequest → Db → Db × Option EraseResult)
  pub verify_handler : Option (VerifyRequest → Db → Db × Option VerificationResult)

pub data ResourceError : Type 0 where
  resources_required resource_invalid : ResourceError
  erase_dry_run_forbidden erase_unavailable verify_unavailable handler_throws : ResourceError

-- `capabilities.includes(c)`
abbrev pub can_do : ConnectorCapability → List ConnectorCapability → Bool
can_do c = any (λ d. nat_beq (capability_index d) (capability_index c))

abbrev pub is_letter : ℕ → Bool
is_letter c = leb 65 c && leb c 90 || leb 97 c && leb c 122

-- `^[A-Za-z][A-Za-z0-9_-]{0,127}$`
abbrev pub is_resource_name : List ℕ → Bool
is_resource_name [] = false
is_resource_name (c ∷ cs) = is_letter c && all is_base64url_char cs && leb (length cs) 127

-- `requiredCapability`
abbrev pub required_capability : EraseAction → Option ConnectorCapability
required_capability retain_by_policy_action = some retains_data
required_capability delete_action = some deletes_data
required_capability anonymize_action = some anonymizes_data
required_capability _ = none

abbrev pub can_required : Option ConnectorCapability → List ConnectorCapability → Bool
can_required none capabilities = false
can_required (some c) capabilities = can_do c capabilities

-- The checks of a result.
abbrev pub erase_answer : EraseRequest → Option EraseResult → Outcome ResourceError EraseResult
erase_answer input none = err handler_throws
erase_answer input (some result) =
    if result.operation_key == input.operation_key && is_present result.affected_count
    then ok result
    else err handler_throws

abbrev pub verify_answer : Option VerificationResult → Outcome ResourceError VerificationResult
verify_answer none = err handler_throws
verify_answer (some result) =
    if is_present result.remaining_count then ok result else err handler_throws

module _ {Db : Type 0} where
  -- The test of one resource, given those before it.
  unfoldable pub is_valid_resource :
      ResourceDefinition Db → List (String × ResourceDefinition Db) → Bool
  is_valid_resource r resources =
      is_resource_name (char_codes r.name)
      && not (is_present (lookup r.name resources))
      && can_do discovers_data r.capabilities
      && not (
          (can_do deletes_data r.capabilities || can_do anonymizes_data r.capabilities)
          && (not (can_do verifies_data r.capabilities)
              || not (is_present r.erase_handler)
              || not (is_present r.verify_handler)))
      && not (can_do exports_data r.capabilities && not r.has_export)

  unfoldable pub validate_from :
      List (ResourceDefinition Db)
      → List (String × ResourceDefinition Db)
      → Outcome ResourceError (List (String × ResourceDefinition Db))
  unfolding is_valid_resource
  validate_from [] resources = ok resources
  validate_from (r ∷ definitions) resources =
      let rest = validate_from definitions (insert r.name r resources) in
      if is_valid_resource r resources then rest else err resource_invalid

  -- `validateResources`
  unfoldable pub validate_resources :
      List (ResourceDefinition Db) → Outcome ResourceError (List (String × ResourceDefinition Db))
  unfolding validate_from
  validate_resources definitions =
      if nat_beq (length definitions) 0
      then err resources_required
      else validate_from definitions []

  -- The handler of the resource, if the request may be served.
  unfoldable pub erase_handler_for :
      List (String × ResourceDefinition Db)
      → EraseRequest
      → Option (EraseRequest → Db → Db × Option EraseResult)
  erase_handler_for resources input = elim (lookup input.resource resources) [
    | none ↦ none
    | some r ↦
        if can_required (required_capability input.action) r.capabilities
          && can_do verifies_data r.capabilities
        then r.erase_handler
        else none
  ]

  -- `erase`
  unfoldable pub erase_resource :
      List (String × ResourceDefinition Db)
      → EraseRequest
      → Db
      → Db × Outcome ResourceError EraseResult
  unfolding erase_handler_for
  erase_resource resources input db =
      if input.dry_run
      then (db, err erase_dry_run_forbidden)
      else elim (erase_handler_for resources input) [
        | none ↦ (db, err erase_unavailable)
        | some handler ↦ ((handler input db).0, erase_answer input (handler input db).1)
      ]

  unfoldable pub verify_handler_for :
      List (String × ResourceDefinition Db)
      → VerifyRequest
      → Option (VerifyRequest → Db → Db × Option VerificationResult)
  verify_handler_for resources input = elim (lookup input.resource resources) [
    | none ↦ none
    | some r ↦ if can_do verifies_data r.capabilities then r.verify_handler else none
  ]

  -- `verify`
  unfoldable pub verify_resource :
      List (String × ResourceDefinition Db)
      → VerifyRequest
      → Db
      → Db × Outcome ResourceError VerificationResult
  unfolding verify_handler_for
  verify_resource resources input db = elim (verify_handler_for resources input) [
    | none ↦ (db, err verify_unavailable)
    | some handler ↦ ((handler input db).0, verify_answer (handler input db).1)
  ]
