-- ===== src/Adapter/Erasure.antt =====
-- Which requests to erase reach a resource, and that what they erase can be verified.
use forget_ops.Adapter.Resources.{
  EraseAction, EraseRequest, EraseResult, ResourceDefinition, VerificationResult, VerifyRequest,
  anonymize_action, anonymizes_data, can_do, can_required, delete_action, deletes_data,
  erase_answer, erase_resource, required_capability, verifies_data, verify_answer, verify_resource,
}
use forget_ops.Prelude.{
  Bool, List, Option, String, false, is_present, lookup, nat_strict, none, not, some, string_strict,
  true, ◌&&◌, ◌||◌, ◌≡◌,
}
use forget_ops.PrivacyRequest.Status.{status_strict}

abbrev pub erases_data : EraseAction → Bool
erases_data delete_action = true
erases_data anonymize_action = true
erases_data _ = false

module _ {Db : Type 0} where
  -- The declared resource is consistent: what it may delete or anonymize it erases and verifies.
  abbrev pub IsConsistent : ResourceDefinition Db → Type 0
  IsConsistent r =
      (can_do deletes_data r.capabilities || can_do anonymizes_data r.capabilities) ≡ true
      → (can_do verifies_data r.capabilities ≡ true)
        × (is_present r.erase_handler ≡ true)
        × (is_present r.verify_handler ≡ true)

  abbrev pub AllConsistent : List (String × ResourceDefinition Db) → Type 0
  AllConsistent resources =
      (name : String) (r : ResourceDefinition Db) → lookup name resources ≡ some r → IsConsistent r

  -- The resource declares what the action needs, and it is no dry run.
  abbrev pub may_erase : List (String × ResourceDefinition Db) → EraseRequest → Bool
  may_erase resources input = not input.dry_run && elim (lookup input.resource resources) [
    | none ↦ false
    | some r ↦ can_required (required_capability input.action) r.capabilities
  ]

  -- The handlers of a resource that erases.
  pub record Handled (resources : List (String × ResourceDefinition Db)) (input : EraseRequest)
      (db : Db) : Type 0 where
    pub eraser : EraseRequest → Db → Db × Option EraseResult
    pub verifier : VerifyRequest → Db → Db × Option VerificationResult
    pub erased :
        erase_resource resources input db
        ≡ ((eraser input db).0, erase_answer input (eraser input db).1)
    pub verified :
        (request : VerifyRequest) (later : Db)
        → request.resource ≡ input.resource
        → verify_resource resources request later
          ≡ ((verifier request later).0, verify_answer (verifier request later).1)
