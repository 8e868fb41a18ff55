-- ===== src/PrivacyRequest/StepScopes.antt =====
-- Which step scopes `normalizeAllowedStepIds` accepts, by a description that uses no set.
use forget_ops.Prelude.{
  Bool-cases, Distinct, Distinct-of_set_size, List, String, [], any, ap, arith, false, inl, inr,
  is_empty, length, refl, set_size_of_Distinct, ◌∷◌, ◌≡◌, ◌≢◌, ◌⊎◌,
}
use forget_ops.PrivacyRequest.Data.{range_error, step_scope_invalid}
use forget_ops.PrivacyRequest.Effect.{err, ok}
use forget_ops.PrivacyRequest.Validation.{normalize_allowed_step_ids, step_ids_invalid}

-- There is a step, no step is empty, and no step is named twice.
pub record IsScope (step_ids : List String) : Type 0 where
  pub some_step : step_ids ≢ []
  pub no_empty : any is_empty step_ids ≡ false
  pub distinct : Distinct step_ids

pub IsScope-of_valid : (xs : List String) → step_ids_invalid xs ≡ false → IsScope xs
unfolding step_ids_invalid
IsScope-of_valid xs h = record {
  some_step = λ e. ground (arith, ap length e);
  no_empty = ground arith;
  distinct = Distinct-of_set_size xs (ground arith);
}

valid_of_IsScope : (xs : List String) → IsScope xs → step_ids_invalid xs ≡ false
unfolding step_ids_invalid
valid_of_IsScope [] s = absurd (s.some_step refl)
valid_of_IsScope (x ∷ xs) s = ground (arith, set_size_of_Distinct (x ∷ xs) s.distinct)

-- A step scope is accepted, as it is, exactly when it names a step, no empty one, and none twice;
-- any other is refused with the scope error.
pub normalize_allowed_step_ids_lem :
    (xs : List String)
    → ((normalize_allowed_step_ids xs ≡ ok xs) × IsScope xs)
      ⊎ ((normalize_allowed_step_ids xs ≡ err (range_error step_scope_invalid)) × (¬ IsScope xs))
unfolding normalize_allowed_step_ids
normalize_allowed_step_ids_lem xs = elim (Bool-cases (step_ids_invalid xs)) [
  | inl bad ↦ inr (rw bad refl, λ s. cc (valid_of_IsScope xs s, bad))
  | inr good ↦ inl (rw good refl, IsScope-of_valid xs good)
]
