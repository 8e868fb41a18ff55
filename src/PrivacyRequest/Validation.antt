-- ===== src/PrivacyRequest/Validation.antt =====
-- `normalizeAllowedStepIds` and `normalizeAuditReason`. The functions that only copy and freeze
-- their argument (`normalizePlan`, `normalizeApproval`, `freezeAttempt`) are the identity here.
use forget_ops.Prelude.{
  Bool, List, String, [], all, any, char_codes, false, if◌then◌else◌, is_empty, leb, length,
  nat_beq, nat_strict, not, set_from, string_strict, ℕ, ◌&&◌, ◌==◌, ◌||◌, ◌∷◌,
}
use forget_ops.PrivacyRequest.Data.{audit_reason_invalid, range_error, step_scope_invalid}
use forget_ops.PrivacyRequest.Effect.{Result, err, ok}
use forget_ops.PrivacyRequest.Status.{status_strict}

unfoldable pub step_ids_invalid : List String → Bool
unfolding set_from
step_ids_invalid ids =
    nat_beq (length ids) 0
    || any is_empty ids
    || not (nat_beq (length (set_from [] ids)) (length ids))

unfoldable pub normalize_allowed_step_ids : List String → Result (List String)
normalize_allowed_step_ids ids =
    if step_ids_invalid ids then err (range_error step_scope_invalid) else ok ids

abbrev pub is_lower_alnum : ℕ → Bool
is_lower_alnum c = leb b'a' c && leb c b'z' || leb b'0' c && leb c b'9'

-- `[a-z0-9_:-]`
abbrev pub is_reason_char : ℕ → Bool
is_reason_char c = is_lower_alnum c || c == b'_' || c == b':' || c == b'-'

-- `/^[a-z0-9][a-z0-9_:-]{0,63}$/`
unfoldable pub matches_reason : List ℕ → Bool
matches_reason [] = false
matches_reason (c ∷ cs) = is_lower_alnum c && all is_reason_char cs && leb (length cs) 63

unfoldable pub normalize_audit_reason : String → Result String
unfolding matches_reason
normalize_audit_reason reason =
    if matches_reason (char_codes reason) then ok reason else err (range_error audit_reason_invalid)
