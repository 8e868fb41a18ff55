-- ===== src/PrivacyRequest/Status.antt =====
-- status.ts, and the table `transitions` of privacy-request.ts.
use forget_ops.Prelude.{
  Bool, List, Strict, [], any, arith, nat_beq, nat_strict, string_strict, true, ℕ, ◌==◌, ◌↔◌, ◌∷◌,
  ◌≡◌,
}

pub data Status : Type 0 where
  created identity_verification_pending identity_verified planning : Status
  awaiting_approval execution_authorized executing needs_review : Status
  completed partially_completed failed cancelled : Status

-- The place of a status in `privacyRequestStatuses`.
abbrev pub index : Status → ℕ
index created = 0
index identity_verification_pending = 1
index identity_verified = 2
index planning = 3
index awaiting_approval = 4
index execution_authorized = 5
index executing = 6
index needs_review = 7
index completed = 8
index partially_completed = 9
index failed = 10
index cancelled = 11

pub Status-discrete : Discrete Status
Status-discrete = hlevel

abbrev pub status_beq : Status → Status → Bool
status_beq s t = nat_beq (index s) (index t)

pub status_beq_iff : (s t : Status) → (status_beq s t ≡ true) ↔ (s ≡ t)
status_beq_iff s t = ground arith

instance abbrev pub status_strict : Strict Status
status_strict = record { same = status_beq; same_lem = status_beq_iff }

unfoldable pub transitions : Status → List Status
transitions created = identity_verification_pending ∷ identity_verified ∷ cancelled ∷ []
transitions identity_verification_pending = identity_verified ∷ failed ∷ cancelled ∷ []
transitions identity_verified = planning ∷ cancelled ∷ []
transitions planning = awaiting_approval ∷ execution_authorized ∷ failed ∷ cancelled ∷ []
transitions awaiting_approval = execution_authorized ∷ planning ∷ cancelled ∷ []
transitions execution_authorized = executing ∷ awaiting_approval ∷ cancelled ∷ []
transitions executing = completed ∷ partially_completed ∷ failed ∷ needs_review ∷ []
transitions completed = []
transitions partially_completed = planning ∷ execution_authorized ∷ needs_review ∷ completed ∷ []
transitions failed = planning ∷ execution_authorized ∷ needs_review ∷ cancelled ∷ []
transitions needs_review =
    planning ∷ execution_authorized ∷ partially_completed ∷ completed ∷ cancelled ∷ []
transitions cancelled = []

-- `transitions[status].includes(next)`
unfoldable pub can_transition : Status → Status → Bool
unfolding transitions
can_transition s next = any (λ t. t == next) (transitions s)
