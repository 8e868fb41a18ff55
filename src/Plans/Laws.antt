-- ===== src/Plans/Laws.antt =====
-- Through every history of calls the version of a request's plan never falls, so that a version is
-- never served twice.
use forget_ops.Plans.Data.{
  CreatePlanInput, NormalizedPlan, PlanError, PlanProjection, approved, expired,
  plan_version_mismatch,
}
use forget_ops.Plans.Service.{
  create_plan, expire_plan, get_plan, is_expired, mark_approved, new_plan, select_steps,
}
use forget_ops.Prelude.{
  Bool-cases, List, Option, Option-cases, Outcome, Outcome-cases, String, [], ap, arith, eq_iff,
  eq_refl, err, inl, inr, insert, leb, lookup, lookup-insert, nat_beq, nat_strict, not, ok, refl,
  some, string_strict, subst, sym, ℕ, ◌&&◌, ◌==◌, ◌∙◌, ◌∷◌, ◌≡◌, ◌≤◌, ◌⊎◌,
}
use forget_ops.PrivacyRequest.Status.{status_strict}

pub data PlanCall : Type 0 where
  creates : CreatePlanInput → ℕ → PlanCall
  gets : String → ℕ → PlanCall
  approves : String → ℕ → ℕ → PlanCall
  selects : String → List String → ℕ → PlanCall

abbrev pub kept_if_failed :
    List (String × PlanProjection)
    → Outcome PlanError (List (String × PlanProjection) × PlanProjection)
    → List (String × PlanProjection)
kept_if_failed plans (ok (after, plan)) = after
kept_if_failed plans (err e) = plans

module _ (canonicalize : NormalizedPlan → Option String) (sha256_hex : String → String) where
  abbrev pub plan_call : PlanCall → List (String × PlanProjection) → List (String × PlanProjection)
  plan_call (creates input now) plans =
      kept_if_failed plans (create_plan canonicalize sha256_hex input now plans)
  plan_call (gets request now) plans = (get_plan request now plans).0
  plan_call (approves request version now) plans = (mark_approved request version now plans).0
  plan_call (selects request ids now) plans = (select_steps request ids now plans).0

  abbrev pub plan_run :
      List PlanCall → List (String × PlanProjection) → List (String × PlanProjection)
  plan_run [] plans = plans
  plan_run (c ∷ cs) plans = plan_run cs (plan_call c plans)

  -- The request has a plan, of this version or a later one.
  abbrev pub HasVersion : String → ℕ → List (String × PlanProjection) → Type 0
  HasVersion request version plans =
      (plan : PlanProjection) × (lookup request plans ≡ some plan) × (version ≤ plan.version)

  insert-HasVersion :
      (request other : String) (version : ℕ) (plan : PlanProjection)
      (plans : List (String × PlanProjection))
      → HasVersion request version plans
      → ((p : PlanProjection) → lookup other plans ≡ some p → p.version ≤ plan.version)
      → HasVersion request version (insert other plan plans)
  insert-HasVersion request other version plan plans (p, found, le) above =
      elim (Bool-cases (other == request)) [
        | inr differ ↦ (p, ground (arith, lookup-insert other request plan plans), le)
        | inl same ↦ (
          plan,
          rw (lookup-insert other request plan plans, same) refl,
          omega (
            arith,
            le,
            above p
                (subst (λ r. lookup r plans ≡ some p) (sym ((eq_iff other request).0 same)) found),
          ),
        )
      ]

  -- The store is as it was, or one plan is set that is no older than the one it replaces.
  abbrev Raises : List (String × PlanProjection) → List (String × PlanProjection) → Type 0
  Raises plans after =
      (after ≡ plans)
      ⊎ ((other : String) × (plan : PlanProjection) × (after ≡ insert other plan plans)
          × ((p : PlanProjection) → lookup other plans ≡ some p → p.version ≤ plan.version))

  Raises-HasVersion :
      (request : String) (version : ℕ) (plans after : List (String × PlanProjection))
      → Raises plans after
      → HasVersion request version plans
      → HasVersion request version after
  Raises-HasVersion request version plans after (inl same) h =
      subst (HasVersion request version) (sym same) h
  Raises-HasVersion request version plans after (inr (other, plan, set, above)) h =
      subst (HasVersion request version) (sym set)
        (insert-HasVersion request other version plan plans h above)

  Raises-get :
      (request : String) (now : ℕ) (plans : List (String × PlanProjection))
      → Raises plans (get_plan request now plans).0
  unfolding get_plan expire_plan
  Raises-get request now plans = elim (Option-cases (lookup request plans)) [
    | inl absent ↦ inl (ground arith)
    | inr (plan, there) ↦
        elim (Bool-cases (leb plan.expires_at now && not (is_expired plan.status))) [
          | inr kept ↦ inl (ground arith)
          | inl marked ↦
              inr (request, record plan { status = expired }, ground arith, λ p found. ground arith)
        ]
  ]

  Raises-create :
      (input : CreatePlanInput) (now : ℕ) (plans : List (String × PlanProjection))
      → Raises plans (kept_if_failed plans (create_plan canonicalize sha256_hex input now plans))
  unfolding create_plan new_plan
  Raises-create input now plans =
      elim (Outcome-cases (create_plan canonicalize sha256_hex input now plans)) [
        | inr (e, failed_call) ↦ inl (ap (kept_if_failed plans) failed_call)
        | inl ((after, plan), done) ↦ inr (
          input.request_id,
          plan,
          ap (kept_if_failed plans) done ∙ ground arith,
          λ p found. ground arith,
        )
      ]

  Raises-approve :
      (request : String) (expected now : ℕ) (plans : List (String × PlanProjection))
      → Raises plans (mark_approved request expected now plans).0
  unfolding mark_approved
  Raises-approve request expected now plans = elim (Option-cases (lookup request plans)) [
    | inl absent ↦ inl (ground arith)
    | inr (plan, there) ↦ elim (Bool-cases (leb plan.expires_at now)) [
      | inl late ↦ subst (Raises plans) (ground arith) (Raises-get request now plans)
      | inr fresh ↦ elim (Bool-cases (nat_beq plan.version expected)) [
        | inr other ↦ inl (ground arith)
        | inl same ↦
            inr (request, record plan { status = approved }, ground arith, λ p found. ground arith)
      ]
    ]
  ]

  Raises-select :
      (request : String) (ids : List String) (now : ℕ) (plans : List (String × PlanProjection))
      → Raises plans (select_steps request ids now plans).0
  unfolding select_steps
  Raises-select request ids now plans =
      subst (Raises plans) (ground arith) (Raises-get request now plans)

  call-Raises :
      (c : PlanCall) (plans : List (String × PlanProjection)) → Raises plans (plan_call c plans)
  call-Raises (creates input now) plans = Raises-create input now plans
  call-Raises (gets other now) plans = Raises-get other now plans
  call-Raises (approves other expected now) plans = Raises-approve other expected now plans
  call-Raises (selects other ids now) plans = Raises-select other ids now plans

  run-HasVersion :
      (cs : List PlanCall) (request : String) (version : ℕ) (plans : List (String × PlanProjection))
      → HasVersion request version plans
      → HasVersion request version (plan_run cs plans)
  run-HasVersion [] request version plans h = h
  run-HasVersion (c ∷ cs) request version plans h =
      run-HasVersion cs request version (plan_call c plans)
        (Raises-HasVersion request version plans (plan_call c plans) (call-Raises c plans) h)

  create-HasVersion :
      (input : CreatePlanInput) (now : ℕ) (plans after : List (String × PlanProjection))
      (plan : PlanProjection)
      → create_plan canonicalize sha256_hex input now plans ≡ ok (after, plan)
      → HasVersion input.request_id input.version after
  unfolding create_plan new_plan
  create-HasVersion input now plans after plan h = (
    plan,
    ground (
      arith,
      lookup-insert input.request_id input.request_id plan plans,
      eq_refl input.request_id,
    ),
    ground arith,
  )

  -- After a plan was created for a request, no history of calls lets a plan of the same or a lower
  -- version be created for it: the call throws the version mismatch.
  pub created_version_spent :
      (input : CreatePlanInput) (now : ℕ) (plans after : List (String × PlanProjection))
      (plan : PlanProjection)
      → create_plan canonicalize sha256_hex input now plans ≡ ok (after, plan)
      → (cs : List PlanCall) (again : CreatePlanInput) (later : ℕ)
      → again.request_id ≡ input.request_id
      → again.version ≤ input.version
      → create_plan canonicalize sha256_hex again later (plan_run cs after)
        ≡ err plan_version_mismatch
  unfolding create_plan
  created_version_spent input now plans after plan h cs again later same le =
      let kept =
        run-HasVersion cs input.request_id input.version after
          (create-HasVersion input now plans after plan h) in
      ground (arith, kept.1, kept.2, ap (λ r. lookup r (plan_run cs after)) same)
