-- ===== src/Gateway/LeaseSpec.antt =====
-- The repository's leases and heartbeats are a lock on every job.
use forget_ops.Gateway.Calls.{GatewayCall, beats, gateway_call, gateway_run, leases}
use forget_ops.Gateway.Data.{AgentJob, GatewayDb, JobMutation}
use forget_ops.Gateway.Jobs.{can_extend, extended, is_live}
use forget_ops.Gateway.Leases.{JobEffect, added, call-JobEffect, kept, longer, taken}
use forget_ops.Gateway.Lock.{
  InOrder, Lock, LockPath, LockStep, Promised, free, held, here, holder_at, last_time, next,
  path-Promised, prolong, refuse, take,
}
use forget_ops.Prelude.{
  List, Option, Option-cases, String, [], ap, arith, eq_iff, eq_refl, false, if◌then◌else◌, inl,
  inr, lookup, nat_strict, none, refl, some, string_strict, subst, true, ℕ, ◌==◌, ◌∷◌, ◌≡◌,
}
use forget_ops.PrivacyRequest.Status.{status_strict}

abbrev pub lock_of : Option String → Option ℕ → Lock
lock_of (some who) (some ends) = held who ends
lock_of _ _ = free

-- The lock that the row of a job stands for: a job that is not there is free.
abbrev pub lock_view : Option AgentJob → Lock
lock_view none = free
lock_view (some job) = lock_of job.leased_by_agent_id job.lease_expires_at

-- The attempt on the lease of a job that a call is, if it is one: by whom and when.
abbrev pub attempt_on : String → GatewayCall → Option (String × ℕ)
attempt_on id (leases input) = if input.job_id == id then some (input.agent_id, input.now) else none
attempt_on id (beats input) = if input.job_id == id then some (input.agent_id, input.now) else none
attempt_on id c = none

abbrev pub add_attempt : Option (String × ℕ) → List (String × ℕ) → List (String × ℕ)
add_attempt none later = later
add_attempt (some attempt) later = attempt ∷ later

-- The attempts on it in a history.
abbrev pub attempts : String → List GatewayCall → List (String × ℕ)
attempts id [] = []
attempts id (c ∷ cs) = add_attempt (attempt_on id c) (attempts id cs)

-- What a call makes of a lock, given the attempt that it is.
abbrev Moves : Option (String × ℕ) → Lock → Lock → Type 0
Moves none l m = m ≡ l
Moves (some (who, now)) l m = LockStep who now l m

kept-Moves : (attempt : Option (String × ℕ)) (l m : Lock) → m ≡ l → Moves attempt l m
kept-Moves none l m e = e
kept-Moves (some (who, now)) l m e = rw e refuse

not_held :
    (who : Option String) (ends : Option ℕ) (now : ℕ)
    → is_live ends now ≡ false
    → holder_at now (lock_of who ends) ≡ none
not_held who ends now h = ground arith

prolongs :
    (input : JobMutation) (job : AgentJob)
    → can_extend input job ≡ true
    → LockStep input.agent_id input.now
        (lock_view (some job))
        (lock_view (some (extended input job)))
prolongs input job h = elim (Option-cases job.leased_by_agent_id) [
  | inl nobody ↦ absurd (ground arith)
  | inr (who, by) ↦ elim (Option-cases job.lease_expires_at) [
    | inl never ↦ absurd (ground arith)
    | inr (ends, until) ↦
        let own : who ≡ input.agent_id = ground (arith, eq_iff who input.agent_id) in
        rw (by, until, own) (prolong (ground arith))
  ]
]

effect-Moves :
    (id : String) (db after : GatewayDb) (c : GatewayCall)
    → JobEffect db id after c
    → Moves (attempt_on id c) (lock_view (lookup id db.jobs)) (lock_view (lookup id after.jobs))
effect-Moves id db after c (kept _ same) =
    kept-Moves (attempt_on id c) (lock_view (lookup id db.jobs)) (lock_view (lookup id after.jobs))
      (ap lock_view same)
effect-Moves id db after c (taken input job on_it found over set) =
    rw (on_it, eq_refl id, found, set)
      (take (not_held job.leased_by_agent_id job.lease_expires_at input.now over))
effect-Moves id db after c (longer input job on_it found own set) =
    rw (on_it, eq_refl id, found, set) (prolongs input job own)
effect-Moves id db after c (added input now absent set) = rw (absent, set) refl

-- A path begins with a call, if it goes on after it from whatever time has come.
call_path :
    {l m n : Lock} (t : ℕ) (attempt : Option (String × ℕ)) (later : List (String × ℕ))
    → Moves attempt l m
    → InOrder t (add_attempt attempt later)
    → ((now : ℕ) → InOrder now later → LockPath n now later m)
    → LockPath n t (add_attempt attempt later) l
call_path {n = n} t none later e order rest = subst (LockPath n t later) e (rest t order)
call_path t (some (who, now)) later st order rest = next order.0 st (rest now order.1)

run-LockPath :
    (cs : List GatewayCall) (t : ℕ) (id : String) (db : GatewayDb)
    → InOrder t (attempts id cs)
    → LockPath
        (lock_view (lookup id (gateway_run cs db).jobs))
        t
        (attempts id cs)
        (lock_view (lookup id db.jobs))
run-LockPath [] t id db order = here
run-LockPath (c ∷ cs) t id db order =
    call_path t (attempt_on id c) (attempts id cs)
      (effect-Moves id db (gateway_call c db) c (call-JobEffect c id db)) order
      (λ now after. run-LockPath cs now id (gateway_call c db) after)

-- Every history of calls, whose leases and heartbeats of a job come, from a start on, at times that do
-- not run back, moves the lease of that job along the lock: each of them, by its agent and at its
-- time, leaves it, takes it while nobody holds it, or prolongs it while its agent holds it, and no
-- other call changes it; so that whoever held it at first still holds it, at least up to its end then
-- or up to a minute after the start, whichever is sooner, unless the last of them came at or after
-- that time.
pub leases_refine_lock :
    (cs : List GatewayCall) (start : ℕ) (id : String) (db : GatewayDb)
    → InOrder start (attempts id cs)
    → LockPath
        (lock_view (lookup id (gateway_run cs db).jobs))
        start
        (attempts id cs)
        (lock_view (lookup id db.jobs))
      × Promised start
          (last_time start (attempts id cs))
          (lock_view (lookup id db.jobs))
          (lock_view (lookup id (gateway_run cs db).jobs))
leases_refine_lock cs start id db order =
    let path = run-LockPath cs start id db order in
    (
      path,
      path-Promised start (attempts id cs) (lock_view (lookup id db.jobs))
          (lock_view (lookup id (gateway_run cs db).jobs)) path,
    )
