-- ===== src/Gateway/Lock.antt =====
-- The lock that a job's lease promises to be: who holds it, and for how long.
use forget_ops.Gateway.Jobs.{job_lease_ms}
use forget_ops.Prelude.{
  List, Option, String, [], arith, if◌then◌else◌, inl, inr, ltb, none, refl, some, subst, ℕ, ◌+◌,
  ◌<◌, ◌∷◌, ◌≡◌, ◌≤◌, ◌⊎◌,
}

-- A lock is free, or held by somebody up to a time.
pub data Lock : Type 0 where
  free : Lock
  held : (who : String) (ends : ℕ) → Lock

-- Who holds it at a time.
abbrev pub holder_at : ℕ → Lock → Option String
holder_at now free = none
holder_at now (held who ends) = if ltb now ends then some who else none

-- What an attempt by somebody at a time makes of it: nothing, or it is taken, only while nobody holds
-- it, or prolonged, only while it is held by the one who attempts it.
pub data LockStep (who : String) (now : ℕ) : Lock → Lock → Type 0 where
  refuse : {l : Lock} → LockStep who now l l
  take : {l : Lock} → holder_at now l ≡ none → LockStep who now l (held who (now + job_lease_ms))
  prolong :
      {ends : ℕ} → now < ends → LockStep who now (held who ends) (held who (now + job_lease_ms))

-- The way of a lock, from a time on, through attempts whose times do not run back.
pub data LockPath (last : Lock) : ℕ → List (String × ℕ) → Lock → Type 0 where
  here : {t : ℕ} → LockPath last t [] last
  next :
      {t now : ℕ} {who : String} {later : List (String × ℕ)} {l m : Lock}
      → t ≤ now
      → LockStep who now l m
      → LockPath last now later m
      → LockPath last t ((who, now) ∷ later) l

abbrev pub InOrder : ℕ → List (String × ℕ) → Type 0
InOrder t [] = Unit
InOrder t ((who, now) ∷ later) = (t ≤ now) × InOrder now later

abbrev pub last_time : ℕ → List (String × ℕ) → ℕ
last_time t [] = t
last_time t ((who, now) ∷ later) = last_time now later

-- A lock that was held is held by the same one at least up to a time, or that time has come.
abbrev StillHeld : ℕ → ℕ → String → Lock → Type 0
StillHeld until now who l = (until ≤ now) ⊎ ((ends : ℕ) × (l ≡ held who ends) × (until ≤ ends))

-- What a lock promises to its holder: the lease up to its end, or for the time of a lease from now on
-- if that is sooner.
abbrev pub Promised : ℕ → ℕ → Lock → Lock → Type 0
Promised start now free l = Unit
Promised start now (held who ends) l =
    StillHeld (if ltb ends (start + job_lease_ms) then ends else start + job_lease_ms) now who l

path-last_time :
    {n : Lock} {t : ℕ} {tries : List (String × ℕ)} {l : Lock}
    → LockPath n t tries l
    → t ≤ last_time t tries
path-last_time here = omega arith
path-last_time (next le st p) = omega (arith, le, path-last_time p)

held-free : (who : String) (ends now : ℕ) → holder_at now (held who ends) ≡ none → ends ≤ now
held-free who ends now h = ground arith

step-StillHeld :
    {who : String} {now : ℕ} {l m : Lock} (start until : ℕ) (holder : String) (ends : ℕ)
    → until ≤ start + job_lease_ms
    → start ≤ now
    → LockStep who now l m
    → l ≡ held holder ends
    → until ≤ ends
    → StillHeld until now holder m
step-StillHeld start until holder ends limit since refuse e le = inr (ends, e, le)
step-StillHeld {now = now} start until holder ends limit since (take over) e le =
    let past = held-free holder ends now (subst (λ l. holder_at now l ≡ none) e over) in
    inl (omega (arith, past, le))
step-StillHeld {now = now} start until holder ends limit since (prolong live) e le =
    inr (now + job_lease_ms, ground (arith, e), omega arith)

path-StillHeld :
    {n : Lock} {t : ℕ} {tries : List (String × ℕ)} {l : Lock} (start until : ℕ) (holder : String)
    (ends : ℕ)
    → until ≤ start + job_lease_ms
    → start ≤ t
    → LockPath n t tries l
    → l ≡ held holder ends
    → until ≤ ends
    → StillHeld until (last_time t tries) holder n
path-StillHeld start until holder ends limit since here e le = inr (ends, e, le)
path-StillHeld start until holder ends limit since (next later_on st p) e le =
    elim (step-StillHeld start until holder ends limit (omega (arith, since, later_on)) st e le) [
      | inl past ↦ inl (omega (arith, past, path-last_time p))
      | inr (ends', e', le') ↦
          path-StillHeld start until holder ends' limit (omega (arith, since, later_on)) p e' le'
    ]

pub path-Promised :
    (start : ℕ) (tries : List (String × ℕ)) (l n : Lock)
    → LockPath n start tries l
    → Promised start (last_time start tries) l n
path-Promised start tries free n p = tt
path-Promised start tries (held who ends) n p =
    path-StillHeld start (if ltb ends (start + job_lease_ms) then ends else start + job_lease_ms)
      who ends (ground arith) (omega arith) p refl (ground arith)
