-- ===== src/PrivacyRequest/Attempts.antt =====
-- Lists of attempts: looking up the current one, replacing it, adding one.
use forget_ops.Prelude.{
  All, Bool-cases, Distinct, List, Option, String, [], ap, arith, contains, eq_iff, eq_refl, false,
  if◌then◌else◌, inl, inr, is_some_text, length, map, nat_strict, none, refl, some, string_strict,
  subst, suc, sym, true, ℕ, ◌++◌, ◌+◌, ◌==◌, ◌||◌, ◌∙◌, ◌∷◌, ◌≡◌,
}
use forget_ops.PrivacyRequest.Data.{ExecutionAttempt}
use forget_ops.PrivacyRequest.Status.{status_strict}
use forget_ops.PrivacyRequest.Steps.{attempt_id_taken, find_attempt, replace_attempt}

-- The attempt that is found has the id that was asked for.
pub find_attempt_id :
    (current : Option String) (xs : List ExecutionAttempt) (a : ExecutionAttempt)
    → find_attempt current xs ≡ some a
    → is_some_text current a.id ≡ true
unfolding find_attempt
find_attempt_id current [] a h = cc
find_attempt_id current (x ∷ xs) a h = elim (Bool-cases (is_some_text current x.id)) [
  | inl hit ↦ ground (arith)
  | inr miss ↦ find_attempt_id current xs a (ground arith)
]

-- An attempt with a new id is found at the end of the list.
pub find_attempt-append :
    (a : ExecutionAttempt) (xs : List ExecutionAttempt)
    → attempt_id_taken a.id xs ≡ false
    → find_attempt (some a.id) (xs ++ a ∷ []) ≡ some a
unfolding find_attempt attempt_id_taken
find_attempt-append a [] h = rw (eq_refl a.id)
find_attempt-append a (x ∷ xs) h =
    ground (arith, eq_iff a.id x.id, eq_iff x.id a.id, find_attempt-append a xs)

-- Replacing the attempt that is found, under its id, makes the new one found.
pub find_attempt-replace_attempt :
    (current : Option String) (u : ExecutionAttempt) (xs : List ExecutionAttempt)
    (a : ExecutionAttempt)
    → find_attempt current xs ≡ some a
    → u.id ≡ a.id
    → find_attempt current (replace_attempt u xs) ≡ some u
unfolding find_attempt replace_attempt
find_attempt-replace_attempt none u [] a h e = cc
find_attempt-replace_attempt none u (x ∷ xs) a h e = absurd (cc (find_attempt_id none (x ∷ xs) a h))
find_attempt-replace_attempt (some c) u [] a h e = cc
find_attempt-replace_attempt (some c) u (x ∷ xs) a h e = ground (
  arith,
  find_attempt_id (some c) (x ∷ xs) a h,
  eq_iff c x.id,
  eq_iff x.id u.id,
  eq_iff c a.id,
  eq_iff c u.id,
  find_attempt-replace_attempt (some c) u xs a,
)

-- A property of the updated attempt, and of the others under their ids, holds of the whole list.
pub All-replace_attempt {ℓ κ} :
    (P : ExecutionAttempt → Type ℓ) (Q : ExecutionAttempt → Type κ) (u : ExecutionAttempt)
    (xs : List ExecutionAttempt)
    → ((x : ExecutionAttempt) → (x.id == u.id) ≡ false → P x → Q x)
    → Q u
    → All P xs
    → All Q (replace_attempt u xs)
unfolding replace_attempt
All-replace_attempt P Q u [] f q h = tt
All-replace_attempt P Q u (x ∷ xs) f q h = elim (Bool-cases (x.id == u.id)) [
  | inl hit ↦ rw hit (q, All-replace_attempt P Q u xs f q h.1)
  | inr miss ↦ rw miss (f x miss h.0, All-replace_attempt P Q u xs f q h.1)
]

pub All-find_attempt {ℓ} :
    (P : ExecutionAttempt → Type ℓ) (current : Option String) (xs : List ExecutionAttempt)
    (a : ExecutionAttempt)
    → find_attempt current xs ≡ some a
    → All P xs
    → P a
unfolding find_attempt
All-find_attempt P current [] a h holds = absurd (cc)
All-find_attempt P current (x ∷ xs) a h holds = elim (Bool-cases (is_some_text current x.id)) [
  | inl hit ↦ let e : x ≡ a = ground (arith) in subst P e holds.0
  | inr miss ↦ All-find_attempt P current xs a (ground arith) holds.1
]

abbrev pub attempt_ids : List ExecutionAttempt → List String
attempt_ids = map λ a. a.id

abbrev pub attempt_numbers : List ExecutionAttempt → List ℕ
attempt_numbers = map λ a. a.attempt_number

-- The numbers k, k + 1, …
abbrev pub CountsFrom : ℕ → List ℕ → Type 0
CountsFrom k [] = Unit
CountsFrom k (n ∷ ns) = (n ≡ k) × CountsFrom (k + 1) ns

pub contains-attempt_ids :
    (id : String) (xs : List ExecutionAttempt)
    → contains id (attempt_ids xs) ≡ attempt_id_taken id xs
unfolding attempt_id_taken
contains-attempt_ids id [] = refl
contains-attempt_ids id (x ∷ xs) = ap (◌||◌ (x.id == id)) (contains-attempt_ids id xs)

contains-append :
    (s t : String) (xs : List String)
    → contains s xs ≡ false
    → (t == s) ≡ false
    → contains s (xs ++ t ∷ []) ≡ false
contains-append s t [] h e = ground arith
contains-append s t (x ∷ xs) h e = ground (arith, contains-append s t xs)

pub Distinct-append :
    (xs : List String) (x : String) → Distinct xs → contains x xs ≡ false → Distinct (xs ++ x ∷ [])
Distinct-append [] x d h = (refl, tt)
Distinct-append (y ∷ xs) x d h = (
  contains-append y x xs d.0 (ground (arith, eq_iff x y, eq_iff y x)),
  Distinct-append xs x d.1 (ground arith),
)

pub CountsFrom-append :
    (k : ℕ) (ns : List ℕ) → CountsFrom k ns → CountsFrom k (ns ++ (k + length ns) ∷ [])
CountsFrom-append k [] h = (omega arith, tt)
CountsFrom-append k (n ∷ ns) h =
    let e : k + 1 + length ns ≡ k + suc (length ns) = omega arith in
    (h.0, rw e at (CountsFrom-append (k + 1) ns h.1))

-- An update under an id that no attempt has changes nothing.
pub replace_attempt_absent :
    (u : ExecutionAttempt) (xs : List ExecutionAttempt)
    → attempt_id_taken u.id xs ≡ false
    → replace_attempt u xs ≡ xs
unfolding replace_attempt attempt_id_taken
replace_attempt_absent u [] h = refl
replace_attempt_absent u (x ∷ xs) h = ground (arith, replace_attempt_absent u xs)

head_updated {ℓ} :
    {B : Type ℓ} (f : ExecutionAttempt → B) (u x : ExecutionAttempt)
    → u.id ≡ x.id
    → f u ≡ f x
    → f (if x.id == u.id then u else x) ≡ f x
head_updated f u x e g = rw ((eq_iff x.id u.id).1 (sym e)) g

head_kept {ℓ} :
    {B : Type ℓ} (f : ExecutionAttempt → B) (u x : ExecutionAttempt)
    → (x.id == u.id) ≡ false
    → f (if x.id == u.id then u else x) ≡ f x
head_kept f u x h = rw h

-- One text is looked for and another is not: they differ.
pub misses :
    (current : Option String) (s t : String)
    → is_some_text current s ≡ false
    → is_some_text current t ≡ true
    → (s == t) ≡ false
misses none s t h k = cc
misses (some c) s t h k = ground (arith, eq_iff c s, eq_iff c t, eq_iff s t)

-- An update that keeps a field of the attempt that is found keeps the column of that field.
pub map-replace_attempt {ℓ} :
    {B : Type ℓ} (f : ExecutionAttempt → B) (current : Option String) (u : ExecutionAttempt)
    (xs : List ExecutionAttempt) (a : ExecutionAttempt)
    → Distinct (attempt_ids xs)
    → find_attempt current xs ≡ some a
    → u.id ≡ a.id
    → f u ≡ f a
    → map f (replace_attempt u xs) ≡ map f xs
unfolding find_attempt replace_attempt
map-replace_attempt f current u [] a d h e g = refl
map-replace_attempt f current u (x ∷ xs) a d h e g = elim (Bool-cases (is_some_text current x.id)) [
  | inl hit ↦
      let same : x ≡ a = ground arith in
      let gone : replace_attempt u xs ≡ xs = replace_attempt_absent u xs (
        sym (contains-attempt_ids u.id xs)
        ∙ ap (λ s. contains s (attempt_ids xs)) (e ∙ sym (ap (λ (y : ExecutionAttempt). y.id) same))
        ∙ d.0) in
      cc (
        head_updated f u x (e ∙ sym (ap (λ (y : ExecutionAttempt). y.id) same))
          (g ∙ sym (ap f same)))
  | inr miss ↦
      let found : find_attempt current xs ≡ some a = ground arith in
      cc (
        head_kept f u x (misses current x.id u.id miss (rw e (find_attempt_id current xs a found))),
        map-replace_attempt f current u xs a d.1 found e g,
      )
]

-- Two texts that match the same one are equal.
pub unique_match :
    (current : Option String) (s t : String)
    → is_some_text current s ≡ true
    → is_some_text current t ≡ true
    → (s == t) ≡ true
unique_match none s t h k = cc
unique_match (some c) s t h k = ground (arith, eq_iff c s, eq_iff c t, eq_iff s t)

-- A new last attempt adds its field to a column.
pub map-append_one {ℓ} :
    {B : Type ℓ} (f : ExecutionAttempt → B) (xs : List ExecutionAttempt) (a : ExecutionAttempt)
    → map f (xs ++ a ∷ []) ≡ map f xs ++ f a ∷ []
map-append_one f [] a = refl
map-append_one f (x ∷ xs) a = ap (◌∷◌ (f x)) (map-append_one f xs a)

pub length-attempt_numbers : (xs : List ExecutionAttempt) → length (attempt_numbers xs) ≡ length xs
length-attempt_numbers [] = refl
length-attempt_numbers (x ∷ xs) = omega (arith, length-attempt_numbers xs)
