-- ===== src/Guardrails/Strength.antt =====
-- `_resolve_overlaps` of packages/obs-platform/src/obs_platform/guardrails/patterns.py: the matches
-- that it drops.
use agent_lens_platform.Common.{
  ℕ, ◌≤◌, ◌≡◌, ◌⊎◌, refl, Bool, true, false, List, [], ◌∷◌, ◌++◌, inl, inr, arith, Bool-cases, any,
  All, Some,
}
use agent_lens_platform.Guardrails.Overlaps.{All-insert, All-keep_one}
use agent_lens_platform.Severity.{rank}
use agent_lens_platform.Guardrails.{
  Match, goes_before, starts_before, insert, sorted, overlaps, keep_one, keep_from,
  resolve_overlaps,
}

module _ (P : Match → Type 0) where
  Some-insert :
      (le : Match → Match → Bool) (m : Match) (ks : List Match)
      → P m ⊎ Some P ks
      → Some P (insert le m ks)
  Some-insert le m [] h = h
  Some-insert le m (k ∷ ks) (inl here) = elim (Bool-cases (le m k)) [
    | inl before ↦ rw before (inl here)
    | inr after ↦ rw after (inr (Some-insert le m ks (inl here)))
  ]
  Some-insert le m (k ∷ ks) (inr (inl next)) = elim (Bool-cases (le m k)) [
    | inl before ↦ rw before (inr (inl next))
    | inr after ↦ rw after (inl next)
  ]
  Some-insert le m (k ∷ ks) (inr (inr there)) = elim (Bool-cases (le m k)) [
    | inl before ↦ rw before (inr (inr there))
    | inr after ↦ rw after (inr (Some-insert le m ks (inr there)))
  ]

  Some-sorted : (le : Match → Match → Bool) (ms : List Match) → Some P ms → Some P (sorted le ms)
  Some-sorted le [] h = elim h [ ]
  Some-sorted le (m ∷ ms) (inl h) = Some-insert le m (sorted le ms) (inl h)
  Some-sorted le (m ∷ ms) (inr h) = Some-insert le m (sorted le ms) (inr (Some-sorted le ms h))

  Some-append_left : (ks js : List Match) → Some P ks → Some P (ks ++ js)
  Some-append_left [] js h = elim h [ ]
  Some-append_left (k ∷ ks) js (inl h) = inl h
  Some-append_left (k ∷ ks) js (inr h) = inr (Some-append_left ks js h)

  Some-append_right : (ks js : List Match) → Some P js → Some P (ks ++ js)
  Some-append_right [] js h = h
  Some-append_right (k ∷ ks) js h = inr (Some-append_right ks js h)

  Some-keep_one : (m : Match) (kept : List Match) → Some P kept → Some P (keep_one m kept)
  unfolding keep_one
  Some-keep_one m kept h = elim (Bool-cases (any (overlaps m) kept)) [
    | inl taken ↦ rw taken h
    | inr free ↦ rw free (Some-append_left kept (m ∷ []) h)
  ]

  Some-keep_from : (kept ordered : List Match) → Some P kept → Some P (keep_from kept ordered)
  unfolding keep_from
  Some-keep_from kept [] h = h
  Some-keep_from kept (m ∷ ordered) h =
      Some-keep_from (keep_one m kept) ordered (Some-keep_one m kept h)

  All-of_insert :
      (le : Match → Match → Bool) (m : Match) (ks : List Match)
      → All P (insert le m ks)
      → P m × All P ks
  All-of_insert le m [] h = h
  All-of_insert le m (k ∷ ks) h = elim (Bool-cases (le m k)) [
    | inl before ↦ rw before at h
    | inr after ↦
        let split : P k × All P (insert le m ks) = rw after at h in
        let rest = All-of_insert le m ks split.1 in (rest.0, (split.0, rest.1))
  ]

  All-of_sorted : (le : Match → Match → Bool) (ms : List Match) → All P (sorted le ms) → All P ms
  All-of_sorted le [] h = tt
  All-of_sorted le (m ∷ ms) h =
      let split = All-of_insert le m (sorted le ms) h in (split.0, All-of_sorted le ms split.1)

-- The severities fall along the list.
abbrev Falls : List Match → Type 0
Falls [] = Unit
Falls (m ∷ ms) = All (λ k. rank k.severity ≤ rank m.severity) ms × Falls ms

All-falls :
    (r : ℕ) (m : Match) (ms : List Match)
    → rank m.severity ≤ r
    → All (λ k. rank k.severity ≤ rank m.severity) ms
    → All (λ k. rank k.severity ≤ r) ms
All-falls r m [] le all = tt
All-falls r m (k ∷ ms) le all = (omega (arith, all.0), All-falls r m ms le all.1)

goes_before-rank : (m k : Match) → goes_before m k ≡ true → rank k.severity ≤ rank m.severity
unfolding goes_before
goes_before-rank m k h = ground arith

stays_after_rank : (m k : Match) → goes_before m k ≡ false → rank m.severity ≤ rank k.severity
unfolding goes_before
stays_after_rank m k h = ground arith

insert-Falls : (m : Match) (ks : List Match) → Falls ks → Falls (insert goes_before m ks)
insert-Falls m [] h = (tt, tt)
insert-Falls m (k ∷ ks) h = elim (Bool-cases (goes_before m k)) [
  | inl before ↦
      let le = goes_before-rank m k before in
      rw before ((le, All-falls (rank m.severity) k ks le h.0), h)
  | inr after ↦ rw after (
    All-insert (λ j. rank j.severity ≤ rank k.severity) goes_before m ks
        (stays_after_rank m k after) h.0,
    insert-Falls m ks h.1,
  )
]

sorted-Falls : (ms : List Match) → Falls (sorted goes_before ms)
sorted-Falls [] = tt
sorted-Falls (m ∷ ms) = insert-Falls m (sorted goes_before ms) (sorted-Falls ms)

-- A kept match that stands for another: the match itself, or one that overlaps it and is at least
-- as severe.
abbrev pub Covers : Match → Match → Type 0
Covers m k = (k ≡ m) ⊎ ((overlaps m k ≡ true) × (rank m.severity ≤ rank k.severity))

taken-Covers :
    (m : Match) (kept : List Match)
    → any (overlaps m) kept ≡ true
    → All (λ k. rank m.severity ≤ rank k.severity) kept
    → Some (Covers m) kept
taken-Covers m [] h all = absurd (ground arith)
taken-Covers m (k ∷ kept) h all = elim (Bool-cases (overlaps m k)) [
  | inl hit ↦ inl (inr (hit, all.0))
  | inr miss ↦ inr (taken-Covers m kept (ground arith) all.1)
]

keep_one-Covers :
    (m : Match) (kept : List Match)
    → All (λ k. rank m.severity ≤ rank k.severity) kept
    → Some (Covers m) (keep_one m kept)
unfolding keep_one
keep_one-Covers m kept all = elim (Bool-cases (any (overlaps m) kept)) [
  | inl taken ↦ rw taken (taken-Covers m kept taken all)
  | inr free ↦ rw free (Some-append_right (Covers m) kept (m ∷ []) (inl (inl refl)))
]

-- Every kept match is at least as severe as those that are still to come.
abbrev Above : List Match → List Match → Type 0
Above ordered = All (λ k. All (λ m. rank m.severity ≤ rank k.severity) ordered)

Above-head :
    (m : Match) (ordered kept : List Match)
    → Above (m ∷ ordered) kept
    → All (λ k. rank m.severity ≤ rank k.severity) kept
Above-head m ordered [] h = tt
Above-head m ordered (k ∷ kept) h = (h.0.0, Above-head m ordered kept h.1)

Above-tail : (m : Match) (ordered kept : List Match) → Above (m ∷ ordered) kept → Above ordered kept
Above-tail m ordered [] h = tt
Above-tail m ordered (k ∷ kept) h = (h.0.1, Above-tail m ordered kept h.1)

keep_from-Covers :
    (kept ordered : List Match)
    → Falls ordered
    → Above ordered kept
    → All (λ m. Some (Covers m) (keep_from kept ordered)) ordered
unfolding keep_from
keep_from-Covers kept [] falls above = tt
keep_from-Covers kept (m ∷ ordered) falls above = (
  Some-keep_from (Covers m) (keep_one m kept) ordered
      (keep_one-Covers m kept (Above-head m ordered kept above)),
  keep_from-Covers (keep_one m kept) ordered falls.1 (
      All-keep_one (λ k. All (λ j. rank j.severity ≤ rank k.severity) ordered) m kept
        (Above-tail m ordered kept above) falls.0),
)

All-Some-sorted :
    (kept ms : List Match)
    → All (λ m. Some (Covers m) kept) ms
    → All (λ m. Some (Covers m) (sorted starts_before kept)) ms
All-Some-sorted kept [] h = tt
All-Some-sorted kept (m ∷ ms) h =
    (Some-sorted (Covers m) starts_before kept h.0, All-Some-sorted kept ms h.1)

-- Every match is kept, or it overlaps a kept one that is at least as severe.
pub resolve_overlaps-Covers :
    (matches : List Match) → All (λ m. Some (Covers m) (resolve_overlaps matches)) matches
unfolding resolve_overlaps
resolve_overlaps-Covers matches =
    let ordered = sorted goes_before matches in
    All-Some-sorted (keep_from [] ordered) matches (
      All-of_sorted (λ m. Some (Covers m) (keep_from [] ordered)) goes_before matches
        (keep_from-Covers [] ordered (sorted-Falls matches) tt))
