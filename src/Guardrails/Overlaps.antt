-- ===== src/Guardrails/Overlaps.antt =====
-- `_resolve_overlaps` of packages/obs-platform/src/obs_platform/guardrails/patterns.py: the
-- spans of the matches that it keeps.
use agent_lens_platform.Common.{
  ◌≤◌, ◌<◌, ◌≡◌, ◌⊎◌, Bool, false, List, [], ◌∷◌, ◌++◌, inl, inr, arith, Bool-cases, any, All,
  All-append,
}
use agent_lens_platform.Guardrails.{
  Match, goes_before, starts_before, insert, sorted, overlaps, keep_one, keep_from,
  resolve_overlaps,
}

module _ (P : Match → Type 0) where
  pub All-insert :
      (le : Match → Match → Bool) (m : Match) (ks : List Match)
      → P m
      → All P ks
      → All P (insert le m ks)
  All-insert le m [] h all = (h, tt)
  All-insert le m (k ∷ ks) h all = elim (Bool-cases (le m k)) [
    | inl before ↦ rw before (h, all)
    | inr after ↦ rw after (all.0, All-insert le m ks h all.1)
  ]

  pub All-sorted : (le : Match → Match → Bool) (ms : List Match) → All P ms → All P (sorted le ms)
  All-sorted le [] all = tt
  All-sorted le (m ∷ ms) all = All-insert le m (sorted le ms) all.0 (All-sorted le ms all.1)

  pub All-keep_one : (m : Match) (kept : List Match) → All P kept → P m → All P (keep_one m kept)
  unfolding keep_one
  All-keep_one m kept all h = elim (Bool-cases (any (overlaps m) kept)) [
    | inl taken ↦ rw taken all
    | inr free ↦ rw free (All-append P kept (m ∷ []) all (h, tt))
  ]

  pub All-keep_from :
      (kept ordered : List Match) → All P kept → All P ordered → All P (keep_from kept ordered)
  unfolding keep_from
  All-keep_from kept [] h all = h
  All-keep_from kept (m ∷ ordered) h all =
      All-keep_from (keep_one m kept) ordered (All-keep_one m kept h all.0) all.1

-- A match of at least one character, as `finditer` gives it.
abbrev pub HasLength : Match → Type 0
HasLength m = m.start < m.end

abbrev pub Apart : Match → Match → Type 0
Apart m k = (m.end ≤ k.start) ⊎ (k.end ≤ m.start)

-- Each match ends before those that follow begin.
abbrev pub IsChain : List Match → Type 0
IsChain [] = Unit
IsChain (m ∷ ms) = All (λ k. m.end ≤ k.start) ms × IsChain ms

abbrev AllApart : List Match → Type 0
AllApart [] = Unit
AllApart (m ∷ ms) = All (Apart m) ms × AllApart ms

All-after :
    (m k : Match) (ks : List Match)
    → m.end ≤ k.start
    → k.start < k.end
    → All (λ j. k.end ≤ j.start) ks
    → All (λ j. m.end ≤ j.start) ks
All-after m k [] le long all = tt
All-after m k (j ∷ ks) le long all = (omega (arith, all.0), All-after m k ks le long all.1)

insert-IsChain :
    (m : Match) (ks : List Match)
    → HasLength m
    → All HasLength ks
    → All (Apart m) ks
    → IsChain ks
    → IsChain (insert starts_before m ks)
insert-IsChain m [] long all apart chain = (tt, tt)
insert-IsChain m (k ∷ ks) long all apart chain = elim (Bool-cases (starts_before m k)) [
  | inl before ↦
      let low : m.end ≤ k.start = ground (arith, apart.0, all.0) in
      rw before ((low, All-after m k ks low all.0 chain.0), chain)
  | inr after ↦
      let low : k.end ≤ m.start = ground (arith, apart.0, all.0) in
      rw after (
        All-insert (λ j. k.end ≤ j.start) starts_before m ks low chain.0,
        insert-IsChain m ks long all.1 apart.1 chain.1,
      )
]

sorted-IsChain :
    (ms : List Match) → All HasLength ms → AllApart ms → IsChain (sorted starts_before ms)
sorted-IsChain [] all apart = tt
sorted-IsChain (m ∷ ms) all apart =
    insert-IsChain m (sorted starts_before ms) all.0 (All-sorted HasLength starts_before ms all.1)
      (All-sorted (Apart m) starts_before ms apart.0) (sorted-IsChain ms all.1 apart.1)

AllApart-append :
    (kept : List Match) (m : Match)
    → any (overlaps m) kept ≡ false
    → AllApart kept
    → AllApart (kept ++ m ∷ [])
AllApart-append [] m free apart = (tt, tt)
AllApart-append (k ∷ kept) m free apart = (
  All-append (Apart k) kept (m ∷ []) apart.0 (ground arith, tt),
  AllApart-append kept m (ground arith) apart.1,
)

keep_one-AllApart : (m : Match) (kept : List Match) → AllApart kept → AllApart (keep_one m kept)
unfolding keep_one
keep_one-AllApart m kept apart = elim (Bool-cases (any (overlaps m) kept)) [
  | inl taken ↦ rw taken apart
  | inr free ↦ rw free (AllApart-append kept m free apart)
]

keep_from-AllApart : (kept ordered : List Match) → AllApart kept → AllApart (keep_from kept ordered)
unfolding keep_from
keep_from-AllApart kept [] apart = apart
keep_from-AllApart kept (m ∷ ordered) apart =
    keep_from-AllApart (keep_one m kept) ordered (keep_one-AllApart m kept apart)

-- Of matches that are not empty, those that are kept stand one after the other: each ends before the
-- next begins.
pub resolve_overlaps-IsChain :
    (matches : List Match) → All HasLength matches → IsChain (resolve_overlaps matches)
unfolding resolve_overlaps
resolve_overlaps-IsChain matches all =
    let ordered = sorted goes_before matches in
    sorted-IsChain (keep_from [] ordered)
      (All-keep_from HasLength [] ordered tt (All-sorted HasLength goes_before matches all))
      (keep_from-AllApart [] ordered tt)
