-- ===== src/Guardrails/Limit.antt =====
-- The limit of `scan_text` of packages/obs-platform/src/obs_platform/guardrails/patterns.py.
use agent_lens_platform.Common.{
  ℕ, suc, ◌+◌, ◌≤◌, ◌≡◌, String, Bool, List, [], ◌∷◌, ◌++◌, inl, inr, arith, Bool-cases, any,
  length, length-append, max,
}
use agent_lens_platform.Common.Text.{is_text}
use agent_lens_platform.Guardrails.{
  Match, goes_before, starts_before, insert, sorted, overlaps, keep_one, keep_from,
  resolve_overlaps, Pattern, match_of, scan_spans, scan_patterns, scan_text,
}

scan_spans_bound :
    (limit : ℕ) (p : Pattern) (spans : List (ℕ × (ℕ × String))) (found : List Match)
    → length (scan_spans limit p spans found) ≤ max limit (suc (length found))
unfolding scan_spans
scan_spans_bound limit p [] found = omega arith
scan_spans_bound limit p ((start, (end, value)) ∷ spans) found =
    let m = match_of p (start, (end, value)) in
    ground (
      arith,
      length-append found (m ∷ []),
      scan_spans_bound limit p spans found,
      scan_spans_bound limit p spans (found ++ m ∷ []),
    )

scan_patterns_bound :
    (limit : ℕ) (text : String) (patterns : List Pattern) (found : List Match)
    → length (scan_patterns limit text patterns found) ≤ max limit (length found) + length patterns
unfolding scan_patterns
scan_patterns_bound limit text [] found = omega arith
scan_patterns_bound limit text (p ∷ patterns) found = omega (
  arith,
  scan_spans_bound limit p (p.spans text) found,
  scan_patterns_bound limit text patterns (scan_spans limit p (p.spans text) found),
)

length-insert :
    (le : Match → Match → Bool) (m : Match) (ks : List Match)
    → length (insert le m ks) ≡ suc (length ks)
length-insert le m [] = omega arith
length-insert le m (k ∷ ks) = ground (arith, length-insert le m ks)

length-sorted : (le : Match → Match → Bool) (ms : List Match) → length (sorted le ms) ≡ length ms
length-sorted le [] = omega arith
length-sorted le (m ∷ ms) = omega (arith, length-insert le m (sorted le ms), length-sorted le ms)

keep_from_bound :
    (kept ordered : List Match) → length (keep_from kept ordered) ≤ length kept + length ordered
unfolding keep_from keep_one
keep_from_bound kept [] = omega arith
keep_from_bound kept (m ∷ ordered) = elim (Bool-cases (any (overlaps m) kept)) [
  | inl taken ↦ rw taken (omega (arith, keep_from_bound kept ordered))
  | inr free ↦
      rw free (omega (arith, keep_from_bound (kept ++ m ∷ []) ordered, length-append kept (m ∷ [])))
]

resolve_overlaps_bound : (matches : List Match) → length (resolve_overlaps matches) ≤ length matches
unfolding resolve_overlaps
resolve_overlaps_bound matches =
    let ordered = sorted goes_before matches in
    omega (
      arith,
      length-sorted starts_before (keep_from [] ordered),
      keep_from_bound [] ordered,
      length-sorted goes_before matches,
    )

-- A scan reports at most its limit and one match more for each pattern.
pub scan_text_bound :
    (limit : ℕ) (text : String) (patterns : List Pattern)
    → length (scan_text limit text patterns) ≤ limit + length patterns
unfolding scan_text
scan_text_bound limit text patterns = elim (Bool-cases (is_text text)) [
  | inl some ↦ rw some (
      omega (
        arith,
        resolve_overlaps_bound (scan_patterns limit text patterns []),
        scan_patterns_bound limit text patterns [],
      ))
  | inr empty ↦ rw empty (omega arith)
]
