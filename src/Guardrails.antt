-- ===== src/Guardrails.antt =====
-- The matches of packages/obs-platform/src/obs_platform/guardrails/patterns.py. A regular expression's
-- matches in a text, a validator and a mask are functions of the pattern. A score is a number whose
-- order is that of the floats.
pub mod Overlaps
pub mod Strength
pub mod Verhoeff
pub mod Limit
pub mod Redact
use agent_lens_platform.Common.{
  ℕ, String, Bool, not, ◌&&◌, ◌||◌, List, [], ◌∷◌, ◌++◌, any, length, leb, ltb, ◌==◌, if◌then◌else◌,
}
use agent_lens_platform.Common.Text.{is_text}
use agent_lens_platform.Severity.{Severity, rank}

-- `Match`
pub record Match : Type 0 where
  pub pattern : String
  pub severity : Severity
  pub score : ℕ
  pub start : ℕ
  pub end : ℕ
  pub value : String
  pub masked : String

-- The key of the first sort, `(-rank, -score, start, -end)`: whether `a` may stand before `b`.
unfoldable pub goes_before : Match → Match → Bool
goes_before a b =
    ltb (rank b.severity) (rank a.severity)
    || (rank a.severity == rank b.severity
        && (ltb b.score a.score
            || (a.score == b.score
                && (ltb a.start b.start || (a.start == b.start && leb b.end a.end)))))

-- The key of the second sort.
abbrev pub starts_before : Match → Match → Bool
starts_before a b = leb a.start b.start

-- `sorted`, which is stable: an element goes before the first that it may precede
abbrev pub insert : (Match → Match → Bool) → Match → List Match → List Match
insert le m [] = m ∷ []
insert le m (k ∷ ks) = if le m k then m ∷ k ∷ ks else k ∷ insert le m ks

abbrev pub sorted : (Match → Match → Bool) → List Match → List Match
sorted le [] = []
sorted le (m ∷ ms) = insert le m (sorted le ms)

-- `candidate.start < k.end and k.start < candidate.end`
abbrev pub overlaps : Match → Match → Bool
overlaps candidate k = ltb candidate.start k.end && ltb k.start candidate.end

unfoldable pub keep_one : Match → List Match → List Match
keep_one candidate kept = if any (overlaps candidate) kept then kept else kept ++ candidate ∷ []

unfoldable pub keep_from : List Match → List Match → List Match
unfolding keep_one
keep_from kept [] = kept
keep_from kept (candidate ∷ ordered) = keep_from (keep_one candidate kept) ordered

-- `_resolve_overlaps`
unfoldable pub resolve_overlaps : List Match → List Match
unfolding keep_from goes_before
resolve_overlaps matches = sorted starts_before (keep_from [] (sorted goes_before matches))

-- `Pattern`, with the spans of `finditer`, the validator and the mask as functions of the text.
pub record Pattern : Type 0 where
  pub name : String
  pub severity : Severity
  pub score : ℕ
  pub spans : String → List (ℕ × (ℕ × String))
  pub validator : String → Bool
  pub mask : String → String

abbrev pub match_of : Pattern → ℕ × (ℕ × String) → Match
match_of p (start, (end, value)) = record {
  pattern = p.name;
  severity = p.severity;
  score = p.score;
  start = start;
  end = end;
  value = value;
  masked = p.mask value;
}

-- The inner loop of `scan_text`: it stops after the match that reaches the limit.
unfoldable pub scan_spans : ℕ → Pattern → List (ℕ × (ℕ × String)) → List Match → List Match
scan_spans limit p [] found = found
scan_spans limit p ((start, (end, value)) ∷ spans) found =
    let found' = found ++ match_of p (start, (end, value)) ∷ [] in
    let skipped = scan_spans limit p spans found in
    let rest = scan_spans limit p spans found' in
    if not (is_text value && p.validator value)
    then skipped
    else if leb limit (length found')
    then found'
    else rest

unfoldable pub scan_patterns : ℕ → String → List Pattern → List Match → List Match
unfolding scan_spans
scan_patterns limit text [] found = found
scan_patterns limit text (p ∷ patterns) found =
    scan_patterns limit text patterns (scan_spans limit p (p.spans text) found)

-- `scan_text`
unfoldable pub scan_text : ℕ → String → List Pattern → List Match
unfolding scan_patterns resolve_overlaps
scan_text limit text patterns =
    if is_text text then resolve_overlaps (scan_patterns limit text patterns []) else []
