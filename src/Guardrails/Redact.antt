-- ===== src/Guardrails/Redact.antt =====
-- `redact_text` of packages/obs-platform/src/obs_platform/guardrails/patterns.py.
use agent_lens_platform.Common.{ℕ, ◌≤◌, ◌<◌, ◌≡◌, String, true, List, [], ◌∷◌, map}
use agent_lens_platform.Common.Text.{is_text, join, slice, suffix}
use agent_lens_platform.Guardrails.{Match, Pattern, scan_text}

-- `"".join(parts)`
unfoldable pub concat : List String → String
unfolding join
concat [] = ""
concat (s ∷ parts) = join s (concat parts)

-- The loop of `redact_text`, and the rest of the text after it.
unfoldable pub redact_from : String → ℕ → List Match → List String
unfolding slice suffix
redact_from text cursor [] = suffix cursor text ∷ []
redact_from text cursor (m ∷ matches) =
    slice cursor m.start text ∷ m.masked ∷ redact_from text m.end matches

-- `redact_text`; `matches` is what `scan_text` found
abbrev pub redacted : String → List Match → String × List Match
redacted text [] = (text, [])
redacted text (m ∷ matches) = (concat (redact_from text 0 (m ∷ matches)), m ∷ matches)

unfoldable pub redact_text : ℕ → String → List Pattern → String × List Match
unfolding scan_text redact_from concat
redact_text limit text patterns = redacted text (scan_text limit text patterns)

-- Stretches of text, each before a match, with `f` of each match after its stretch, and a last one.
unfoldable pub interleave : (Match → String) → List (String × Match) → String → String
interleave f [] last = last
interleave f ((gap, m) ∷ pieces) last = join gap (join (f m) (interleave f pieces last))

-- The matches stand in order, from a place on.
abbrev Ordered : ℕ → List Match → Type 0
Ordered from [] = Unit
Ordered from (m ∷ ms) = (from ≤ m.start) × ((m.start ≤ m.end) × Ordered m.end ms)

abbrev gaps_from : String → ℕ → List Match → List (String × Match)
gaps_from text cursor [] = []
gaps_from text cursor (m ∷ matches) = (slice cursor m.start text, m) ∷ gaps_from text m.end matches

abbrev last_of : String → ℕ → List Match → String
last_of text cursor [] = suffix cursor text
last_of text cursor (m ∷ matches) = last_of text m.end matches

-- A match of an expression whose text is not empty has a length.
abbrev pub SpanFits : ℕ × (ℕ × String) → Type 0
SpanFits span = is_text span.1.1 ≡ true → span.0 < span.1.0

-- What `redact_text` returns for a text and its matches: stretches of the text, the matches between them.
abbrev pub RedactsTo : String → String × List Match → Type 0
RedactsTo text out =
    (pieces : List (String × Match)) × ((last : String) × ((map (λ p. p.1) pieces ≡ out.1)
        × ((text ≡ interleave (λ m. slice m.start m.end text) pieces last)
            × (out.0 ≡ interleave (λ m. m.masked) pieces last))))
