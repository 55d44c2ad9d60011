-- ===== src/Injection/Detects.antt =====
-- When the detector of packages/obs-platform/src/obs_platform/guardrails/injection.py detects.
use agent_lens_platform.Common.{
  ℕ, ◌≤◌, ◌≡◌, refl, sym, ap, ◌∙◌, String, Bool, true, false, not, ◌||◌, ◌&&◌, Option, List, [],
  ◌∷◌, ◌++◌, max, ltb, leb, if◌then◌else◌, arith, inl, inr, Bool-cases,
}
use agent_lens_platform.Common.Text.{prefix}
use agent_lens_platform.Injection.{
  Rule, Signature, RuleScan, no_hits, fires, raise_score, add_rule, scan_rules, max_scan_chars,
  scan,
}

-- Some rule that fires has a score that reaches the threshold.
abbrev pub reaches : ℕ → String → String → List Rule → Bool
reaches threshold text normalized [] = false
reaches threshold text normalized (rule ∷ rules) =
    (fires text normalized rule && leb threshold rule.score)
    || reaches threshold text normalized rules

leb-or : (t a b : ℕ) → leb t (if ltb a b then b else a) ≡ (leb t a || leb t b)
leb-or t a b = ground arith

leb-max : (t a b : ℕ) → leb t (max a b) ≡ (leb t a || leb t b)
leb-max t a b = ground arith

or_assoc : (a b c : Bool) → ((a || b) || c) ≡ (a || (b || c))
or_assoc true b c = refl
or_assoc false b c = refl

or_false : (a : Bool) → (a || false) ≡ a
or_false true = refl
or_false false = refl

raise_score-score :
    (rule : Rule) (s : RuleScan)
    → (raise_score rule s).rule_score
      ≡ (if ltb s.rule_score rule.score then rule.score else s.rule_score)
raise_score-score rule s = elim (Bool-cases (ltb s.rule_score rule.score)) [
  | inl more ↦ rw more refl
  | inr less ↦ rw less refl
]

add_rule-reaches :
    (t : ℕ) (text normalized : String) (rule : Rule) (s : RuleScan)
    → leb t (add_rule text normalized rule s).rule_score
      ≡ (leb t s.rule_score || (fires text normalized rule && leb t rule.score))
add_rule-reaches t text normalized rule s = elim (Bool-cases (fires text normalized rule)) [
  | inl fired ↦ rw fired (
      ap (leb t) (raise_score-score rule (record s { rule_hits = s.rule_hits ++ rule.name ∷ [] }))
      ∙ leb-or t s.rule_score rule.score)
  | inr quiet ↦ rw quiet (sym (or_false (leb t s.rule_score)))
]

scan_rules-reaches :
    (t : ℕ) (text normalized : String) (rules : List Rule) (s : RuleScan)
    → leb t (scan_rules text normalized rules s).rule_score
      ≡ (leb t s.rule_score || reaches t text normalized rules)
unfolding scan_rules
scan_rules-reaches t text normalized [] s = sym (or_false (leb t s.rule_score))
scan_rules-reaches t text normalized (rule ∷ rules) s =
    scan_rules-reaches t text normalized rules (add_rule text normalized rule s)
    ∙ ap (λ b. b || reaches t text normalized rules) (add_rule-reaches t text normalized rule s)
    ∙ or_assoc (leb t s.rule_score) (fires text normalized rule && leb t rule.score)
        (reaches t text normalized rules)

leb_zero : (t : ℕ) → 1 ≤ t → leb t 0 ≡ false
leb_zero t pos = ground arith

module _ (threshold : ℕ) (backend_name : String) (rules : List Rule) (is_blank : String → Bool)
    (normalize : String → String) (best_match : String → ℕ × Option Signature) where
  -- With a threshold above zero, a text that is not blank is detected exactly if some rule fires on its
  -- first 20,000 characters, as they stand or normalised, and has a score that reaches the threshold,
  -- or the similarity of the nearest signature reaches it. A blank text is not detected.
  pub scan-detected :
      (text : String)
      → 1 ≤ threshold
      → (scan threshold backend_name rules is_blank normalize best_match text).detected ≡ (
          not (is_blank text)
          && (reaches threshold
                (prefix max_scan_chars text)
                (normalize (prefix max_scan_chars text))
                rules
              || leb threshold (best_match (prefix max_scan_chars text)).0))
  unfolding scan
  scan-detected text pos = elim (Bool-cases (is_blank text)) [
    | inl blank ↦ rw blank refl
    | inr full ↦
        let cut = prefix max_scan_chars text in
        let hits = scan_rules cut (normalize cut) rules no_hits in
        let by_rules =
          scan_rules-reaches threshold cut (normalize cut) rules no_hits
          ∙ ap (λ b. b || reaches threshold cut (normalize cut) rules) (leb_zero threshold pos) in
        rw full (
          leb-max threshold hits.rule_score (best_match cut).0
          ∙ ap (λ b. b || leb threshold (best_match cut).0) by_rules)
  ]
