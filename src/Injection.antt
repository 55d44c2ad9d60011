-- ===== src/Injection.antt =====
-- packages/obs-platform/src/obs_platform/guardrails/injection.py: the verdict of the injection detector.
-- A rule's regular expression is a test of a text; the normalisation and the index of signatures are
-- arguments, and scores are whole numbers of a unit.
pub mod Detects
use agent_lens_platform.Common.{
  ℕ, String, Bool, false, ◌||◌, Option, none, some, List, [], ◌∷◌, ◌++◌, max, ltb, leb,
  if◌then◌else◌,
}
use agent_lens_platform.Common.Text.{prefix}
use agent_lens_platform.Severity.{Severity, info, medium}

pub record Rule : Type 0 where
  pub name : String
  pub search : String → Bool
  pub category : String
  pub severity : Severity
  pub score : ℕ

pub record Signature : Type 0 where
  pub text : String
  pub category : String
  pub severity : Severity

pub record InjectionResult : Type 0 where
  pub score : ℕ
  pub detected : Bool
  pub category : String
  pub severity : Severity
  pub matched_signature : String
  pub rule_hits : List String
  pub backend : String

-- `InjectionResult(backend=...)`
abbrev pub no_result : String → InjectionResult
no_result backend = record {
  score = 0;
  detected = false;
  category = "";
  severity = info;
  matched_signature = "";
  rule_hits = [];
  backend = backend;
}

-- The variables of the loop over the rules.
pub record RuleScan : Type 0 where
  pub rule_hits : List String
  pub rule_score : ℕ
  pub rule_category : String
  pub rule_severity : Severity

abbrev pub no_hits : RuleScan
no_hits = record { rule_hits = []; rule_score = 0; rule_category = ""; rule_severity = info }

-- `rule.regex.search(text) or rule.regex.search(normalized)`
abbrev pub fires : String → String → Rule → Bool
fires text normalized rule = rule.search text || rule.search normalized

abbrev pub raise_score : Rule → RuleScan → RuleScan
raise_score rule s =
    if ltb s.rule_score rule.score
    then record s {
      rule_score = rule.score;
      rule_category = rule.category;
      rule_severity = rule.severity;
    }
    else s

abbrev pub add_rule : String → String → Rule → RuleScan → RuleScan
add_rule text normalized rule s =
    if fires text normalized rule
    then raise_score rule (record s { rule_hits = s.rule_hits ++ rule.name ∷ [] })
    else s

-- The loop over `RULES`.
unfoldable pub scan_rules : String → String → List Rule → RuleScan → RuleScan
scan_rules text normalized [] s = s
scan_rules text normalized (rule ∷ rules) s =
    scan_rules text normalized rules (add_rule text normalized rule s)

abbrev pub first_hit : List String → String
first_hit [] = ""
first_hit (name ∷ names) = name

abbrev pub category_of : Option Signature → String
category_of none = ""
category_of (some s) = s.category

abbrev pub severity_of : Option Signature → Severity
severity_of none = medium
severity_of (some s) = s.severity

abbrev pub text_of : Option Signature → String
text_of none = ""
text_of (some s) = s.text

-- `MAX_SCAN_CHARS`
abbrev pub max_scan_chars : ℕ
max_scan_chars = 20_000

module _ (threshold : ℕ) (backend_name : String) (rules : List Rule) where
  -- The verdict on the hits and the nearest signature.
  abbrev pub verdict : RuleScan → ℕ × Option Signature → InjectionResult
  verdict hits (similarity, signature) =
      let by_rule = leb similarity hits.rule_score in
      let score = max hits.rule_score similarity in
      let detected = leb threshold score in
      record {
        score = score;
        detected = detected;
        category =
            if detected
            then (if by_rule then hits.rule_category else category_of signature)
            else "";
        severity =
            if detected
            then (if by_rule then hits.rule_severity else severity_of signature)
            else info;
        matched_signature =
            if detected
            then (if by_rule then first_hit hits.rule_hits else text_of signature)
            else "";
        rule_hits = hits.rule_hits;
        backend = backend_name;
      }

  module _ (is_blank : String → Bool) (normalize : String → String)
      (best_match : String → ℕ × Option Signature) where
    -- `scan`
    unfoldable pub scan : String → InjectionResult
    scan text =
        let cut = prefix max_scan_chars text in
        if is_blank text
        then no_result backend_name
        else verdict (scan_rules cut (normalize cut) rules no_hits) (best_match cut)
