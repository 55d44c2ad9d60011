-- ===== src/Engine/Scan.antt =====
-- `GuardrailEngine` of packages/obs-platform/src/obs_platform/guardrails/engine.py: the findings of one
-- event and their summary. `analyze` is the PII engine and `detect` the injection detector, which the
-- engine is given; `redact` is `redact_pii`; `upper` is `str.upper`.
use agent_lens_platform.Common.{
  ℕ, ◌+◌, ◌-◌, ◌*◌, String, Bool, true, false, Option, none, some, List, [], ◌∷◌, length, ltb,
  if◌then◌else◌, min, map, filter, contains, both_eq, string_eq, Eq, take,
}
use agent_lens_platform.Severity.{Severity, info, low, medium, high, critical, text, max_of}

abbrev pub excerpt_context : ℕ
excerpt_context = 24

-- `SEVERITY_BASE`
abbrev pub severity_base : Severity → ℕ
severity_base info = 0
severity_base low = 15
severity_base medium = 35
severity_base high = 70
severity_base critical = 95

abbrev pub additional_type_weight : ℕ
additional_type_weight = 5

-- `Finding`; the offset -1 of a finding without a place is not used by the engine.
pub record Finding : Type 0 where
  pub detector : String
  pub finding_type : String
  pub severity : Severity
  pub score : ℕ
  pub field : String
  pub excerpt : String
  pub start_offset : ℕ
  pub end_offset : ℕ
  pub span_id : Option ℕ

-- `InjectionResult`, the fields that the engine reads
pub record InjectionResult : Type 0 where
  pub detected : Bool
  pub category : String
  pub severity : Severity
  pub score : ℕ

-- `flags["pii"]` and `flags["injection"]`
pub record PiiFlags : Type 0 where
  pub count : ℕ
  pub types : List String
  pub fields : List String
  pub max_severity : Severity

pub record InjectionFlags : Type 0 where
  pub category : String
  pub score : ℕ
  pub field : String
  pub severity : Severity

-- The flags; a key that is missing is `none`, and `engines` holds the two names.
pub record Flags : Type 0 where
  pub scanned : Bool
  pub findings : Option ℕ
  pub risk_score : Option ℕ
  pub max_severity : Option Severity
  pub engines : Option (String × String)
  pub pii : Option PiiFlags
  pub injection : Option InjectionFlags

abbrev pub no_flags : Flags
no_flags = record {
  scanned = false;
  findings = none;
  risk_score = none;
  max_severity = none;
  engines = none;
  pii = none;
  injection = none;
}

-- `ScanOutcome`
pub record ScanOutcome : Type 0 where
  pub findings : List Finding
  pub risk_score : ℕ
  pub max_severity : Option Severity
  pub flags : Flags

-- `set(values)`, as a list without repeats
abbrev pub distinct : {A : Type 0} → Eq A → List A → List A
distinct e [] = []
distinct e (x ∷ xs) = let rest = distinct e xs in if contains ⦃e = e⦄ rest x then rest else x ∷ rest

-- `Severity.max_of` over members
abbrev pub max_severity_of : List Severity → Severity
max_severity_of severities = max_of (map text severities)

-- `max(findings, key=score)`: the first of the highest
unfoldable pub worst_of : Finding → List Finding → Finding
worst_of best [] = best
worst_of best (f ∷ fs) = worst_of (if ltb best.score f.score then f else best) fs

module _ (text_before : String → String → Bool) where
  -- `sorted` on texts, by their order
  abbrev pub insert_text : String → List String → List String
  insert_text s [] = s ∷ []
  insert_text s (t ∷ ts) = if text_before s t then s ∷ t ∷ ts else t ∷ insert_text s ts

  abbrev pub sort_texts : List String → List String
  sort_texts [] = []
  sort_texts (s ∷ ss) = insert_text s (sort_texts ss)

  abbrev pub sorted_set : List String → List String
  sorted_set ss = sort_texts (distinct string_eq ss)

  abbrev pub is_detector : String → Finding → Bool
  is_detector name f = string_eq.beq f.detector name

  abbrev pub pii_flags : List Finding → Option PiiFlags
  pii_flags [] = none
  pii_flags (f ∷ fs) = some (record {
    count = length (f ∷ fs);
    types = sorted_set (map (λ f. f.finding_type) (f ∷ fs));
    fields = take 10 (sorted_set (map (λ f. f.field) (f ∷ fs)));
    max_severity = max_severity_of (map (λ f. f.severity) (f ∷ fs));
  })

  abbrev pub injection_flags : List Finding → Option InjectionFlags
  injection_flags [] = none
  injection_flags (f ∷ fs) =
      let worst = worst_of f fs in
      some (record {
        category = worst.finding_type;
        score = worst.score;
        field = worst.field;
        severity = worst.severity;
      })

  -- `_summarize`; `engines` are the names of the two engines
  unfoldable pub summarize : String × String → List Finding → ScanOutcome
  unfolding max_of worst_of
  summarize engines [] = record {
    findings = [];
    risk_score = 0;
    max_severity = none;
    flags = record no_flags { scanned = true; findings = some 0 };
  }
  summarize engines (f ∷ fs) =
      let findings = f ∷ fs in
      let worst = max_severity_of (map (λ f. f.severity) findings) in
      let types =
        distinct (both_eq string_eq string_eq) (map (λ f. (f.detector, f.finding_type)) findings) in
      let risk = min 100 (severity_base worst + additional_type_weight * (length types - 1)) in
      record {
        findings = findings;
        risk_score = risk;
        max_severity = some worst;
        flags = record {
          scanned = true;
          findings = some (length findings);
          risk_score = some risk;
          max_severity = some worst;
          engines = some engines;
          pii = pii_flags (filter (is_detector "pii") findings);
          injection = injection_flags (filter (is_detector "injection") findings);
        };
      }
