-- ===== src/Engine/Flags.antt =====
-- `merge_flags` of packages/obs-platform/src/obs_platform/guardrails/engine.py.
use agent_lens_platform.Common.{
  ℕ, ◌+◌, String, Bool, true, Option, none, some, List, [], ◌∷◌, ◌++◌, leb, if◌then◌else◌, max,
  take, get_or, string_eq,
}
use agent_lens_platform.Severity.{Severity, info}
use agent_lens_platform.Engine.Scan.{PiiFlags, InjectionFlags, Flags, max_severity_of, sorted_set}

abbrev pub merge_severity : Option Severity → Option Severity → Option Severity
merge_severity old none = old
merge_severity old (some s) = some (max_severity_of (get_or old info ∷ s ∷ []))

-- `if new.get(key): merged[key] = new[key]`
abbrev pub newer {ℓ} : {A : Type ℓ} → Option A → Option A → Option A
newer old none = old
newer old (some a) = some a

-- `merged.get("pii") or {}`, with the defaults of what is read from it
abbrev pub previous_pii : Option PiiFlags → PiiFlags
previous_pii none = record { count = 0; types = []; fields = []; max_severity = info }
previous_pii (some p) = p

abbrev pub previous_score : Option InjectionFlags → ℕ
previous_score none = 0
previous_score (some i) = i.score

abbrev pub merge_injection : Option InjectionFlags → Option InjectionFlags → Option InjectionFlags
merge_injection old none = old
merge_injection old (some i) = if leb (previous_score old) i.score then some i else old

module _ (text_before : String → String → Bool) where
  abbrev pub merge_pii : Option PiiFlags → Option PiiFlags → Option PiiFlags
  merge_pii old none = old
  merge_pii old (some p) =
      let before = previous_pii old in
      some (record {
        count = before.count + p.count;
        types = sorted_set text_before (before.types ++ p.types);
        fields = take 10 (sorted_set text_before (before.fields ++ p.fields));
        max_severity = max_severity_of (before.max_severity ∷ p.max_severity ∷ []);
      })

  -- `merge_flags`
  unfoldable pub merge_flags : Flags → Flags → Flags
  merge_flags existing new = record {
    scanned = true;
    findings = some (get_or existing.findings 0 + get_or new.findings 0);
    risk_score = some (max (get_or existing.risk_score 0) (get_or new.risk_score 0));
    max_severity = merge_severity existing.max_severity new.max_severity;
    engines = newer existing.engines new.engines;
    pii = merge_pii existing.pii new.pii;
    injection = merge_injection existing.injection new.injection;
  }

  -- The scans of a trace, in the order in which they are merged.
  unfoldable pub merge_all : Flags → List Flags → Flags
  unfolding merge_flags
  merge_all existing [] = existing
  merge_all existing (new ∷ scans) = merge_all (merge_flags existing new) scans
