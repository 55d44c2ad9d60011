-- ===== src/Engine/Risk.antt =====
-- The risk score of packages/obs-platform/src/obs_platform/guardrails/engine.py.
use agent_lens_platform.Common.{
  ℕ, ◌+◌, ◌-◌, ◌*◌, ◌≤◌, ◌≡◌, refl, String, Bool, List, [], ◌∷◌, All, arith, min, map, length,
  both_eq, string_eq,
}
use agent_lens_platform.Severity.{Severity, rank, text}
use agent_lens_platform.Severity.Max.{Covers, max_of_highest}
use agent_lens_platform.Engine.Scan.{
  Finding, severity_base, additional_type_weight, max_severity_of, distinct, summarize,
}
use agent_lens_platform.Engine.Order.{of_text-text}

severity_base_mono : (a b : Severity) → rank a ≤ rank b → severity_base a ≤ severity_base b
severity_base_mono a b h = ground arith

severity_base-le : (a : Severity) → severity_base a ≤ 95
severity_base-le a = ground arith

All-Covers :
    (worst : Severity) (fs : List Finding)
    → All (Covers worst) (map text (map (λ f. f.severity) fs))
    → All (λ f. severity_base f.severity ≤ severity_base worst) fs
All-Covers worst [] h = tt
All-Covers worst (f ∷ fs) h = (
  severity_base_mono f.severity worst (h.0 f.severity (of_text-text f.severity)),
  All-Covers worst fs h.1,
)

All-le :
    (n m : ℕ) (fs : List Finding)
    → n ≤ m
    → All (λ f. severity_base f.severity ≤ n) fs
    → All (λ f. severity_base f.severity ≤ m) fs
All-le n m [] le h = tt
All-le n m (f ∷ fs) le h = (omega (arith, h.0, le), All-le n m fs le h.1)

nonempty : (f : Finding) (fs : List Finding) → (f ∷ fs) ≡ [] → ⊥
nonempty f fs h = cc

-- The risk score of a scan is at most 100 and at least the base of every finding, and the score of
-- no findings is zero.
pub summarize-risk :
    (text_before : String → String → Bool) (engines : String × String) (fs : List Finding)
    → let risk = (summarize text_before engines fs).risk_score in
      (risk ≤ 100) × (All (λ f. severity_base f.severity ≤ risk) fs × (fs ≡ [] → risk ≡ 0))
unfolding summarize
summarize-risk text_before engines [] = (omega arith, (tt, λ h. refl))
summarize-risk text_before engines (f ∷ fs) =
    let worst = max_severity_of (map (λ f. f.severity) (f ∷ fs)) in
    let types =
      length (
        distinct (both_eq string_eq string_eq)
          (map (λ f. (f.detector, f.finding_type)) (f ∷ fs))) in
    let risk = min 100 (severity_base worst + additional_type_weight * (types - 1)) in
    (
      omega arith,
      (
        All-le (severity_base worst) risk (f ∷ fs) (omega (arith, severity_base-le worst)) (
            All-Covers worst (f ∷ fs)
              (max_of_highest (map text (map (λ f. f.severity) (f ∷ fs)))).0),
        λ h. absurd (nonempty f fs h),
      ),
    )
