-- ===== src/Engine/Inspect.antt =====
-- `masked_excerpt` and `scan_event` of packages/obs-platform/src/obs_platform/guardrails/engine.py.
-- `analyze` is the PII engine's and `detect` the injection detector's scan; `patterns` are those that
-- the redaction applies; `upper` is `str.upper`.
use Prim.Native.Char.{code}
use agent_lens_platform.Common.{
  ℕ, ◌+◌, ◌-◌, String, Bool, true, false, Option, List, [], ◌∷◌, ◌++◌, ltb, ◌==◌, if◌then◌else◌,
  min, map,
}
use agent_lens_platform.Common.Text.{is_text, join, slice, prefix, chars}
use agent_lens_platform.Event.{EventType, trace_start, trace_end, span_start, span_end, ObsEvent}
use agent_lens_platform.Guardrails.{Match, Pattern}
use agent_lens_platform.Guardrails.Redact.{redact_text}
use agent_lens_platform.Engine.Texts.{iter_text_fields}
use agent_lens_platform.Engine.Scan.{
  excerpt_context, Finding, InjectionResult, ScanOutcome, summarize,
}

-- `text.replace("\n", " ")`
abbrev pub one_line : String → String
one_line String.[] = String.[]
one_line (String.◌∷◌ c s) =
    if code c == 10 then join " " (one_line s) else String.◌∷◌ c (one_line s)

-- `redact_pii`
abbrev pub redact_pii : List Pattern → String → String
redact_pii patterns text = (redact_text 200 text patterns).0

-- `masked_excerpt`
unfoldable pub masked_excerpt : List Pattern → String → Match → String
unfolding slice join redact_text
masked_excerpt patterns text m =
    let start = m.start - excerpt_context in
    let end = min (chars text) (m.end + excerpt_context) in
    let before = join (if ltb 0 start then "..." else "") (slice start m.start text) in
    let after = join (slice m.end end text) (if ltb end (chars text) then "..." else "") in
    redact_pii patterns (one_line (join before (join m.masked after)))

module _ (patterns : List Pattern) (analyze : String → List Match)
    (detect : String → InjectionResult) (upper : String → String) (is_blank : String → Bool)
    (index_text : ℕ → String) (text_before : String → String → Bool) where
  -- `_scan_pii`
  abbrev pub pii_finding : String → String → Option ℕ → Match → Finding
  pii_finding text path span m = record {
    detector = "pii";
    finding_type = m.pattern;
    severity = m.severity;
    score = m.score;
    field = path;
    excerpt = masked_excerpt patterns text m;
    start_offset = m.start;
    end_offset = m.end;
    span_id = span;
  }

  abbrev pub scan_pii : Option ℕ → String × String → List Finding
  scan_pii span (path, text) = map (pii_finding text path span) (analyze text)

  abbrev pub or_default : String → String → String
  or_default s d = if is_text s then s else d

  abbrev pub injection_finding : String → String → Option ℕ → InjectionResult → List Finding
  injection_finding text path span result =
      if result.detected
      then record {
        detector = "injection";
        finding_type = or_default (upper result.category) "PROMPT_INJECTION";
        severity = result.severity;
        score = result.score;
        field = path;
        excerpt = one_line (redact_pii patterns (prefix 280 text));
        start_offset = 0;
        end_offset = min (chars text) 280;
        span_id = span;
      }
        ∷ []
      else []

  -- `_scan_injection`, as the findings that `scan_event` appends
  abbrev pub scan_injection : Option ℕ → String × String → List Finding
  scan_injection span (path, text) = injection_finding text path span (detect text)

  abbrev pub each {ℓ} : {A : Type ℓ} → (A → List Finding) → List A → List Finding
  each f [] = []
  each f (x ∷ xs) = f x ++ each f xs

  abbrev pub carries_request : EventType → Bool
  carries_request trace_start = true
  carries_request span_start = true
  carries_request trace_end = true
  carries_request span_end = false

  abbrev pub findings_of : ObsEvent → List Finding
  findings_of event =
      let inputs = iter_text_fields is_blank index_text event.input "input" in
      let outputs = iter_text_fields is_blank index_text event.output "output" in
      each (scan_pii event.span_id) (inputs ++ outputs)
      ++ (if carries_request event.type then each (scan_injection event.span_id) inputs else [])

  -- `scan_event`
  unfoldable pub scan_event : String × String → ObsEvent → ScanOutcome
  unfolding iter_text_fields masked_excerpt redact_text prefix summarize join
  scan_event engines event = summarize text_before engines (findings_of event)
