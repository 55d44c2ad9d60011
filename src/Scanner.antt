-- ===== src/Scanner.antt =====
-- packages/obs-platform/src/obs_platform/workers/guardrail_scanner.py: a batch of events is scanned and
-- what it finds is written in one session. `scan` is `scan_event` of the engine, or what it raises;
-- `session_raises` is what the database raises in the session, which rolls back.
pub mod Process
pub mod Settles
pub mod Verdict
use agent_lens_platform.Common.{
  ℕ, String, Bool, ◌&&◌, ◌||◌, Option, none, some, List, [], ◌∷◌, ◌++◌, ◌⊎◌, inl, inr, Eq, nat_eq,
  string_eq, both_eq, leb, ltb, ◌==◌, if◌then◌else◌, max, get_or,
}
use agent_lens_platform.Common.Text.{Fields, field, prefix}
use agent_lens_platform.Severity.{Severity, rank}
use agent_lens_platform.Event.{ObsEvent}
use agent_lens_platform.Alerts.{alert_eq}
use agent_lens_platform.Worker.{StreamMessage, Failure, DeadEntry, BatchOutcome}
use agent_lens_platform.Worker.Parse.{ParsedMessage}
use agent_lens_platform.Engine.Scan.{Finding, ScanOutcome, Flags, no_flags, max_severity_of}
use agent_lens_platform.Engine.Flags.{merge_flags}

-- `GuardrailFinding`, and its unique constraint
pub record FindingRow : Type 0 where
  pub trace_id : ℕ
  pub span_id : ℕ
  pub tenant_id : ℕ
  pub detector : String
  pub finding_type : String
  pub severity : Severity
  pub score : ℕ
  pub field : String
  pub excerpt : String
  pub start_offset : ℕ
  pub end_offset : ℕ
  pub created_at : ℕ

abbrev pub FindingKey : Type 0
FindingKey = (ℕ × ℕ) × ((String × String) × (String × ℕ))

instance abbrev pub finding_eq : Eq FindingKey
finding_eq =
    both_eq (both_eq nat_eq nat_eq)
      (both_eq (both_eq string_eq string_eq) (both_eq string_eq nat_eq))

abbrev pub finding_key : FindingRow → FindingKey
finding_key r = ((r.trace_id, r.span_id), ((r.detector, r.finding_type), (r.field, r.start_offset)))

-- The columns of `Trace` that the scanner reads and writes.
pub record TraceRow : Type 0 where
  pub trace_id : ℕ
  pub tenant_id : ℕ
  pub guardrail_status : String
  pub guardrail_flags : Flags
  pub risk_score : ℕ
  pub max_severity : Option Severity
  pub input : Fields
  pub output : Fields
  pub attributes : Fields
  pub created_at : ℕ
  pub updated_at : ℕ

abbrev pub trace_key : TraceRow → ℕ
trace_key r = r.trace_id

-- `as_row`; 0 stands for the span id "" of a trace event
abbrev pub as_row : ℕ → ℕ → ℕ → Finding → FindingRow
as_row now trace_id tenant_id f = record {
  trace_id = trace_id;
  span_id = get_or f.span_id 0;
  tenant_id = tenant_id;
  detector = f.detector;
  finding_type = f.finding_type;
  severity = f.severity;
  score = f.score;
  field = prefix 120 f.field;
  excerpt = prefix 500 f.excerpt;
  start_offset = f.start_offset;
  end_offset = f.end_offset;
  created_at = now;
}

-- `update_columns`
abbrev pub update_trace : TraceRow → TraceRow → TraceRow
update_trace old new = record old {
  guardrail_status = new.guardrail_status;
  guardrail_flags = new.guardrail_flags;
  risk_score = new.risk_score;
  max_severity = new.max_severity;
  updated_at = new.updated_at;
}

-- What the loop of `_persist` gathers.
pub record Gathered : Type 0 where
  pub findings : List Finding
  pub combined : Flags
  pub risk : ℕ
  pub severities : List Severity

abbrev pub with_severity : List Severity → Option Severity → List Severity
with_severity severities none = severities
with_severity severities (some s) = severities ++ s ∷ []

abbrev pub highest : List Severity → Option Severity
highest [] = none
highest (s ∷ severities) = some (max_severity_of (s ∷ severities))

-- `merged_severity`
abbrev pub merged_severity : List Severity → Option Severity → Option Severity
merged_severity severities none = highest severities
merged_severity severities (some old) = some (max_severity_of (severities ++ old ∷ []))

abbrev pub stored_flags : Option TraceRow → Flags
stored_flags none = no_flags
stored_flags (some row) = row.guardrail_flags

abbrev pub stored_risk : Option TraceRow → ℕ
stored_risk none = 0
stored_risk (some row) = row.risk_score

abbrev pub stored_severity : Option TraceRow → Option Severity
stored_severity none = none
stored_severity (some row) = row.max_severity

-- `max(serious, key=(rank, score))`: the first of the highest
unfoldable pub most_serious : Finding → List Finding → Finding
most_serious best [] = best
most_serious best (f ∷ fs) =
    most_serious
      (if ltb (rank best.severity) (rank f.severity)
          || (rank best.severity == rank f.severity && ltb best.score f.score)
        then f
        else best)
      fs

module _ (text_before : String → String → Bool) where
  unfoldable pub gather : Gathered → List (ObsEvent × ScanOutcome) → Gathered
  unfolding merge_flags
  gather g [] = g
  gather g ((event, result) ∷ results) =
      gather
        (record {
          findings = g.findings ++ result.findings;
          combined = merge_flags text_before g.combined result.flags;
          risk = max g.risk result.risk_score;
          severities = with_severity g.severities result.max_severity;
        })
        results

abbrev pub nothing_gathered : Gathered
nothing_gathered = record { findings = []; combined = no_flags; risk = 0; severities = [] }

-- What a scan of one event leaves: its outcome, or what it raised.
abbrev pub Scanned : Type 0
Scanned = Failure ⊎ ScanOutcome

-- `per_trace.setdefault(trace_id, []).append(...)`
abbrev pub PerTrace : Type 0
PerTrace = List (ℕ × List (ObsEvent × ScanOutcome))

unfoldable pub add_result : ObsEvent → ScanOutcome → PerTrace → PerTrace
add_result event result [] = (event.trace_id, (event, result) ∷ []) ∷ []
add_result event result ((i, results) ∷ per_trace) =
    if i == event.trace_id
    then (i, results ++ (event, result) ∷ []) ∷ per_trace
    else (i, results) ∷ add_result event result per_trace

-- `sorted(per_trace)`
abbrev pub insert_trace : ℕ × List (ObsEvent × ScanOutcome) → PerTrace → PerTrace
insert_trace t [] = t ∷ []
insert_trace t (u ∷ us) = if leb t.0 u.0 then t ∷ u ∷ us else u ∷ insert_trace t us

abbrev pub sorted_traces : PerTrace → PerTrace
sorted_traces [] = []
sorted_traces (t ∷ ts) = insert_trace t (sorted_traces ts)

-- The variables of the first loop of `process`.
pub record Scanning : Type 0 where
  pub per_trace : PerTrace
  pub scannable : List (ParsedMessage ObsEvent)
  pub outcome : BatchOutcome

abbrev pub dead_entry : StreamMessage → Failure → DeadEntry
dead_entry m f = record {
  message = m;
  error_type = f.error_type;
  error_message = prefix 500 f.error_text;
}

abbrev pub scan_one : ParsedMessage ObsEvent → Scanned → Scanning → Scanning
scan_one item (inl f) s = record s {
  outcome = record s.outcome { dead = s.outcome.dead ++ dead_entry item.message f ∷ [] };
}
scan_one item (inr result) s = record s {
  per_trace = add_result item.event result s.per_trace;
  scannable = s.scannable ++ item ∷ [];
}

unfoldable pub scan_items :
    (ObsEvent → Scanned) → List (ParsedMessage ObsEvent) → Scanning → Scanning
unfolding add_result
scan_items scan [] s = s
scan_items scan (item ∷ items) s = scan_items scan items (scan_one item (scan item.event) s)
