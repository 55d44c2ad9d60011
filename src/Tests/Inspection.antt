-- ===== src/Tests/Inspection.antt =====
-- Events through the guardrail engine and its worker: a text with a mail address, a clean one, and one
-- that the detectors cannot read.
use mathlib.Core.List.{Permᴰ}
use agent_lens_platform.Common.{
  ℕ, ◌≤◌, ◌≡◌, refl, String, Bool, true, false, none, some, Option, List, [], ◌∷◌, inl, inr, length,
  All, ltb, nat_eq, get_or, ◌==◌, if◌then◌else◌,
}
use agent_lens_platform.Common.Table.{Table, list_table}
use agent_lens_platform.Common.Text.{Json, text, arr, nil, cons, int, Fields, end, field, chars}
use agent_lens_platform.Severity.{medium, high, critical, of_text, at_least}
use agent_lens_platform.Event.{ObsEvent, span_start, SpanKind, SpanStatus}
use agent_lens_platform.Alerts.{Alert, alert_key, alert_eq, raise_alert}
use agent_lens_platform.Worker.{StreamMessage, Failure}
use agent_lens_platform.Worker.Parse.{Attempt, event_of, failed_by}
use agent_lens_platform.Guardrails.{Pattern}
use agent_lens_platform.Guardrails.Redact.{redact_text}
use agent_lens_platform.Engine.Texts.{iter_text_fields, iter_text_fields-Fits}
use agent_lens_platform.Engine.Scan.{Finding, ScanOutcome, summarize, Flags, no_flags}
use agent_lens_platform.Engine.Flags.{merge_all, merge_flags}
use agent_lens_platform.Engine.Order.{view, merge_all-perm}
use agent_lens_platform.Engine.Risk.{summarize-risk}
use agent_lens_platform.Scanner.{
  FindingRow, finding_key, finding_eq, TraceRow, trace_key, Scanned, gather, most_serious,
}
use agent_lens_platform.Scanner.Process.{Database, persist, is_flagged}
use agent_lens_platform.Scanner.Settles.{Settles}
use agent_lens_platform.Scanner.Verdict.{flags_of, persist-view}

abbrev mail : Pattern
mail = record {
  name = "EMAIL_ADDRESS";
  severity = medium;
  score = 950;
  spans = λ s. (3, (8, "a@b.c")) ∷ [];
  validator = λ s. true;
  mask = λ s. "a***@b.c";
}

redacted_mail : (redact_text 200 "to a@b.c!" (mail ∷ [])).0 ≡ "to a***@b.c!"
unfolding redact_text
redacted_mail = refl

abbrev in_order : String → String → Bool
in_order s t = ltb (chars s) (chars t)

abbrev index_text : ℕ → String
index_text i = "i"

abbrev payload : Fields
payload =
    field "subject" (text "hello") (field "tags" (arr (cons (text "") (cons (text "vip") nil))) end)

iter_text_fields-Fits_example :
    let texts = iter_text_fields (λ s. ltb (chars s) 1) index_text payload "input" in
    (length texts ≤ 40) × All (λ p. chars p.1 ≤ 20_000) texts
iter_text_fields-Fits_example =
    iter_text_fields-Fits (λ s. ltb (chars s) 1) index_text payload "input"

abbrev found : Finding
found = record {
  detector = "pii";
  finding_type = "EMAIL_ADDRESS";
  severity = medium;
  score = 9_500;
  field = "input.subject";
  excerpt = "to a***@b.c!";
  start_offset = 3;
  end_offset = 8;
  span_id = none;
}

abbrev attack : Finding
attack = record {
  detector = "injection";
  finding_type = "TOOL_ABUSE";
  severity = critical;
  score = 9_200;
  field = "input.subject";
  excerpt = "skip the approval";
  start_offset = 0;
  end_offset = 17;
  span_id = none;
}

abbrev engines : String × String
engines = ("builtin", "lexical")

summarize-risk_example :
    let risk = (summarize in_order engines (found ∷ attack ∷ [])).risk_score in
    (risk ≤ 100)
    × (((35 ≤ risk) × ((95 ≤ risk) × Unit {0})) × ((found ∷ attack ∷ []) ≡ [] → risk ≡ 0))
summarize-risk_example = summarize-risk in_order engines (found ∷ attack ∷ [])

abbrev scans : List Flags
scans =
    (summarize in_order engines (found ∷ [])).flags
    ∷ (summarize in_order engines (found ∷ attack ∷ [])).flags
    ∷ []

abbrev swapped_scans : List Flags
swapped_scans =
    (summarize in_order engines (found ∷ attack ∷ [])).flags
    ∷ (summarize in_order engines (found ∷ [])).flags
    ∷ []

merge_all-perm_example :
    view (merge_all in_order no_flags scans) ≡ view (merge_all in_order no_flags swapped_scans)
merge_all-perm_example =
    merge_all-perm in_order no_flags scans swapped_scans ∣ Permᴰ.swap refl refl ∣₁

abbrev events_table : Table FindingRow finding_key
events_table = list_table finding_key

abbrev traces : Table TraceRow trace_key
traces = list_table trace_key

abbrev alerts : Table Alert alert_key
alerts = list_table alert_key

abbrev id_text : ℕ → String
id_text i = "50"

abbrev as_is : String → String
as_is s = s

abbrev one_json : ℕ → Json
one_json n = int false n

abbrev Tables : Type 0
Tables = Database events_table traces alerts in_order id_text as_is one_json high

abbrev nothing_stored : Tables
nothing_stored = record { finding_rows = []; trace_rows = []; alert_rows = [] }

abbrev event : ObsEvent
event = record {
  schema_version = 2;
  emitted_at = 10;
  tenant_id = 7;
  trace_id = 50;
  span_id = some 60;
  parent_span_id = none;
  type = span_start;
  kind = SpanKind.llm;
  name = "reply";
  status = SpanStatus.running;
  started_at = none;
  ended_at = none;
  latency_ms = none;
  input = payload;
  output = end;
  error = none;
  usage = none;
  model = none;
  attributes = end;
  session_id = none;
  user_ref = none;
  environment = "test";
  service = "support";
}

abbrev unreadable : Failure
unreadable = record { error_type = "ValueError"; error_text = "bad"; error_repr = "bad" }

abbrev message : ℕ → StreamMessage
message i = record { message_id = i; fields = ("data", "{}") ∷ []; delivery_count = 1 }

-- Message 1 does not parse, and the scan of the event of message 2 raises.
abbrev parse_event : StreamMessage → Attempt ObsEvent
parse_event m =
    if m.message_id == 1
    then failed_by unreadable
    else if m.message_id == 2
    then event_of (record event { emitted_at = 11 })
    else event_of event

abbrev scan : ObsEvent → Scanned
scan e =
    if e.emitted_at == 10
    then inr (summarize in_order engines (found ∷ attack ∷ []))
    else inl unreadable

abbrev batch : List StreamMessage
batch = message 1 ∷ message 2 ∷ message 3 ∷ []

abbrev results : List (ObsEvent × ScanOutcome)
results =
    (event, summarize in_order engines (found ∷ []))
    ∷ (event, summarize in_order engines (attack ∷ []))
    ∷ []

abbrev persisted : Option Tables
persisted =
    persist events_table traces alerts in_order id_text as_is one_json high 99 50 results
      nothing_stored

persist-view_example :
    (row : TraceRow) × ((traces.find 50 (get_or persisted nothing_stored).trace_rows ≡ some row)
      × (let each_merged = merge_all in_order no_flags (flags_of results) in
          (row.guardrail_flags ≡ merge_flags in_order no_flags each_merged)
          × ((view row.guardrail_flags ≡ view each_merged)
              × ((row.guardrail_flags.injection ≡ each_merged.injection)
                  × ((row.guardrail_flags.engines ≡ each_merged.engines)
                      × (row.guardrail_status ≡ is_flagged row.guardrail_flags.findings))))))
unfolding persist gather merge_flags summarize raise_alert of_text most_serious at_least
persist-view_example =
    persist-view events_table traces alerts in_order id_text as_is one_json high 99 50 results
      nothing_stored (get_or persisted nothing_stored) refl
