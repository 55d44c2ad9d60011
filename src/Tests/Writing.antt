-- ===== src/Tests/Writing.antt =====
-- A batch of two traces through the storage writer, with a message that does not parse.
use agent_lens_platform.Common.{
  ℕ, ◌≡◌, String, none, some, Option, List, [], ◌∷◌, ◌+◌, ◌==◌, nat_eq, pair_eq, if◌then◌else◌,
  filter, map,
}
use agent_lens_platform.Common.Table.{Table, list_table}
use agent_lens_platform.Common.Text.{end}
use agent_lens_platform.Event.{ObsEvent, EventType, trace_start, span_start, SpanKind, SpanStatus}
use agent_lens_platform.Worker.{StreamMessage, Failure}
use agent_lens_platform.Worker.Parse.{Attempt, event_of, failed_by}
use agent_lens_platform.Storage.Spans.{SpanRow, key_of}
use agent_lens_platform.Storage.Spans.Rollups.{Rollup}
use agent_lens_platform.Storage.Process.{TraceRow, trace_key, Database, group_events, write_traces}
use agent_lens_platform.Storage.Groups.{events_of, with_events, write_traces-find}

abbrev spans : Table SpanRow key_of
spans = list_table key_of

abbrev traces : Table TraceRow trace_key
traces = list_table trace_key

abbrev spans_of : ℕ → spans.Rows → List SpanRow
spans_of i rows = map (λ r. r.1) (filter (λ r. r.0.0 == i) rows)

abbrev set_totals : ℕ → Rollup → traces.Rows → traces.Rows
set_totals i totals t =
    map (λ r. if r.0 == i then (r.0, record { row = r.1.row; totals = totals }) else r) t

abbrev digest : ℕ → ℕ → ℕ
digest salt i = i

abbrev free : Option String → ℕ → ℕ → ℕ
free model prompt completion = 0

abbrev event : ℕ → EventType → Option ℕ → ObsEvent
event trace type span = record {
  schema_version = 2;
  emitted_at = 10 + trace;
  tenant_id = 7;
  trace_id = trace;
  span_id = span;
  parent_span_id = none;
  type = type;
  kind = SpanKind.agent;
  name = "reply";
  status = SpanStatus.running;
  started_at = some 10;
  ended_at = none;
  latency_ms = none;
  input = end;
  output = end;
  error = none;
  usage = none;
  model = none;
  attributes = end;
  session_id = none;
  user_ref = none;
  environment = "test";
  service = "support";
}

abbrev events : List ObsEvent
events = event 2 trace_start none ∷ event 1 trace_start none ∷ event 2 span_start (some 20) ∷ []

write_traces-find_example :
    traces.find 2 (
      write_traces spans traces spans_of set_totals digest 0 100 free 99
        (group_events [] events)
        [])
    ≡ with_events spans traces spans_of set_totals digest 0 100 free 99 2 [] (events_of 2 events)
write_traces-find_example =
    write_traces-find spans traces spans_of set_totals digest 0 100 free 99 2 events []

abbrev unreadable : Failure
unreadable = record { error_type = "ValueError"; error_text = "bad"; error_repr = "bad" }

abbrev parse_event : StreamMessage → Attempt ObsEvent
parse_event m =
    if m.message_id == 1
    then failed_by unreadable
    else event_of (event m.message_id trace_start none)

abbrev message : ℕ → StreamMessage
message i = record { message_id = i; fields = ("data", "{}") ∷ []; delivery_count = 1 }

abbrev batch : List StreamMessage
batch = message 1 ∷ message 2 ∷ message 3 ∷ []

abbrev empty : Database spans traces spans_of set_totals digest 0 100 free
empty = record { span_rows = []; trace_rows = [] }
