-- ===== src/Tests/Storage.antt =====
-- Witnesses for the storage writer: a trace whose end is delivered before its start.

use agent_lens_platform.Common.{
  pair_eq, ℕ, ◌+◌, String, ◌≤◌, ◌≡◌, refl, true, Option, none, some, List, [], ◌∷◌,
}
use agent_lens_platform.Common.Table.{list_table}
use agent_lens_platform.Common.Text.{end, text, field}
use agent_lens_platform.Event.{trace_end, span_start, span_end, agent, ok, error, ObsEvent}
use agent_lens_platform.Storage.{status_rank, pending}
use agent_lens_platform.Storage.Merge.{merge_trace}
use agent_lens_platform.Storage.Status.{is_error, merge_trace-status}
use agent_lens_platform.Storage.Times.{IsSpan, merge_trace-IsSpan}
use agent_lens_platform.Storage.Absorb.{stored, Agrees}
use agent_lens_platform.Storage.Redelivery.{merge_trace-redelivered}
use agent_lens_platform.Storage.Spans.{SpanRow, Key, key_of, span_row, write_spans}
use agent_lens_platform.Storage.Spans.Order.{one_start, one_end, start_end_commute, IsEnded}

abbrev ended : ObsEvent
ended = record {
  schema_version = 2;
  emitted_at = 900;
  tenant_id = 1;
  trace_id = 8;
  span_id = some 3;
  parent_span_id = none;
  type = trace_end;
  kind = agent;
  name = "answer";
  status = ok;
  started_at = some 5_000;
  ended_at = some 9_000;
  latency_ms = none;
  input = field "question" (text "why?") end;
  output = end;
  error = none;
  usage = none;
  model = some "mock";
  attributes = end;
  session_id = none;
  user_ref = none;
  environment = "local";
  service = "support";
}

abbrev failing : ObsEvent
failing = record ended {
  emitted_at = 500;
  type = span_end;
  status = error;
  started_at = some 4_000;
  ended_at = none;
}

abbrev events : List ObsEvent
events = ended ∷ failing ∷ []

abbrev digest : ℕ → ℕ → ℕ
digest salt i = i

merged : (merge_trace digest 0 77 8 events none 20).status ≡ error
unfolding merge_trace
merged = refl

sampled : (merge_trace digest 0 77 8 events none 20).eval_status ≡ pending
unfolding merge_trace
sampled = refl

merge_trace-status_example :
    let s = (merge_trace digest 0 77 8 events none 20).status in
    (0 ≤ status_rank s) × (is_error s ≡ true)
merge_trace-status_example = merge_trace-status digest 0 77 8 events none 20

merge_trace-IsSpan_example :
    let row = merge_trace digest 0 77 8 events none 20 in
    IsSpan none none row.started_at row.ended_at events
merge_trace-IsSpan_example = merge_trace-IsSpan digest 0 77 8 events none 20

merge_trace-redelivered_example :
    let row = merge_trace digest 0 77 8 events none 20 in
    Agrees (merge_trace digest 0 99 8 events (some (stored row)) 20) row
merge_trace-redelivered_example = merge_trace-redelivered digest 0 77 99 8 events none 20

abbrev free : Option String → ℕ → ℕ → ℕ
free model prompt completion = prompt + completion

abbrev started_row : SpanRow
started_row = span_row free 40 3 (record ended { type = span_start; ended_at = none })

abbrev ended_row : SpanRow
ended_row = span_row free 41 3 ended

abbrev no_rows : List (Key × SpanRow)
no_rows = []

start_end_commute_example :
    let table = list_table key_of in
    IsEnded ended_row (
      table.find
        (8, 3)
        (write_spans table (one_end ended_row) (write_spans table (one_start started_row) no_rows)))
    × IsEnded ended_row (
        table.find
          (8, 3)
          (write_spans table
            (one_start started_row)
            (write_spans table (one_end ended_row) no_rows)))
unfolding span_row
start_end_commute_example = start_end_commute (list_table key_of) started_row ended_row [] refl refl

-- Two halves of a trace whose calls use different models: the half that is merged first decides.
abbrev with_model : String → ObsEvent
with_model m = record ended { type = span_end; model = some m }

abbrev halves : ObsEvent → ObsEvent → Option String
halves first second =
    let half = merge_trace (λ salt i. i) 0 700 8 (first ∷ []) none 10 in
    (merge_trace (λ salt i. i) 0 800 8 (second ∷ []) (some (stored half)) 10).model

halves_disagree :
    (halves (with_model "small") (with_model "large") ≡ some "small")
    × (halves (with_model "large") (with_model "small") ≡ some "large")
unfolding merge_trace
halves_disagree = (refl, refl)
