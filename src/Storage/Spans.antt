-- ===== src/Storage/Spans.antt =====
-- The span rows of packages/obs-platform/src/obs_platform/workers/storage_writer.py: `_span_row`, the
-- loop of `process` that sorts a batch into started and finished spans, the writes of those rows,
-- and the columns of `_recompute_rollups`. The price of a call is the argument `cost`.
pub mod Order
pub mod Rollups
use agent_lens_platform.Common.{
  ℕ, String, Bool, false, not, ◌&&◌, ◌||◌, Option, none, some, List, [], ◌∷◌, map, ltb, leb, ◌==◌,
  get_or, pair_eq, filter, if◌then◌else◌,
}
use agent_lens_platform.Common.Table.{Table, insert_ignore, upsert_many}
use agent_lens_platform.Common.Text.{Fields, prefix}
use agent_lens_platform.Event.{
  EventType, span_start, span_end, SpanKind, SpanStatus, Usage, ObsEvent, computed_latency_ms,
}

-- A row of the `spans` table.
pub record SpanRow : Type 0 where
  pub trace_id : ℕ
  pub span_id : ℕ
  pub parent_span_id : Option ℕ
  pub tenant_id : ℕ
  pub kind : SpanKind
  pub name : String
  pub status : SpanStatus
  pub started_at : Option ℕ
  pub ended_at : Option ℕ
  pub latency_ms : Option ℕ
  pub input : Fields
  pub output : Fields
  pub error : Option Fields
  pub attributes : Fields
  pub prompt_tokens : ℕ
  pub completion_tokens : ℕ
  pub total_tokens : ℕ
  pub cost_micros : ℕ
  pub model : Option String
  pub schema_version : ℕ
  pub created_at : ℕ

abbrev pub Key : Type 0
Key = ℕ × ℕ

abbrev pub key_of : SpanRow → Key
key_of row = (row.trace_id, row.span_id)

abbrev pub no_usage : Usage
no_usage = record { prompt_tokens = 0; completion_tokens = 0; total_tokens = 0 }

-- `_span_row`, of an event whose span id is `span_id`, at the time `now`
unfoldable pub span_row : (Option String → ℕ → ℕ → ℕ) → ℕ → ℕ → ObsEvent → SpanRow
unfolding computed_latency_ms
span_row cost now span_id e =
    let usage = get_or e.usage no_usage in
    record {
      trace_id = e.trace_id;
      span_id = span_id;
      parent_span_id = e.parent_span_id;
      tenant_id = e.tenant_id;
      kind = e.kind;
      name = prefix 200 e.name;
      status = e.status;
      started_at = e.started_at;
      ended_at = e.ended_at;
      latency_ms = computed_latency_ms e;
      input = e.input;
      output = e.output;
      error = e.error;
      attributes = e.attributes;
      prompt_tokens = usage.prompt_tokens;
      completion_tokens = usage.completion_tokens;
      total_tokens = usage.total_tokens;
      cost_micros = cost e.model usage.prompt_tokens usage.completion_tokens;
      model = e.model;
      schema_version = e.schema_version;
      created_at = now;
    }

-- A dict from span keys to rows, in insertion order: `key in d`, `d[key] = row`, `d.pop(key, None)`.
abbrev pub Spans : Type 0
Spans = List (Key × SpanRow)

abbrev pub holds : Key → Spans → Bool
holds k [] = false
holds k ((j, _) ∷ d) = pair_eq.beq j k || holds k d

abbrev pub assign : Key → SpanRow → Spans → Spans
assign k r [] = (k, r) ∷ []
assign k r ((j, s) ∷ d) = if pair_eq.beq j k then (j, r) ∷ d else (j, s) ∷ assign k r d

abbrev pub discard : Key → Spans → Spans
discard k = filter (λ entry. not (pair_eq.beq entry.0 k))

-- The two dicts of a batch: `span_starts` and `span_ends`.
pub record Batch : Type 0 where
  pub starts : Spans
  pub ends : Spans

abbrev pub sort_span : EventType → Key → SpanRow → Batch → Batch
sort_span span_end k row b = record b { ends = assign k row b.ends }
sort_span span_start k row b =
    if holds k b.ends then b else record b { starts = assign k row b.starts }
sort_span _ k row b = b

module _ (cost : Option String → ℕ → ℕ → ℕ) (now : ℕ) where
  abbrev pub collect_one : ObsEvent → Batch → Batch
  collect_one e b = elim e.span_id [
    | none ↦ b
    | some i ↦ sort_span e.type (e.trace_id, i) (span_row cost now i e) b
  ]

  unfoldable pub collect_from : Batch → List ObsEvent → Batch
  unfolding span_row
  collect_from b [] = b
  collect_from b (e ∷ es) = collect_from (collect_one e b) es

-- `for key in span_ends: span_starts.pop(key, None)`
unfoldable pub drop_finished : Spans → Spans → Spans
drop_finished starts [] = starts
drop_finished starts ((k, _) ∷ ends) = drop_finished (discard k starts) ends

unfoldable pub collect : (Option String → ℕ → ℕ → ℕ) → ℕ → List ObsEvent → Batch
unfolding collect_from drop_finished
collect cost now events =
    let b = collect_from cost now (record { starts = []; ends = [] }) events in
    record b { starts = drop_finished b.starts b.ends }

-- `[spans[k] for k in sorted(spans)]`
abbrev pub key_leb : Key → Key → Bool
key_leb (a, b) (c, d) = ltb a c || (a == c && leb b d)

abbrev pub place : Key × SpanRow → Spans → Spans
place x [] = x ∷ []
place x (y ∷ ys) = let rest = y ∷ place x ys in if key_leb x.0 y.0 then x ∷ y ∷ ys else rest

abbrev pub sorted_rows : Spans → Spans
sorted_rows [] = []
sorted_rows (x ∷ xs) = place x (sorted_rows xs)

abbrev pub rows_of : Spans → List SpanRow
rows_of d = map (λ x. x.1) (sorted_rows d)

-- `_SPAN_END_COLUMNS`: the finished span's columns, all but the keys, the tenant and the creation.
abbrev pub end_columns : SpanRow → SpanRow → SpanRow
end_columns old new = record new {
  trace_id = old.trace_id;
  span_id = old.span_id;
  tenant_id = old.tenant_id;
  created_at = old.created_at;
}

-- The two writes of `process` to the `spans` table.
unfoldable pub write_spans : (table : Table SpanRow key_of) → Batch → table.Rows → table.Rows
unfolding insert_ignore upsert_many
write_spans table b t =
    upsert_many table end_columns (rows_of b.ends) (insert_ignore table (rows_of b.starts) t)
