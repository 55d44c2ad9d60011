-- ===== src/Storage/Process.antt =====
-- `process`, `_write_traces` and `_recompute_rollups` of
-- packages/obs-platform/src/obs_platform/workers/storage_writer.py. The rows of the spans of a trace are
-- read by `spans_of`; `session_raises` is what the database raises in the session, which rolls back.
use agent_lens_platform.Common.{
  ℕ, ◌≡◌, String, Option, none, some, List, [], ◌∷◌, ◌++◌, map, leb, ◌==◌, if◌then◌else◌, is_empty,
  nat_eq, pair_eq,
}
use agent_lens_platform.Common.Table.{Table, upsert_many}
use agent_lens_platform.Event.{ObsEvent}
use agent_lens_platform.Worker.{StreamMessage, Raised, Result, ok, err, BatchOutcome}
use agent_lens_platform.Worker.Parse.{ParsedMessage, Attempt, parse}
use agent_lens_platform.Worker.Settled.{acked, AllSettled}
use agent_lens_platform.Storage.{Row}
use agent_lens_platform.Storage.Merge.{merge_trace}
use agent_lens_platform.Storage.Absorb.{stored}
use agent_lens_platform.Storage.Spans.{SpanRow, key_of, collect, write_spans}
use agent_lens_platform.Storage.Spans.Rollups.{Rollup, rollup}

-- A row of `traces`: the columns that the merge writes, and those of the rollups.
pub record TraceRow : Type 0 where
  pub row : Row
  pub totals : Rollup

abbrev pub trace_key : TraceRow → ℕ
trace_key r = r.row.trace_id

-- `_TRACE_UPDATE_COLUMNS`: all but the key, the tenant and the creation
abbrev pub update_columns : TraceRow → TraceRow → TraceRow
update_columns old new = record old {
  row = record new.row {
    trace_id = old.row.trace_id;
    tenant_id = old.row.tenant_id;
    created_at = old.row.created_at;
  };
}

-- `trace_events.setdefault(event.trace_id, []).append(event)`
abbrev pub TraceEvents : Type 0
TraceEvents = List (ℕ × List ObsEvent)

unfoldable pub add_event : ObsEvent → TraceEvents → TraceEvents
add_event e [] = (e.trace_id, e ∷ []) ∷ []
add_event e ((i, es) ∷ groups) =
    if i == e.trace_id then (i, es ++ e ∷ []) ∷ groups else (i, es) ∷ add_event e groups

unfoldable pub group_events : TraceEvents → List ObsEvent → TraceEvents
unfolding add_event
group_events groups [] = groups
group_events groups (e ∷ es) = group_events (add_event e groups) es

-- `sorted(trace_events)`
abbrev pub insert_group : ℕ × List ObsEvent → TraceEvents → TraceEvents
insert_group g [] = g ∷ []
insert_group g (h ∷ hs) = if leb g.0 h.0 then g ∷ h ∷ hs else h ∷ insert_group g hs

abbrev pub sorted_groups : TraceEvents → TraceEvents
sorted_groups [] = []
sorted_groups (g ∷ gs) = insert_group g (sorted_groups gs)

abbrev pub columns : TraceRow → Row
columns r = r.row

abbrev pub mapped {ℓ κ} : {A : Type ℓ} {B : Type κ} → (A → B) → Option A → Option B
mapped f none = none
mapped f (some a) = some (f a)

module _ (spans : Table SpanRow key_of) (traces : Table TraceRow trace_key)
    (spans_of : ℕ → spans.Rows → List SpanRow) (set_totals : ℕ → Rollup → traces.Rows → traces.Rows)
    (digest : ℕ → ℕ → ℕ) (default_tenant sample_rate : ℕ) (cost : Option String → ℕ → ℕ → ℕ) where
  pub record Database : Type 0 where
    pub span_rows : spans.Rows
    pub trace_rows : traces.Rows

  -- One element of `rows` in `_write_traces`; a new row has no totals yet.
  abbrev pub merged_row : ℕ → traces.Rows → ℕ × List ObsEvent → TraceRow
  merged_row now t (i, events) = record {
    row =
        merge_trace digest default_tenant now i events
          (mapped (λ r. stored r.row) (traces.find i t)) sample_rate;
    totals = rollup [];
  }

  -- `_write_traces`: every row is read before the first is written
  unfoldable pub write_traces : ℕ → TraceEvents → traces.Rows → traces.Rows
  unfolding merge_trace upsert_many rollup
  write_traces now groups t =
      upsert_many traces update_columns (map (merged_row now t) (sorted_groups groups)) t

  -- The update of one trace; the statement groups the rows, so a trace without spans has no group.
  abbrev pub recompute_one : ℕ → List SpanRow → traces.Rows → traces.Rows
  recompute_one i [] t = t
  recompute_one i (s ∷ rows) t = set_totals i (rollup (s ∷ rows)) t

  -- `_recompute_rollups`
  unfoldable pub recompute_rollups : spans.Rows → TraceEvents → traces.Rows → traces.Rows
  unfolding rollup
  recompute_rollups rows [] t = t
  recompute_rollups rows ((i, _) ∷ groups) t =
      recompute_rollups rows groups (recompute_one i (spans_of i rows) t)

  -- The statements of the session.
  unfoldable pub write_batch : ℕ → List ObsEvent → Database → Database
  unfolding write_traces recompute_rollups group_events collect write_spans
  write_batch now events db =
      let groups = group_events [] events in
      let span_rows = write_spans spans (collect cost now events) db.span_rows in
      record {
        span_rows = span_rows;
        trace_rows = recompute_rollups span_rows groups (write_traces now groups db.trace_rows);
      }

  module _ (parse_event : StreamMessage → Attempt ObsEvent)
      (session_raises : Database → Option Raised) where
    abbrev pub commit :
        Database
        → Database
        → List (ParsedMessage ObsEvent)
        → BatchOutcome
        → Option Raised
        → Result BatchOutcome × Database
    commit before after items outcome none = (ok (acked items outcome), after)
    commit before after items outcome (some e) = (err e, before)

    abbrev pub process_parsed :
        ℕ → List (ParsedMessage ObsEvent) × BatchOutcome → Database → Result BatchOutcome × Database
    process_parsed now (parsed, outcome) db =
        let after = write_batch now (map (λ item. item.event) parsed) db in
        if is_empty parsed
        then (ok outcome, db)
        else commit db after parsed outcome (session_raises after)

    -- `process`
    unfoldable pub process : ℕ → List StreamMessage → Database → Result BatchOutcome × Database
    unfolding parse write_batch
    process now messages db = process_parsed now (parse parse_event messages) db

    -- Where the batch raises, the database is as it was; else every message is settled.
    abbrev pub Settles : List StreamMessage → Database → Result BatchOutcome × Database → Type 0
    Settles ms before (ok outcome, after) = AllSettled ms outcome
    Settles ms before (err e, after) = after ≡ before
