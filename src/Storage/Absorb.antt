-- ===== src/Storage/Absorb.antt =====
-- What a merged row keeps of the events that it was merged from, `_merge_trace` of
-- packages/obs-platform/src/obs_platform/workers/storage_writer.py.
use agent_lens_platform.Common.{
  ℕ, max, ◌≤◌, ◌≡◌, refl, ◌∙◌, true, false, Option, none, some, List, [], ◌∷◌, All, arith,
}
use agent_lens_platform.Event.{
  EventType, trace_start, trace_end, span_start, span_end, ObsEvent, SpanStatus, running, ok, error,
}
use agent_lens_platform.Storage.{
  Stamp, Trace, Row, earliest, latest, merge_status, merge_event, is_end,
}
use agent_lens_platform.Storage.Merge.{merge_events}
use agent_lens_platform.Storage.Status.{is_error}
use agent_lens_platform.Storage.Times.{Reaches, Extends}

-- A row that was written and read back; the database returns aware stamps.
abbrev pub stamp : Option ℕ → Option Stamp
stamp none = none
stamp (some t) = some (record { is_aware = true; micros = t })

abbrev pub stored : Row → Trace
stored row = record {
  tenant_id = row.tenant_id;
  name = row.name;
  service = row.service;
  environment = row.environment;
  status = row.status;
  started_at = stamp row.started_at;
  ended_at = stamp row.ended_at;
  latency_ms = row.latency_ms;
  input = row.input;
  output = row.output;
  attributes = row.attributes;
  session_id = row.session_id;
  user_ref = row.user_ref;
  model = row.model;
  schema_version = row.schema_version;
  eval_status = row.eval_status;
  created_at = record { is_aware = true; micros = row.created_at };
}

-- An event that a row has absorbed: merging it again leaves these columns alone.
pub record Absorbed (row : Row) (e : ObsEvent) : Type 0 where
  pub status : merge_status e.type e.status row.status ≡ row.status
  pub started_at : earliest row.started_at e.started_at ≡ row.started_at
  pub ended_at : latest row.ended_at e.ended_at ≡ row.ended_at
  pub schema_version : max row.schema_version e.schema_version ≡ row.schema_version

-- Two rows that agree on the columns that the merge accumulates.
pub record Agrees (a b : Row) : Type 0 where
  pub trace_id : a.trace_id ≡ b.trace_id
  pub status : a.status ≡ b.status
  pub started_at : a.started_at ≡ b.started_at
  pub ended_at : a.ended_at ≡ b.ended_at
  pub schema_version : a.schema_version ≡ b.schema_version
  pub eval_status : a.eval_status ≡ b.eval_status
  pub created_at : a.created_at ≡ b.created_at

pub Absorbed-Agrees : (a b : Row) (e : ObsEvent) → Agrees a b → Absorbed b e → Absorbed a e
Absorbed-Agrees a b e same h = record {
  status = cc (same.status, h.status);
  started_at = cc (same.started_at, h.started_at);
  ended_at = cc (same.ended_at, h.ended_at);
  schema_version = cc (same.schema_version, h.schema_version);
}

pub merge_event-Absorbed :
    (a b : Row) (e : ObsEvent) → Agrees a b → Absorbed b e → Agrees (merge_event a e) b
unfolding merge_event
merge_event-Absorbed a b e same h =
    let again = Absorbed-Agrees a b e same h in
    record {
      trace_id = same.trace_id;
      status = again.status ∙ same.status;
      started_at = again.started_at ∙ same.started_at;
      ended_at = again.ended_at ∙ same.ended_at;
      schema_version = again.schema_version ∙ same.schema_version;
      eval_status = same.eval_status;
      created_at = same.created_at;
    }

pub merge_events-Absorbed :
    (a b : Row) (es : List ObsEvent)
    → Agrees a b
    → All (Absorbed b) es
    → Agrees (merge_events a es) b
unfolding merge_events
merge_events-Absorbed a b [] same h = same
merge_events-Absorbed a b (e ∷ es) same h =
    merge_events-Absorbed (merge_event a e) b es (merge_event-Absorbed a b e same h.0) h.1

-- What the first merge leaves behind for each of its events.
abbrev pub Settled : SpanStatus → ObsEvent → Type 0
Settled s e = merge_status e.type e.status s ≡ s

pub settle_one :
    (t : EventType) (incoming s : SpanStatus)
    → (is_error s ≡ false → is_error incoming ≡ false)
    → (s ≡ running → is_end t ≡ false)
    → merge_status t incoming s ≡ s
unfolding merge_status
settle_one trace_end incoming running h k = absurd (cc (k refl))
settle_one trace_end incoming ok h k = ground (arith, h refl)
settle_one trace_end incoming error h k = ground arith
settle_one trace_start incoming s h k = ground arith
settle_one span_start incoming s h k = ground arith
settle_one span_end incoming s h k = ground arith

pub merge_events-schema :
    (row : Row) (es : List ObsEvent)
    → let row' = merge_events row es in
      (row.schema_version ≤ row'.schema_version)
      × All (λ e. e.schema_version ≤ row'.schema_version) es
unfolding merge_events
merge_events-schema row [] = (omega arith, tt)
merge_events-schema row (e ∷ es) =
    let (grows, rest) = merge_events-schema (merge_event row e) es in
    (omega arith, (omega arith, rest))

pub earliest_absorbs : (a b : Option ℕ) → Reaches a b → earliest a b ≡ a
unfolding earliest
earliest_absorbs a none h = refl
earliest_absorbs none (some t) h = absurd h
earliest_absorbs (some s) (some t) h = ground arith

pub latest_absorbs : (a b : Option ℕ) → Extends a b → latest a b ≡ a
unfolding latest
latest_absorbs a none h = refl
latest_absorbs none (some t) h = absurd h
latest_absorbs (some s) (some t) h = ground arith

pub merge_events-keeps :
    (row : Row) (es : List ObsEvent)
    → let row' = merge_events row es in
      (row'.trace_id ≡ row.trace_id)
      × (row'.eval_status ≡ row.eval_status)
      × (row'.created_at ≡ row.created_at)
unfolding merge_events
merge_events-keeps row [] = (refl, refl, refl)
merge_events-keeps row (e ∷ es) = merge_events-keeps (merge_event row e) es
