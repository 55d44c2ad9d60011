-- ===== src/Storage.antt =====
-- packages/obs-platform/src/obs_platform/workers/storage_writer.py: how a batch of events becomes
-- trace rows. `merge_trace` is `_merge_trace`; its loop body is `merge_event`.
pub mod Merge
pub mod Status
pub mod Times
pub mod Absorb
pub mod Redelivery
pub mod Spans
pub mod Process
pub mod Groups
use agent_lens_platform.Common.{
  ℕ, String, Bool, true, false, not, ◌&&◌, ◌||◌, Option, none, some, max, ltb, leb, is_some,
  string_eq, if◌then◌else◌,
}
use agent_lens_platform.Common.Text.{update_fields, Fields, end, field, prefix, is_text}
use agent_lens_platform.Event.{
  EventType, trace_start, trace_end, SpanStatus, running, ok, error, ObsEvent,
}

pub data EvalStatus : Type 0 where
  not_sampled pending scored skipped_budget not_scorable failed : EvalStatus

-- A stamp that a database gives back, timezone-aware or naive.
pub record Stamp : Type 0 where
  pub is_aware : Bool
  pub micros : ℕ

-- `_as_utc`: a naive stamp is read as UTC. The row that is merged holds the microseconds.
abbrev pub as_utc : Option Stamp → Option ℕ
as_utc none = none
as_utc (some s) = some s.micros

-- The columns of a stored `Trace` that the merge reads.
pub record Trace : Type 0 where
  pub tenant_id : ℕ
  pub name : String
  pub service : String
  pub environment : String
  pub status : SpanStatus
  pub started_at : Option Stamp
  pub ended_at : Option Stamp
  pub latency_ms : Option ℕ
  pub input : Fields
  pub output : Fields
  pub attributes : Fields
  pub session_id : Option String
  pub user_ref : Option String
  pub model : Option String
  pub schema_version : ℕ
  pub eval_status : EvalStatus
  pub created_at : Stamp

-- The row that the merge builds.
pub record Row : Type 0 where
  pub trace_id : ℕ
  pub tenant_id : ℕ
  pub name : String
  pub service : String
  pub environment : String
  pub status : SpanStatus
  pub started_at : Option ℕ
  pub ended_at : Option ℕ
  pub latency_ms : Option ℕ
  pub input : Fields
  pub output : Fields
  pub attributes : Fields
  pub session_id : Option String
  pub user_ref : Option String
  pub model : Option String
  pub schema_version : ℕ
  pub eval_status : EvalStatus
  pub created_at : ℕ
  pub updated_at : ℕ

-- `_STATUS_RANK`
abbrev pub status_rank : SpanStatus → ℕ
status_rank running = 0
status_rank ok = 1
status_rank error = 2

-- `tenant` stands for the text "default".
unfoldable pub initial_row : ℕ → ℕ → ℕ → Option Trace → Row
initial_row tenant now trace_id none = record {
  trace_id = trace_id;
  tenant_id = tenant;
  name = "";
  service = "unknown";
  environment = "local";
  status = running;
  started_at = none;
  ended_at = none;
  latency_ms = none;
  input = end;
  output = end;
  attributes = end;
  session_id = none;
  user_ref = none;
  model = none;
  schema_version = 2;
  eval_status = not_sampled;
  created_at = now;
  updated_at = now;
}
initial_row tenant now trace_id (some c) = record {
  trace_id = trace_id;
  tenant_id = c.tenant_id;
  name = c.name;
  service = c.service;
  environment = c.environment;
  status = c.status;
  started_at = as_utc c.started_at;
  ended_at = as_utc c.ended_at;
  latency_ms = c.latency_ms;
  input = c.input;
  output = c.output;
  attributes = c.attributes;
  session_id = c.session_id;
  user_ref = c.user_ref;
  model = c.model;
  schema_version = c.schema_version;
  eval_status = c.eval_status;
  created_at = c.created_at.micros;
  updated_at = now;
}

abbrev pub is_payload : Fields → Bool
is_payload end = false
is_payload (field _ _ _) = true

abbrev pub is_some_text : Option String → Bool
is_some_text none = false
is_some_text (some s) = is_text s

abbrev pub is_trace_event : EventType → Bool
is_trace_event trace_start = true
is_trace_event trace_end = true
is_trace_event _ = false

-- the two comparisons of stamps
unfoldable pub earliest : Option ℕ → Option ℕ → Option ℕ
earliest old none = old
earliest none (some t) = some t
earliest (some s) (some t) = if ltb t s then some t else some s

unfoldable pub latest : Option ℕ → Option ℕ → Option ℕ
latest old none = old
latest none (some t) = some t
latest (some s) (some t) = if ltb s t then some t else some s

-- the status of the row after an event
unfoldable pub merge_status : EventType → SpanStatus → SpanStatus → SpanStatus
merge_status trace_end incoming old =
    if leb (status_rank old) (status_rank incoming) then incoming else old
merge_status _ error old = error
merge_status _ incoming old = old

abbrev pub merge_name : ObsEvent → String → String
merge_name e old =
    if (is_trace_event e.type && is_text e.name) || (not (is_text old) && is_text e.name)
    then prefix 200 e.name
    else old

abbrev pub merge_input : ObsEvent → Fields → Fields
merge_input e old =
    if is_trace_event e.type && is_payload e.input
    then e.input
    else if not (is_payload old) && is_payload e.input
    then e.input
    else old

abbrev pub is_end : EventType → Bool
is_end trace_end = true
is_end _ = false

-- One round of the loop of `_merge_trace`.
unfoldable pub merge_event : Row → ObsEvent → Row
unfolding update_fields earliest latest merge_status
merge_event row e = record {
  trace_id = row.trace_id;
  tenant_id = e.tenant_id;
  name = merge_name e row.name;
  service =
      if is_text e.service && not (string_eq.beq e.service "unknown")
      then e.service
      else row.service;
  environment = if is_text e.environment then e.environment else row.environment;
  status = merge_status e.type e.status row.status;
  started_at = earliest row.started_at e.started_at;
  ended_at = latest row.ended_at e.ended_at;
  latency_ms = if is_end e.type && is_some e.latency_ms then e.latency_ms else row.latency_ms;
  input = merge_input e row.input;
  output = if is_end e.type && is_payload e.output then e.output else row.output;
  attributes =
      if is_payload e.attributes then update_fields row.attributes e.attributes else row.attributes;
  session_id = if is_some_text e.session_id then e.session_id else row.session_id;
  user_ref = if is_some_text e.user_ref then e.user_ref else row.user_ref;
  model = if is_some_text e.model && not (is_some_text row.model) then e.model else row.model;
  schema_version = max row.schema_version e.schema_version;
  eval_status = row.eval_status;
  created_at = row.created_at;
  updated_at = row.updated_at;
}
