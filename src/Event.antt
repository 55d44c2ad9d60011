-- ===== src/Event.antt =====
-- The event model of packages/obs-sdk/src/obs_sdk/schema.py. Times are microseconds since the epoch:
-- validation makes every stamp of an event timezone-aware.
use agent_lens_platform.Common.{ℕ, ◌-◌, ◌/◌, String, Option, none, some}
use agent_lens_platform.Common.Text.{Fields}

pub data EventType : Type 0 where
  trace_start trace_end span_start span_end : EventType

pub data SpanKind : Type 0 where
  agent chain llm tool retriever guardrail other : SpanKind

pub data SpanStatus : Type 0 where
  running ok error : SpanStatus

-- `Usage`, after its validators
pub record Usage : Type 0 where
  pub prompt_tokens : ℕ
  pub completion_tokens : ℕ
  pub total_tokens : ℕ

-- The fields of `ObsEvent` that the platform reads.
pub record ObsEvent : Type 0 where
  pub schema_version : ℕ
  pub emitted_at : ℕ
  pub tenant_id : ℕ
  pub trace_id : ℕ
  pub span_id : Option ℕ
  pub parent_span_id : Option ℕ
  pub type : EventType
  pub kind : SpanKind
  pub name : String
  pub status : SpanStatus
  pub started_at : Option ℕ
  pub ended_at : Option ℕ
  pub latency_ms : Option ℕ
  pub input : Fields
  pub output : Fields
  pub error : Option Fields
  pub usage : Option Usage
  pub model : Option String
  pub attributes : Fields
  pub session_id : Option String
  pub user_ref : Option String
  pub environment : String
  pub service : String

-- `max(0, int((end - start).total_seconds() * 1000))`
abbrev pub elapsed_ms : ℕ → ℕ → ℕ
elapsed_ms start end = (end - start) / 1000

-- `ObsEvent.computed_latency_ms`
unfoldable pub computed_latency_ms : ObsEvent → Option ℕ
computed_latency_ms e = elim e.latency_ms [
  | some ms ↦ some ms
  | none ↦ elim e.started_at [
    | none ↦ none
    | some start ↦ elim e.ended_at [ none ↦ none | some end ↦ some (elapsed_ms start end) ]
  ]
]
