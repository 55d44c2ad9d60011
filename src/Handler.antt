-- ===== src/Handler.antt =====
-- `ObservabilityCallbackHandler` of packages/obs-sdk/src/obs_sdk/langchain.py: the table of open runs
-- and the totals of open traces, and the events that the hooks publish. A hook is one step, with the
-- events that it publishes after the lock is free. What it takes from outside (the context variables,
-- new ids, the clocks) is `Ambient`; an id is a number, and `id_of` is `str` on a value of the metadata.
-- The session and the user of the metadata are texts, as `_Run` declares them: another value, which
-- `ObsEvent` refuses with an exception that the hooks swallow, is outside of the model.
pub mod Runs
pub mod Connected
mod Opening
mod Closing
pub mod Reach
pub mod Totals
pub mod Tally
pub mod Report
pub mod Bound
pub mod Capture
pub mod Bookkeeping
use agent_lens_platform.Common.{
  ℕ, String, Bool, Option, none, some, List, [], ◌∷◌, length, ltb, ◌==◌, if◌then◌else◌, nat_eq,
  string_eq,
}
use agent_lens_platform.Common.Text.{Fields}
use agent_lens_platform.Event.{SpanKind, SpanStatus, error, Usage, ObsEvent}

-- `a or b` on optional values that are true when they are there
abbrev pub or_else {ℓ} : {A : Type ℓ} → Option A → Option A → Option A
or_else (some a) b = some a
or_else none b = b

-- `_Run`
pub record Run : Type 0 where
  pub run_id : ℕ
  pub trace_id : ℕ
  pub tenant_id : ℕ
  pub span_id : Option ℕ
  pub parent_span_id : Option ℕ
  pub name : String
  pub kind : SpanKind
  pub started_at : ℕ
  pub started_perf : ℕ
  pub is_root : Bool
  pub session_id : Option String
  pub user_ref : Option String
  pub attributes : Fields
  pub model : Option String

-- `_TraceAgg`
pub record TraceAgg : Type 0 where
  pub trace_id : ℕ
  pub tenant_id : ℕ
  pub name : String
  pub started_at : ℕ
  pub started_perf : ℕ
  pub session_id : Option String
  pub user_ref : Option String
  pub attributes : Fields
  pub prompt_tokens : ℕ
  pub completion_tokens : ℕ
  pub span_count : ℕ
  pub error_count : ℕ
  pub llm_calls : ℕ
  pub tool_calls : ℕ
  pub models : List String
  pub first_input : Fields
  pub last_output : Fields

-- `TraceContext` of context.py
pub record TraceContext : Type 0 where
  pub trace_id : ℕ
  pub tenant_id : ℕ
  pub session_id : Option String
  pub user_ref : Option String
  pub attributes : Fields

-- What one hook takes from outside; `now` is `utcnow()` and `perf` the monotonic clock, both in
-- microseconds.
pub record Ambient : Type 0 where
  pub context : Option TraceContext
  pub current_span : Option ℕ
  pub new_trace_id : ℕ
  pub new_span_id : ℕ
  pub now : ℕ
  pub perf : ℕ

-- The fields that `__init__` sets once.
pub record Config : Type 0 where
  pub tenant_id : ℕ
  pub service : String
  pub environment : String
  pub default_trace_id : Option ℕ
  pub session_id : Option String
  pub user_ref : Option String
  pub default_attributes : Fields
  pub capture_content : Bool
  pub capture_chains : Bool
  pub ignored_chain_names : List String
  pub max_tracked_runs : ℕ

-- The fields that the hooks change; `published` is every event handed to the publisher, in order.
pub record Handler : Type 0 where
  pub runs : List Run
  pub traces : List (ℕ × TraceAgg)
  pub published : List ObsEvent

abbrev pub fresh_handler : Handler
fresh_handler = record { runs = []; traces = []; published = [] }

-- The arguments of `_start_run` and of `_end_run`; `session_id` and `user_ref` are those of the metadata.
pub record Start : Type 0 where
  pub run_id : Option ℕ
  pub parent_run_id : Option ℕ
  pub name : String
  pub kind : SpanKind
  pub payload : Fields
  pub metadata : Fields
  pub session_id : Option String
  pub user_ref : Option String
  pub tags : List String
  pub model : Option String
  pub skip : Bool

pub record Finish : Type 0 where
  pub run_id : Option ℕ
  pub status : SpanStatus
  pub payload : Fields
  pub usage : Option Usage
  pub model : Option String
  pub error : Option Fields

-- `self._runs.get(key)`
unfoldable pub find_run : ℕ → List Run → Option Run
find_run i [] = none
find_run i (r ∷ runs) = if r.run_id == i then some r else find_run i runs

-- `self._runs[run.run_id] = run`: a key that is there keeps its place
unfoldable pub put_run : Run → List Run → List Run
put_run run [] = run ∷ []
put_run run (r ∷ runs) = if r.run_id == run.run_id then run ∷ runs else r ∷ put_run run runs

unfoldable pub pop_run : ℕ → List Run → List Run
pop_run i [] = []
pop_run i (r ∷ runs) = if r.run_id == i then runs else r ∷ pop_run i runs

-- `while len(self._runs) > self.max_tracked_runs`: the oldest run goes first
unfoldable pub evict : ℕ → List Run → List Run
evict most [] = []
evict most (r ∷ runs) = if ltb most (length (r ∷ runs)) then evict most runs else r ∷ runs

unfoldable pub register : ℕ → Run → List Run → List Run
unfolding put_run evict
register most run runs = evict most (put_run run runs)

-- The dictionary `self._traces`.
unfoldable pub find_trace : ℕ → List (ℕ × TraceAgg) → Option TraceAgg
find_trace i [] = none
find_trace i ((j, agg) ∷ traces) = if j == i then some agg else find_trace i traces

unfoldable pub put_trace : ℕ → TraceAgg → List (ℕ × TraceAgg) → List (ℕ × TraceAgg)
put_trace i agg [] = (i, agg) ∷ []
put_trace i agg ((j, old) ∷ traces) =
    if j == i then (i, agg) ∷ traces else (j, old) ∷ put_trace i agg traces

-- `pop`: a key is there once at most
unfoldable pub pop_trace : ℕ → List (ℕ × TraceAgg) → List (ℕ × TraceAgg)
pop_trace i [] = []
pop_trace i ((j, agg) ∷ traces) =
    let rest = pop_trace i traces in if j == i then rest else (j, agg) ∷ rest
