-- ===== src/Handler/Bookkeeping.antt =====
-- The bookkeeping of `_start_run`, `_end_run` and `_close_trace` of
-- packages/obs-sdk/src/obs_sdk/langchain.py.
use agent_lens_platform.Common.{
  ℕ, ◌+◌, ◌-◌, ◌/◌, String, Bool, true, false, not, ◌&&◌, Option, none, some, List, [], ◌∷◌, ◌++◌,
  if◌then◌else◌, contains, string_eq, is_some,
}
use agent_lens_platform.Common.Text.{
  Json, text, arr, Items, nil, cons, Fields, end, field, get, put, is_text,
}
use agent_lens_platform.Event.{
  trace_start, trace_end, span_start, span_end, SpanKind, agent, llm, tool, SpanStatus, error,
  Usage, ObsEvent,
}
use agent_lens_platform.Handler.{
  Run, TraceAgg, Ambient, Config, Handler, Start, Finish, find_run, pop_run, register, find_trace,
  put_trace, pop_trace,
}
use agent_lens_platform.Handler.Runs.{payload_of, no_details, event_of, new_run, number, texts}

-- `_emit`
abbrev pub publish : ObsEvent → Handler → Handler
publish e s = record s { published = s.published ++ e ∷ [] }

-- `agg.field += 1` and the like on the trace of a run, if it is open
abbrev pub with_trace : ℕ → (TraceAgg → TraceAgg) → Option TraceAgg → Handler → Handler
with_trace i f none s = s
with_trace i f (some agg) s = record s { traces = put_trace i (f agg) s.traces }

abbrev pub counted_span : SpanKind → TraceAgg → TraceAgg
counted_span llm agg = record agg { span_count = agg.span_count + 1; llm_calls = agg.llm_calls + 1 }
counted_span tool agg = record agg {
  span_count = agg.span_count + 1;
  tool_calls = agg.tool_calls + 1;
}
counted_span _ agg = record agg { span_count = agg.span_count + 1 }

abbrev pub count_span : Run → Handler → Handler
count_span run s =
    if is_some run.span_id
    then with_trace run.trace_id (counted_span run.kind) (find_trace run.trace_id s.traces) s
    else s

abbrev pub add_item : Items → Json → Items
add_item nil v = cons v nil
add_item (cons w vs) v = cons w (add_item vs v)

-- `attributes.setdefault("agent_actions", []).append(name)`, which raises where the value is no list
abbrev pub with_action : String → Option Json → Fields → Fields
with_action tool_name none attributes =
    put "agent_actions" (arr (cons (text tool_name) nil)) attributes
with_action tool_name (some (arr names)) attributes =
    put "agent_actions" (arr (add_item names (text tool_name))) attributes
with_action tool_name (some _) attributes = attributes

abbrev pub add_action : String → Fields → Fields
add_action tool_name attributes = with_action tool_name (get "agent_actions" attributes) attributes

-- What a hook of an agent changes in the totals of the trace of its run, if both are open
-- (`_trace_for_run`).
abbrev pub on_trace : (TraceAgg → TraceAgg) → Option Run → Handler → Handler
on_trace f none s = s
on_trace f (some run) s = with_trace run.trace_id f (find_trace run.trace_id s.traces) s

abbrev pub on_run : (TraceAgg → TraceAgg) → Option ℕ → Handler → Handler
on_run f none s = s
on_run f (some i) s = on_trace f (find_run i s.runs) s

-- `on_agent_action`, with the clipped name of the tool
unfoldable pub agent_action : Option ℕ → String → Handler → Handler
unfolding find_run find_trace put_trace put
agent_action i tool_name s =
    on_run (λ agg. record agg { attributes = add_action tool_name agg.attributes }) i s

-- `on_agent_finish`, with the return values after `_to_payload`, if they are a dictionary
unfoldable pub agent_finish : Option ℕ → Option Fields → Handler → Handler
unfolding find_run find_trace put_trace
agent_finish i none s = s
agent_finish i (some values) s = on_run (λ agg. record agg { last_output = values }) i s

abbrev pub is_error : SpanStatus → Bool
is_error error = true
is_error _ = false

abbrev pub used : Option Usage → TraceAgg → TraceAgg
used none agg = agg
used (some u) agg = record agg {
  prompt_tokens = agg.prompt_tokens + u.prompt_tokens;
  completion_tokens = agg.completion_tokens + u.completion_tokens;
}

abbrev pub failed : SpanStatus → TraceAgg → TraceAgg
failed status agg =
    if is_error status then record agg { error_count = agg.error_count + 1 } else agg

abbrev pub is_named : Option String → Bool
is_named none = false
is_named (some m) = is_text m

abbrev pub models_with : Option String → List String → List String
models_with none models = models
models_with (some m) models =
    if is_text m && not (contains ⦃e = string_eq⦄ models m) then models ++ m ∷ [] else models

abbrev pub first_model : List String → Option String
first_model [] = none
first_model (m ∷ _) = some m

abbrev pub answered : Fields → TraceAgg → TraceAgg
answered end agg = agg
answered (field k v d) agg = record agg { last_output = field k v d }

-- The changes of the trace's totals when a run ends; `output` is the payload as it is captured.
abbrev pub ended : Finish → Option String → Fields → TraceAgg → TraceAgg
ended finish model output agg =
    let agg' = failed finish.status (used finish.usage agg) in
    answered output (record agg' { models = models_with model agg'.models })

abbrev pub elapsed : Ambient → Run → ℕ
elapsed amb run = (amb.perf - run.started_perf) / 1_000

-- `Usage(...)` fills in a total that is missing.
abbrev pub total_usage : TraceAgg → Usage
total_usage agg = record {
  prompt_tokens = agg.prompt_tokens;
  completion_tokens = agg.completion_tokens;
  total_tokens = agg.prompt_tokens + agg.completion_tokens;
}

-- `attributes.update({...})` in `_close_trace`
abbrev pub with_totals : TraceAgg → Fields
with_totals agg = put "models" (arr (texts agg.models)) (
    put "error_count" (number agg.error_count) (
      put "tool_calls" (number agg.tool_calls) (
        put "llm_calls" (number agg.llm_calls)
          (put "span_count" (number agg.span_count) agg.attributes))))

abbrev pub closing_event : Config → Ambient → Finish → ℕ → TraceAgg → ObsEvent
closing_event cfg amb finish latency agg = record {
  schema_version = 2;
  emitted_at = amb.now;
  tenant_id = agg.tenant_id;
  trace_id = agg.trace_id;
  span_id = none;
  parent_span_id = none;
  type = trace_end;
  kind = agent;
  name = agg.name;
  status = finish.status;
  started_at = some agg.started_at;
  ended_at = some amb.now;
  latency_ms = some latency;
  input = end;
  output = agg.last_output;
  error = finish.error;
  usage = some (total_usage agg);
  model = first_model agg.models;
  attributes = with_totals agg;
  session_id = agg.session_id;
  user_ref = agg.user_ref;
  environment = cfg.environment;
  service = cfg.service;
}

abbrev pub close_found : Config → Ambient → Finish → ℕ → ℕ → Option TraceAgg → Handler → Handler
close_found cfg amb finish latency i none s = s
close_found cfg amb finish latency i (some agg) s =
    publish (closing_event cfg amb finish latency agg) (record s { traces = pop_trace i s.traces })

-- `_close_trace`
unfoldable pub close_trace : Config → Ambient → Run → Finish → ℕ → Handler → Handler
unfolding pop_trace
close_trace cfg amb run finish latency s =
    close_found cfg amb finish latency run.trace_id (find_trace run.trace_id s.traces) s

module _ (sorted_keys : List String → List String) (str_chars : Json → ℕ) where
  abbrev pub captured : Config → Fields → Fields
  captured = payload_of sorted_keys str_chars

  abbrev pub opening_agg : Run → Fields → TraceAgg
  opening_agg run first_input = record {
    trace_id = run.trace_id;
    tenant_id = run.tenant_id;
    name = run.name;
    started_at = run.started_at;
    started_perf = run.started_perf;
    session_id = run.session_id;
    user_ref = run.user_ref;
    attributes = run.attributes;
    prompt_tokens = 0;
    completion_tokens = 0;
    span_count = 0;
    error_count = 0;
    llm_calls = 0;
    tool_calls = 0;
    models = [];
    first_input = first_input;
    last_output = end;
  }

  -- `if is_root:` in `_start_run`
  abbrev pub open_trace : Config → Ambient → Run → Fields → Handler → Handler
  open_trace cfg amb run input s =
      if run.is_root
      then publish
          (event_of cfg amb run trace_start (record (no_details none) { payload_in = input }))
          (record s { traces = put_trace run.trace_id (opening_agg run input) s.traces })
      else s

  abbrev pub announce : Config → Ambient → Run → Fields → Bool → Handler → Handler
  announce cfg amb run input true s = s
  announce cfg amb run input false s =
      publish
        (event_of cfg amb run span_start (record (no_details run.span_id) { payload_in = input })) s

  -- The end of `_end_run`, once the run is taken off the table.
  unfoldable pub finish_run : Config → Ambient → Finish → Run → Handler → Handler
  unfolding payload_of close_trace put_trace
  finish_run cfg amb finish run s =
      let output = captured cfg finish.payload in
      let latency = elapsed amb run in
      let s1 =
        with_trace run.trace_id (ended finish run.model output) (find_trace run.trace_id s.traces)
          s in
      let details = record (no_details run.span_id) {
        status = finish.status;
        payload_out = output;
        usage = finish.usage;
        error = finish.error;
        latency_ms = some latency;
      } in
      let s2 =
        if is_some run.span_id then publish (event_of cfg amb run span_end details) s1 else s1 in
      if run.is_root then close_trace cfg amb run finish latency s2 else s2

  abbrev pub end_found : Config → Ambient → Finish → ℕ → Option Run → Handler → Handler
  end_found cfg amb finish i none s = s
  end_found cfg amb finish i (some run) s =
      finish_run cfg amb finish
        (if is_named finish.model then record run { model = finish.model } else run)
        (record s { runs = pop_run i s.runs })

  abbrev pub end_keyed : Config → Ambient → Finish → Option ℕ → Handler → Handler
  end_keyed cfg amb finish none s = s
  end_keyed cfg amb finish (some i) s = end_found cfg amb finish i (find_run i s.runs) s

  -- `_end_run`
  unfoldable pub end_run : Config → Ambient → Finish → Handler → Handler
  unfolding finish_run find_run pop_run
  end_run cfg amb finish s = end_keyed cfg amb finish finish.run_id s

  module _ (id_of : Json → ℕ) where
    abbrev pub parent_of : Option ℕ → List Run → Option Run
    parent_of none runs = none
    parent_of (some i) runs = find_run i runs

    abbrev pub begin_run : Config → Ambient → Start → Run → Handler → Handler
    begin_run cfg amb start run s =
        let input = captured cfg start.payload in
        let s1 = record s { runs = register cfg.max_tracked_runs run s.runs } in
        announce cfg amb run input start.skip (count_span run (open_trace cfg amb run input s1))

    abbrev pub start_keyed : Config → Ambient → Start → Option ℕ → Handler → Handler
    start_keyed cfg amb start none s = s
    start_keyed cfg amb start (some rid) s =
        begin_run cfg amb start
          (new_run id_of cfg amb rid start (parent_of start.parent_run_id s.runs)) s

    -- `_start_run`
    unfoldable pub start_run : Config → Ambient → Start → Handler → Handler
    unfolding new_run find_run register payload_of put_trace find_trace event_of
    start_run cfg amb start s = start_keyed cfg amb start start.run_id s
