-- ===== src/Handler/Tally.antt =====
-- The counts of a trace over the hooks of packages/obs-sdk/src/obs_sdk/langchain.py.
use agent_lens_platform.Common.{
  ℕ, ◌≡◌, refl, String, Bool, true, false, Option, none, some, List, inl, inr, if◌then◌else◌,
  is_some, Bool-cases,
}
use agent_lens_platform.Common.Text.{Json, Fields}
use agent_lens_platform.Event.{trace_start, span_start, span_end, ObsEvent}
use agent_lens_platform.Handler.{
  Run, TraceAgg, Ambient, Config, Handler, Start, Finish, find_run, pop_run, register, find_trace,
}
use agent_lens_platform.Handler.Runs.{event_of, new_run, no_details}
use agent_lens_platform.Handler.Bookkeeping.{
  publish, count_span, ended, elapsed, closing_event, close_found, close_trace, opening_agg,
  open_trace, announce, captured, start_keyed, start_run, parent_of, finish_run, end_found,
  end_keyed, end_run, on_trace, on_run, agent_action, agent_finish,
}
use agent_lens_platform.Handler.Opening.{new_run-span_id}
use agent_lens_platform.Handler.Closing.{totalled, span_ended}
use agent_lens_platform.Handler.Reach.{Reachable, fresh, started, finished, acted, agent_finished}
use agent_lens_platform.Handler.Totals.{
  AllTallied, span_start-AllTallied, trace_start-AllTallied, closed-AllTallied, publish-AllTallied,
  with_trace-AllTallied, ended-Tallied, span_end-Quiet, trace_end-Quiet, Tallied,
}

publish_if-AllTallied :
    (b : Bool) (e : ObsEvent) (s : Handler)
    → e.type ≡ span_end
    → AllTallied s
    → AllTallied (if b then publish e s else s)
publish_if-AllTallied true e s type h = publish-AllTallied e s (span_end-Quiet e type) h
publish_if-AllTallied false e s type h = h

close_found-AllTallied :
    (cfg : Config) (amb : Ambient) (finish : Finish) (latency i : ℕ) (o : Option TraceAgg)
    (s : Handler)
    → AllTallied s
    → AllTallied (close_found cfg amb finish latency i o s)
close_found-AllTallied cfg amb finish latency i none s h = h
close_found-AllTallied cfg amb finish latency i (some agg) s h =
    let e = closing_event cfg amb finish latency agg in
    closed-AllTallied e i s (trace_end-Quiet e refl) h

close_if-AllTallied :
    (cfg : Config) (amb : Ambient) (finish : Finish) (latency : ℕ) (run : Run) (b : Bool)
    (s : Handler)
    → AllTallied s
    → AllTallied (if b then close_trace cfg amb run finish latency s else s)
unfolding close_trace
close_if-AllTallied cfg amb finish latency run true s h =
    close_found-AllTallied cfg amb finish latency run.trace_id (find_trace run.trace_id s.traces) s
      h
close_if-AllTallied cfg amb finish latency run false s h = h

count_span-none :
    (run : Run) (s : Handler) → run.span_id ≡ none → AllTallied s → AllTallied (count_span run s)
count_span-none run s e h = rw e h

count_span-published :
    (run : Run) (i : ℕ) (e : ObsEvent) (s : Handler)
    → e.type ≡ span_start
    → e.trace_id ≡ run.trace_id
    → e.kind ≡ run.kind
    → run.span_id ≡ some i
    → AllTallied s
    → AllTallied (publish e (count_span run s))
count_span-published run i e s type trace kind kept h =
    rw kept (span_start-AllTallied run.trace_id run.kind e s type trace kind h)

module _ (sorted_keys : List String → List String) (str_chars : Json → ℕ) (cfg : Config)
    (amb : Ambient) where
  finish_run-AllTallied :
      (finish : Finish) (run : Run) (s : Handler)
      → AllTallied s
      → AllTallied (finish_run sorted_keys str_chars cfg amb finish run s)
  unfolding finish_run event_of
  finish_run-AllTallied finish run s h =
      let output = captured sorted_keys str_chars cfg finish.payload in
      close_if-AllTallied cfg amb finish (elapsed amb run) run run.is_root _ (
        publish_if-AllTallied (is_some run.span_id)
          (span_ended sorted_keys str_chars cfg amb finish run)
          (totalled sorted_keys str_chars cfg amb finish run s) refl
          (with_trace-AllTallied run.trace_id (ended finish run.model output) s
            (λ es t. ended-Tallied es t finish run.model output) h))

  end_found-AllTallied :
      (finish : Finish) (i : ℕ) (o : Option Run) (s : Handler)
      → AllTallied s
      → AllTallied (end_found sorted_keys str_chars cfg amb finish i o s)
  end_found-AllTallied finish i none s h = h
  end_found-AllTallied finish i (some run) s h =
      finish_run-AllTallied finish _ (record s { runs = pop_run i s.runs }) h

  end_keyed-AllTallied :
      (finish : Finish) (o : Option ℕ) (s : Handler)
      → AllTallied s
      → AllTallied (end_keyed sorted_keys str_chars cfg amb finish o s)
  end_keyed-AllTallied finish none s h = h
  end_keyed-AllTallied finish (some i) s h = end_found-AllTallied finish i (find_run i s.runs) s h

  open_trace-AllTallied :
      (run : Run) (input : Fields) (s : Handler)
      → AllTallied s
      → AllTallied (open_trace sorted_keys str_chars cfg amb run input s)
  unfolding event_of
  open_trace-AllTallied run input s h = elim (Bool-cases run.is_root) [
    | inl root ↦ rw root (
        trace_start-AllTallied
          (event_of cfg amb run trace_start (record (no_details none) { payload_in = input }))
          (opening_agg sorted_keys str_chars run input) s refl (refl, (refl, refl)) h)
    | inr child ↦ rw child h
  ]

  announce-AllTallied :
      (run : Run) (i : ℕ) (input : Fields) (skip : Bool) (s : Handler)
      → run.span_id ≡ (if skip then none else some i)
      → AllTallied s
      → AllTallied (announce sorted_keys str_chars cfg amb run input skip (count_span run s))
  unfolding event_of
  announce-AllTallied run i input true s e h = count_span-none run s e h
  announce-AllTallied run i input false s e h =
      count_span-published run i
        (event_of cfg amb run span_start (record (no_details run.span_id) { payload_in = input })) s
        refl refl refl e h

  module _ (id_of : Json → ℕ) where
    start_keyed-AllTallied :
        (start : Start) (o : Option ℕ) (s : Handler)
        → AllTallied s
        → AllTallied (start_keyed sorted_keys str_chars id_of cfg amb start o s)
    start_keyed-AllTallied start none s h = h
    start_keyed-AllTallied start (some rid) s h =
        let parent = parent_of sorted_keys str_chars id_of start.parent_run_id s.runs in
        let run = new_run id_of cfg amb rid start parent in
        let input = captured sorted_keys str_chars cfg start.payload in
        let s1 : Handler = record s { runs = register cfg.max_tracked_runs run s.runs } in
        announce-AllTallied run amb.new_span_id input start.skip
          (open_trace sorted_keys str_chars cfg amb run input s1)
          (new_run-span_id id_of cfg amb rid start parent) (open_trace-AllTallied run input s1 h)

-- A change of the totals that keeps the three counts.
on_run-AllTallied :
    (f : TraceAgg → TraceAgg) (i : Option ℕ) (s : Handler)
    → ((es : List ObsEvent) (t : ℕ) (agg : TraceAgg) → Tallied es t agg → Tallied es t (f agg))
    → AllTallied s
    → AllTallied (on_run f i s)
on_run-AllTallied f none s keeps h = h
on_run-AllTallied f (some i) s keeps h = on_trace-AllTallied f (find_run i s.runs) s keeps h
  where
    on_trace-AllTallied :
        (f : TraceAgg → TraceAgg) (o : Option Run) (s : Handler)
        → ((es : List ObsEvent) (t : ℕ) (agg : TraceAgg) → Tallied es t agg → Tallied es t (f agg))
        → AllTallied s
        → AllTallied (on_trace f o s)
    on_trace-AllTallied f none s keeps h = h
    on_trace-AllTallied f (some run) s keeps h = with_trace-AllTallied run.trace_id f s keeps h

agent_action-AllTallied :
    (i : Option ℕ) (tool_name : String) (s : Handler)
    → AllTallied s
    → AllTallied (agent_action i tool_name s)
unfolding agent_action
agent_action-AllTallied i tool_name s h = on_run-AllTallied _ i s (λ es t agg k. k) h

agent_finish-AllTallied :
    (i : Option ℕ) (values : Option Fields) (s : Handler)
    → AllTallied s
    → AllTallied (agent_finish i values s)
unfolding agent_finish
agent_finish-AllTallied i none s h = h
agent_finish-AllTallied i (some values) s h = on_run-AllTallied _ i s (λ es t agg k. k) h

module _ (sorted_keys : List String → List String) (str_chars : Json → ℕ) (id_of : Json → ℕ)
    (cfg : Config) (Outside : ℕ → Type 0) where
  pub Reachable-AllTallied :
      (s : Handler) → Reachable sorted_keys str_chars id_of cfg Outside s → AllTallied s
  unfolding start_run end_run find_trace
  Reachable-AllTallied s fresh = λ t. tt
  Reachable-AllTallied s (started {s = before} amb start out r) =
      start_keyed-AllTallied sorted_keys str_chars cfg amb id_of start start.run_id before
        (Reachable-AllTallied before r)
  Reachable-AllTallied s (finished {s = before} amb finish r) =
      end_keyed-AllTallied sorted_keys str_chars cfg amb finish finish.run_id before
        (Reachable-AllTallied before r)
  Reachable-AllTallied s (acted {s = before} i tool_name r) =
      agent_action-AllTallied i tool_name before (Reachable-AllTallied before r)
  Reachable-AllTallied s (agent_finished {s = before} i values r) =
      agent_finish-AllTallied i values before (Reachable-AllTallied before r)
