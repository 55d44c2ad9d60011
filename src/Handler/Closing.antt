-- ===== src/Handler/Closing.antt =====
-- `_end_run` of packages/obs-sdk/src/obs_sdk/langchain.py and the tree of spans.
use agent_lens_platform.Common.{
  ℕ, String, Bool, true, false, Option, none, some, List, if◌then◌else◌, is_some,
}
use agent_lens_platform.Common.Text.{Json}
use agent_lens_platform.Event.{span_end, ObsEvent}
use agent_lens_platform.Handler.{
  Run, TraceAgg, Ambient, Config, Handler, Finish, find_run, pop_run, find_trace, pop_trace,
}
use agent_lens_platform.Handler.Runs.{event_of, no_details}
use agent_lens_platform.Handler.Bookkeeping.{
  publish, with_trace, close_found, close_trace, finish_run, end_found, end_keyed, end_run,
  captured, closing_event, ended, elapsed, is_named,
}
use agent_lens_platform.Handler.Connected.{
  IsConnected, RunOk, Good, Grows, Some-append, OnSome, found_ok, All-pop_run, Known-if, Good-Grows,
  publish-Good, with_trace-Good, with_trace-published, publish-Grows,
}

publish_if-Grows :
    (b : Bool) (e : ObsEvent) (s : Handler)
    → Grows s.published (if b then publish e s else s).published
publish_if-Grows true e s P h = publish-Grows e s P h
publish_if-Grows false e s P h = h

close_found-Grows :
    (cfg : Config) (amb : Ambient) (finish : Finish) (latency i : ℕ) (o : Option TraceAgg)
    (s : Handler)
    → Grows s.published (close_found cfg amb finish latency i o s).published
close_found-Grows cfg amb finish latency i none s P h = h
close_found-Grows cfg amb finish latency i (some agg) s P h = Some-append P s.published _ h

close_if-Grows :
    (cfg : Config) (amb : Ambient) (run : Run) (finish : Finish) (latency : ℕ) (b : Bool)
    (s : Handler)
    → Grows s.published (if b then close_trace cfg amb run finish latency s else s).published
unfolding close_trace
close_if-Grows cfg amb run finish latency true s P h =
    close_found-Grows cfg amb finish latency run.trace_id (find_trace run.trace_id s.traces) s P h
close_if-Grows cfg amb run finish latency false s P h = h

module _ (Outside : ℕ → Type 0) where
  publish_if-Good :
      (es : List ObsEvent) (b : Bool) (e : ObsEvent) (s : Handler)
      → IsConnected Outside es e
      → Good Outside es s
      → Good Outside es (if b then publish e s else s)
  publish_if-Good es true e s ok h = publish-Good Outside es e s ok h
  publish_if-Good es false e s ok h = h

  close_found-Good :
      (es : List ObsEvent) (cfg : Config) (amb : Ambient) (finish : Finish) (latency i : ℕ)
      (o : Option TraceAgg) (s : Handler)
      → Good Outside es s
      → Good Outside es (close_found cfg amb finish latency i o s)
  close_found-Good es cfg amb finish latency i none s h = h
  close_found-Good es cfg amb finish latency i (some agg) s h =
      publish-Good Outside es (closing_event cfg amb finish latency agg)
        (record s { traces = pop_trace i s.traces }) (tt, λ k. tt) h

  close_if-Good :
      (es : List ObsEvent) (cfg : Config) (amb : Ambient) (run : Run) (finish : Finish)
      (latency : ℕ) (b : Bool) (s : Handler)
      → Good Outside es s
      → Good Outside es (if b then close_trace cfg amb run finish latency s else s)
  unfolding close_trace
  close_if-Good es cfg amb run finish latency true s h =
      close_found-Good es cfg amb finish latency run.trace_id (find_trace run.trace_id s.traces) s h
  close_if-Good es cfg amb run finish latency false s h = h

module _ (sorted_keys : List String → List String) (str_chars : Json → ℕ) (cfg : Config)
    (amb : Ambient) (finish : Finish) where
  -- The trace's totals after a run, and the event that ends its span.
  abbrev pub totalled : Run → Handler → Handler
  totalled run s =
      with_trace run.trace_id
        (ended finish run.model (captured sorted_keys str_chars cfg finish.payload))
        (find_trace run.trace_id s.traces) s

  abbrev pub span_ended : Run → ObsEvent
  span_ended run = event_of cfg amb run span_end (record (no_details run.span_id) {
    status = finish.status;
    payload_out = captured sorted_keys str_chars cfg finish.payload;
    usage = finish.usage;
    error = finish.error;
    latency_ms = some (elapsed amb run);
  })

  finish_run-Grows :
      (run : Run) (s : Handler)
      → Grows s.published (finish_run sorted_keys str_chars cfg amb finish run s).published
  unfolding finish_run
  finish_run-Grows run s P h = close_if-Grows cfg amb run finish (elapsed amb run) run.is_root _ P (
      publish_if-Grows (is_some run.span_id) (span_ended run) (totalled run s) P
        (with_trace-published run.trace_id _ (find_trace run.trace_id s.traces) s P h))

  end_found-Grows :
      (i : ℕ) (o : Option Run) (s : Handler)
      → Grows s.published (end_found sorted_keys str_chars cfg amb finish i o s).published
  end_found-Grows i none s P h = h
  end_found-Grows i (some run) s P h = finish_run-Grows _ (record s { runs = pop_run i s.runs }) P h

  module _ (Outside : ℕ → Type 0) where
    finish_run-Good :
        (es : List ObsEvent) (run : Run) (s : Handler)
        → RunOk Outside es run
        → Good Outside es s
        → Good Outside es (finish_run sorted_keys str_chars cfg amb finish run s)
    unfolding finish_run event_of
    finish_run-Good es run s ok h =
        close_if-Good Outside es cfg amb run finish (elapsed amb run) run.is_root _ (
          publish_if-Good Outside es (is_some run.span_id) (span_ended run) (totalled run s)
            (
              Known-if Outside (is_some run.span_id) es run.trace_id run.parent_span_id ok.1,
              λ k. ok.0,
            )
            (with_trace-Good Outside es run.trace_id _ (find_trace run.trace_id s.traces) s h))

    named_RunOk :
        (es : List ObsEvent) (b : Bool) (model : Option String) (run : Run)
        → RunOk Outside es run
        → RunOk Outside es (if b then record run { model = model } else run)
    named_RunOk es true model run ok = ok
    named_RunOk es false model run ok = ok

    end_found-Good :
        (es : List ObsEvent) (i : ℕ) (o : Option Run) (s : Handler)
        → OnSome (RunOk Outside es) o
        → Good Outside es s
        → Good Outside es (end_found sorted_keys str_chars cfg amb finish i o s)
    end_found-Good es i none s ok h = h
    end_found-Good es i (some run) s ok h =
        finish_run-Good es _ (record s { runs = pop_run i s.runs })
          (named_RunOk es (is_named finish.model) finish.model run ok)
          (All-pop_run (RunOk Outside es) i s.runs h.0, h.1)

    end_keyed-Good :
        (o : Option ℕ) (s : Handler)
        → Good Outside s.published s
        → let s' = end_keyed sorted_keys str_chars cfg amb finish o s in
          Good Outside s'.published s'
    end_keyed-Good none s h = h
    end_keyed-Good (some i) s h =
        let s' = end_found sorted_keys str_chars cfg amb finish i (find_run i s.runs) s in
        let later =
          Good-Grows Outside s.published s'.published s (end_found-Grows i (find_run i s.runs) s)
            h in
        end_found-Good s'.published i (find_run i s.runs) s
          (found_ok (RunOk Outside s'.published) i s.runs later.0) later

    pub end_run-Good :
        (s : Handler)
        → Good Outside s.published s
        → let s' = end_run sorted_keys str_chars cfg amb finish s in Good Outside s'.published s'
    unfolding end_run
    end_run-Good s h = end_keyed-Good finish.run_id s h
