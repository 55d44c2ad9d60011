-- ===== src/Handler/Reach.antt =====
-- The states that the hooks of packages/obs-sdk/src/obs_sdk/langchain.py lead to.
use agent_lens_platform.Common.{ℕ, String, Option, none, some, List, All}
use agent_lens_platform.Common.Text.{Json, Fields}
use agent_lens_platform.Handler.{
  Ambient, Config, Handler, fresh_handler, Start, Finish, Run, TraceAgg, find_run, find_trace,
}
use agent_lens_platform.Handler.Bookkeeping.{
  end_run, start_run, with_trace, on_trace, on_run, agent_action, agent_finish,
}
use agent_lens_platform.Handler.Connected.{OnSome, IsConnected, Good}
use agent_lens_platform.Handler.Opening.{start_run-Good}
use agent_lens_platform.Handler.Closing.{end_run-Good}

module _ (sorted_keys : List String → List String) (str_chars : Json → ℕ) (id_of : Json → ℕ)
    (cfg : Config) (Outside : ℕ → Type 0) where
  -- Hooks from an empty handler. A span that is current when a hook runs is one of `Outside`.
  pub data Reachable : Handler → Type 0 where
    fresh : Reachable fresh_handler
    started :
        {s : Handler} (amb : Ambient) (start : Start)
        → OnSome Outside amb.current_span
        → Reachable s
        → Reachable (start_run sorted_keys str_chars id_of cfg amb start s)
    finished :
        {s : Handler} (amb : Ambient) (finish : Finish)
        → Reachable s
        → Reachable (end_run sorted_keys str_chars cfg amb finish s)
    acted :
        {s : Handler} (i : Option ℕ) (tool_name : String)
        → Reachable s
        → Reachable (agent_action i tool_name s)
    agent_finished :
        {s : Handler} (i : Option ℕ) (values : Option Fields)
        → Reachable s
        → Reachable (agent_finish i values s)

  on_run-Good :
      (f : TraceAgg → TraceAgg) (i : Option ℕ) (s : Handler)
      → Good Outside s.published s
      → Good Outside (on_run f i s).published (on_run f i s)
  on_run-Good f none s h = h
  on_run-Good f (some i) s h = on_trace-Good f (find_run i s.runs) s h
    where
      on_trace-Good :
          (f : TraceAgg → TraceAgg) (o : Option Run) (s : Handler)
          → Good Outside s.published s
          → Good Outside (on_trace f o s).published (on_trace f o s)
      on_trace-Good f none s h = h
      on_trace-Good f (some run) s h =
          with_found-Good f run.trace_id (find_trace run.trace_id s.traces) s h
        where
          with_found-Good :
              (f : TraceAgg → TraceAgg) (t : ℕ) (o : Option TraceAgg) (s : Handler)
              → Good Outside s.published s
              → Good Outside (with_trace t f o s).published (with_trace t f o s)
          with_found-Good f t none s h = h
          with_found-Good f t (some agg) s h = h

  agent_action-Good :
      (i : Option ℕ) (tool_name : String) (s : Handler)
      → Good Outside s.published s
      → Good Outside (agent_action i tool_name s).published (agent_action i tool_name s)
  unfolding agent_action
  agent_action-Good i tool_name s h = on_run-Good _ i s h

  agent_finish-Good :
      (i : Option ℕ) (values : Option Fields) (s : Handler)
      → Good Outside s.published s
      → Good Outside (agent_finish i values s).published (agent_finish i values s)
  unfolding agent_finish
  agent_finish-Good i none s h = h
  agent_finish-Good i (some values) s h = on_run-Good _ i s h

  Reachable-Good : (s : Handler) → Reachable s → Good Outside s.published s
  Reachable-Good s fresh = (tt, tt)
  Reachable-Good s (started {s = before} amb start out r) =
      start_run-Good sorted_keys str_chars id_of cfg amb Outside start before out
        (Reachable-Good before r)
  Reachable-Good s (finished {s = before} amb finish r) =
      end_run-Good sorted_keys str_chars cfg amb finish Outside before (Reachable-Good before r)
  Reachable-Good s (acted {s = before} i tool_name r) =
      agent_action-Good i tool_name before (Reachable-Good before r)
  Reachable-Good s (agent_finished {s = before} i values r) =
      agent_finish-Good i values before (Reachable-Good before r)

  -- Whatever the order of the hooks: the parent that a published event names is a span of `Outside`,
  -- or one whose start was published in the same trace; and the span that a span's end names was
  -- started in its trace.
  pub Reachable-IsConnected :
      (s : Handler) → Reachable s → All (IsConnected Outside s.published) s.published
  Reachable-IsConnected s r = (Reachable-Good s r).1
