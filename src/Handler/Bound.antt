-- ===== src/Handler/Bound.antt =====
-- The size of the run table of packages/obs-sdk/src/obs_sdk/langchain.py.
use agent_lens_platform.Common.{
  ℕ, ◌≤◌, ◌≡◌, String, Bool, true, false, Option, none, some, List, [], ◌∷◌, inl, inr,
  if◌then◌else◌, is_some, Bool-cases, length, arith, refl, ◌∙◌,
}
use agent_lens_platform.Common.Text.{Json, Fields}
use agent_lens_platform.Handler.{
  Run, TraceAgg, Ambient, Config, Handler, Start, Finish, find_run, pop_run, put_run, evict,
  register, find_trace,
}
use agent_lens_platform.Handler.Runs.{new_run}
use agent_lens_platform.Handler.Bookkeeping.{
  with_trace, count_span, close_found, close_trace, open_trace, announce, finish_run, end_found,
  end_keyed, end_run, begin_run, start_keyed, start_run, parent_of, publish, captured, elapsed,
  on_trace, agent_action, agent_finish,
}
use agent_lens_platform.Handler.Closing.{totalled, span_ended}
use agent_lens_platform.Event.{ObsEvent}
use agent_lens_platform.Handler.Reach.{Reachable, fresh, started, finished, acted, agent_finished}

length-evict : (most : ℕ) (runs : List Run) → length (evict most runs) ≤ most
unfolding evict
length-evict most [] = omega arith
length-evict most (r ∷ runs) = ground (arith, length-evict most runs)

length-pop_run : (i : ℕ) (runs : List Run) → length (pop_run i runs) ≤ length runs
unfolding pop_run
length-pop_run i [] = omega arith
length-pop_run i (r ∷ runs) = ground (arith, length-pop_run i runs)

runs-with_trace :
    (i : ℕ) (f : TraceAgg → TraceAgg) (o : Option TraceAgg) (s : Handler)
    → (with_trace i f o s).runs ≡ s.runs
runs-with_trace i f none s = refl
runs-with_trace i f (some agg) s = refl

runs-count_span : (run : Run) (s : Handler) → (count_span run s).runs ≡ s.runs
runs-count_span run s = elim (Bool-cases (is_some run.span_id)) [
  | inl kept ↦ rw kept (runs-with_trace run.trace_id _ (find_trace run.trace_id s.traces) s)
  | inr skipped ↦ rw skipped refl
]

runs-close_found :
    (cfg : Config) (amb : Ambient) (finish : Finish) (latency i : ℕ) (o : Option TraceAgg)
    (s : Handler)
    → (close_found cfg amb finish latency i o s).runs ≡ s.runs
runs-close_found cfg amb finish latency i none s = refl
runs-close_found cfg amb finish latency i (some agg) s = refl

runs-publish_if :
    (runs : List Run) (b : Bool) (e : ObsEvent) (s : Handler)
    → s.runs ≡ runs
    → (if b then publish e s else s).runs ≡ runs
runs-publish_if runs true e s h = h
runs-publish_if runs false e s h = h

runs-close_if :
    (runs : List Run) (cfg : Config) (amb : Ambient) (finish : Finish) (latency : ℕ) (run : Run)
    (b : Bool) (s : Handler)
    → s.runs ≡ runs
    → (if b then close_trace cfg amb run finish latency s else s).runs ≡ runs
unfolding close_trace
runs-close_if runs cfg amb finish latency run true s h =
    runs-close_found cfg amb finish latency run.trace_id (find_trace run.trace_id s.traces) s ∙ h
runs-close_if runs cfg amb finish latency run false s h = h

module _ (sorted_keys : List String → List String) (str_chars : Json → ℕ) (cfg : Config)
    (amb : Ambient) where
  runs-announce :
      (run : Run) (input : Fields) (skip : Bool) (s : Handler)
      → (announce sorted_keys str_chars cfg amb run input skip s).runs ≡ s.runs
  runs-announce run input true s = refl
  runs-announce run input false s = refl

  runs-open_trace :
      (run : Run) (input : Fields) (s : Handler)
      → (open_trace sorted_keys str_chars cfg amb run input s).runs ≡ s.runs
  runs-open_trace run input s = elim (Bool-cases run.is_root) [
    | inl root ↦ rw root refl
    | inr child ↦ rw child refl
  ]

  runs-finish_run :
      (finish : Finish) (run : Run) (s : Handler)
      → (finish_run sorted_keys str_chars cfg amb finish run s).runs ≡ s.runs
  unfolding finish_run close_trace
  runs-finish_run finish run s =
      runs-close_if s.runs cfg amb finish (elapsed amb run) run run.is_root _ (
        runs-publish_if s.runs (is_some run.span_id)
          (span_ended sorted_keys str_chars cfg amb finish run)
          (totalled sorted_keys str_chars cfg amb finish run s)
          (runs-with_trace run.trace_id _ (find_trace run.trace_id s.traces) s))

  length-end_found :
      (finish : Finish) (i : ℕ) (o : Option Run) (s : Handler)
      → length s.runs ≤ cfg.max_tracked_runs
      → length (end_found sorted_keys str_chars cfg amb finish i o s).runs ≤ cfg.max_tracked_runs
  length-end_found finish i none s h = h
  length-end_found finish i (some run) s h =
      rw (runs-finish_run finish _ (record s { runs = pop_run i s.runs }))
        (omega (arith, length-pop_run i s.runs))

  length-end_keyed :
      (finish : Finish) (o : Option ℕ) (s : Handler)
      → length s.runs ≤ cfg.max_tracked_runs
      → length (end_keyed sorted_keys str_chars cfg amb finish o s).runs ≤ cfg.max_tracked_runs
  length-end_keyed finish none s h = h
  length-end_keyed finish (some i) s h = length-end_found finish i (find_run i s.runs) s h

  module _ (id_of : Json → ℕ) where
    runs-begin_run :
        (start : Start) (run : Run) (s : Handler)
        → (begin_run sorted_keys str_chars id_of cfg amb start run s).runs
          ≡ register cfg.max_tracked_runs run s.runs
    runs-begin_run start run s =
        let input = captured sorted_keys str_chars cfg start.payload in
        let s1 : Handler = record s { runs = register cfg.max_tracked_runs run s.runs } in
        let s2 = open_trace sorted_keys str_chars cfg amb run input s1 in
        runs-announce run input start.skip (count_span run s2)
        ∙ runs-count_span run s2
        ∙ runs-open_trace run input s1

    length-start_keyed :
        (start : Start) (o : Option ℕ) (s : Handler)
        → length s.runs ≤ cfg.max_tracked_runs
        → length (start_keyed sorted_keys str_chars id_of cfg amb start o s).runs
          ≤ cfg.max_tracked_runs
    unfolding register
    length-start_keyed start none s h = h
    length-start_keyed start (some rid) s h =
        let run =
          new_run id_of cfg amb rid start
            (parent_of sorted_keys str_chars id_of start.parent_run_id s.runs) in
        rw (runs-begin_run start run s) (length-evict cfg.max_tracked_runs (put_run run s.runs))

runs-on_trace :
    (f : TraceAgg → TraceAgg) (o : Option Run) (s : Handler) → (on_trace f o s).runs ≡ s.runs
runs-on_trace f none s = refl
runs-on_trace f (some run) s = runs-with_trace run.trace_id f (find_trace run.trace_id s.traces) s

runs-agent_action :
    (i : Option ℕ) (tool_name : String) (s : Handler) → (agent_action i tool_name s).runs ≡ s.runs
unfolding agent_action
runs-agent_action none tool_name s = refl
runs-agent_action (some i) tool_name s = runs-on_trace _ (find_run i s.runs) s

runs-agent_finish :
    (i : Option ℕ) (values : Option Fields) (s : Handler) → (agent_finish i values s).runs ≡ s.runs
unfolding agent_finish
runs-agent_finish i none s = refl
runs-agent_finish none (some values) s = refl
runs-agent_finish (some i) (some values) s = runs-on_trace _ (find_run i s.runs) s

module _ (sorted_keys : List String → List String) (str_chars : Json → ℕ) (id_of : Json → ℕ)
    (cfg : Config) (Outside : ℕ → Type 0) where
  -- The run table holds `max_tracked_runs` runs at most, after any hooks.
  pub length-runs-le :
      (s : Handler)
      → Reachable sorted_keys str_chars id_of cfg Outside s
      → length s.runs ≤ cfg.max_tracked_runs
  unfolding start_run end_run
  length-runs-le s fresh = omega arith
  length-runs-le s (started {s = before} amb start out r) =
      length-start_keyed sorted_keys str_chars cfg amb id_of start start.run_id before
        (length-runs-le before r)
  length-runs-le s (finished {s = before} amb finish r) =
      length-end_keyed sorted_keys str_chars cfg amb finish finish.run_id before
        (length-runs-le before r)
  length-runs-le s (acted {s = before} i tool_name r) =
      rw (runs-agent_action i tool_name before) (length-runs-le before r)
  length-runs-le s (agent_finished {s = before} i values r) =
      rw (runs-agent_finish i values before) (length-runs-le before r)
