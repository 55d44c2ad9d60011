-- ===== src/Handler/Report.antt =====
-- What `_close_trace` of packages/obs-sdk/src/obs_sdk/langchain.py reports of a trace.
use agent_lens_platform.Common.{
  ℕ, ◌≡◌, refl, ◌∙◌, ap, String, Bool, true, false, Option, some, List, [], ◌∷◌, ◌++◌,
  if◌then◌else◌, is_some, ==_iff,
}
use mathlib.Core.Path.{subst}
use agent_lens_platform.Common.Text.{Json, get, get-put}
use agent_lens_platform.Event.{trace_end, ObsEvent}
use agent_lens_platform.Handler.{
  Run, TraceAgg, Ambient, Config, Handler, Finish, find_run, pop_run, find_trace,
}
use agent_lens_platform.Handler.Runs.{number}
use agent_lens_platform.Handler.Bookkeeping.{
  publish, ended, elapsed, is_named, closing_event, close_found, close_trace, with_totals, captured,
  finish_run, end_run,
}
use agent_lens_platform.Handler.Connected.{OnSome}
use agent_lens_platform.Handler.Closing.{totalled, span_ended}
use agent_lens_platform.Handler.Reach.{Reachable}
use agent_lens_platform.Handler.Totals.{
  Tallied, find-with_trace, ended-Tallied, starts_from, any_kind, is_llm, is_tool,
}
use agent_lens_platform.Handler.Tally.{Reachable-AllTallied}

-- An end of a trace whose attributes count the spans that the trace started among the events.
abbrev pub Counts : List ObsEvent → ℕ → ObsEvent → Type 0
Counts es t e =
    (e.type ≡ trace_end)
    × ((get "span_count" e.attributes ≡ some (number (starts_from any_kind t 0 es)))
        × ((get "llm_calls" e.attributes ≡ some (number (starts_from is_llm t 0 es)))
            × (get "tool_calls" e.attributes ≡ some (number (starts_from is_tool t 0 es)))))

abbrev pub EndsWith : (ObsEvent → Type 0) → List ObsEvent → Type 0
EndsWith P es = (earlier : List ObsEvent) × ((e : ObsEvent) × ((es ≡ earlier ++ e ∷ []) × P e))

get-with_totals :
    (agg : TraceAgg)
    → (get "span_count" (with_totals agg) ≡ some (number agg.span_count))
      × ((get "llm_calls" (with_totals agg) ≡ some (number agg.llm_calls))
          × (get "tool_calls" (with_totals agg) ≡ some (number agg.tool_calls)))
get-with_totals agg = (simp get-put, (simp get-put, simp get-put))

closing_event-Counts :
    (es : List ObsEvent) (t : ℕ) (cfg : Config) (amb : Ambient) (finish : Finish) (latency : ℕ)
    (agg : TraceAgg)
    → Tallied es t agg
    → Counts es t (closing_event cfg amb finish latency agg)
closing_event-Counts es t cfg amb finish latency agg h =
    let totals = get-with_totals agg in
    let counted = λ (n : ℕ). some (number n) in
    (
      refl,
      (totals.0 ∙ ap counted h.0, (totals.1.0 ∙ ap counted h.1.0, totals.1.1 ∙ ap counted h.1.1)),
    )

close_found-Counts :
    (es : List ObsEvent) (t : ℕ) (cfg : Config) (amb : Ambient) (finish : Finish) (latency : ℕ)
    (o : Option TraceAgg) (agg : TraceAgg) (s : Handler)
    → o ≡ some agg
    → Tallied es t agg
    → EndsWith (Counts es t) (close_found cfg amb finish latency t o s).published
close_found-Counts es t cfg amb finish latency o agg s e h = rw e (
  s.published,
  (
    closing_event cfg amb finish latency agg,
    (refl, closing_event-Counts es t cfg amb finish latency agg h),
  ),
)

close_trace-Counts :
    (es : List ObsEvent) (cfg : Config) (amb : Ambient) (finish : Finish) (latency : ℕ) (run : Run)
    (agg : TraceAgg) (b : Bool) (s : Handler)
    → b ≡ true
    → find_trace run.trace_id s.traces ≡ some agg
    → Tallied es run.trace_id agg
    → EndsWith
        (Counts es run.trace_id)
        (if b then close_trace cfg amb run finish latency s else s).published
unfolding close_trace
close_trace-Counts es cfg amb finish latency run agg b s root e h = rw root (
    close_found-Counts es run.trace_id cfg amb finish latency (find_trace run.trace_id s.traces) agg
      s e h)

OnSome-some :
    (P : TraceAgg → Type 0) (o : Option TraceAgg) (agg : TraceAgg)
    → o ≡ some agg
    → OnSome P o
    → P agg
OnSome-some P o agg e h = subst (OnSome P) e h

find-publish_if :
    (t : ℕ) (b : Bool) (e : ObsEvent) (s : Handler)
    → find_trace t (if b then publish e s else s).traces ≡ find_trace t s.traces
find-publish_if t true e s = refl
find-publish_if t false e s = refl

module _ (sorted_keys : List String → List String) (str_chars : Json → ℕ) (cfg : Config)
    (amb : Ambient) where
  finish_run-Counts :
      (es : List ObsEvent) (finish : Finish) (run : Run) (agg : TraceAgg) (s : Handler)
      → run.is_root ≡ true
      → find_trace run.trace_id s.traces ≡ some agg
      → Tallied es run.trace_id agg
      → EndsWith
          (Counts es run.trace_id)
          (finish_run sorted_keys str_chars cfg amb finish run s).published
  unfolding finish_run
  finish_run-Counts es finish run agg s root e h =
      let output = captured sorted_keys str_chars cfg finish.payload in
      close_trace-Counts es cfg amb finish (elapsed amb run) run (ended finish run.model output agg)
        run.is_root _ root
        (find-publish_if run.trace_id (is_some run.span_id)
            (span_ended sorted_keys str_chars cfg amb finish run)
            (totalled sorted_keys str_chars cfg amb finish run s)
          ∙ find-with_trace run.trace_id run.trace_id (ended finish run.model output) s
          ∙ rw ((==_iff run.trace_id run.trace_id).1 refl, e) refl)
        (ended-Tallied es run.trace_id finish run.model output agg h)

  named_run-Counts :
      (es : List ObsEvent) (finish : Finish) (run : Run) (agg : TraceAgg) (named : Bool)
      (s : Handler)
      → run.is_root ≡ true
      → find_trace run.trace_id s.traces ≡ some agg
      → Tallied es run.trace_id agg
      → EndsWith
          (Counts es run.trace_id)
          (finish_run sorted_keys str_chars cfg amb finish
            (if named then record run { model = finish.model } else run)
            s).published
  named_run-Counts es finish run agg true s =
      finish_run-Counts es finish (record run { model = finish.model }) agg s
  named_run-Counts es finish run agg false s = finish_run-Counts es finish run agg s

module _ (sorted_keys : List String → List String) (str_chars : Json → ℕ) (id_of : Json → ℕ)
    (cfg : Config) (Outside : ℕ → Type 0) where
  -- When the root run of an open trace ends, the last event published is the end of a trace, and its
  -- attributes count the spans, the model calls and the tool calls whose starts were published for
  -- that trace since its own start.
  pub end_run-Counts :
      (amb : Ambient) (finish : Finish) (i : ℕ) (run : Run) (agg : TraceAgg) (s : Handler)
      → Reachable sorted_keys str_chars id_of cfg Outside s
      → finish.run_id ≡ some i
      → find_run i s.runs ≡ some run
      → run.is_root ≡ true
      → find_trace run.trace_id s.traces ≡ some agg
      → EndsWith
          (Counts s.published run.trace_id)
          (end_run sorted_keys str_chars cfg amb finish s).published
  unfolding end_run
  end_run-Counts amb finish i run agg s r key found root opened =
      let tallied =
        OnSome-some (Tallied s.published run.trace_id) (find_trace run.trace_id s.traces) agg opened
          (Reachable-AllTallied sorted_keys str_chars id_of cfg Outside s r run.trace_id) in
      rw (key, found)
        (named_run-Counts sorted_keys str_chars cfg amb s.published finish run agg
          (is_named finish.model) (record s { runs = pop_run i s.runs }) root opened tallied)
