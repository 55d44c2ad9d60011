-- ===== src/Handler/Opening.antt =====
-- `_start_run` of packages/obs-sdk/src/obs_sdk/langchain.py and the tree of spans.
use agent_lens_platform.Common.{
  ℕ, ◌≡◌, refl, String, Bool, true, false, Option, none, some, List, inl, inr, if◌then◌else◌,
  is_some, All, Bool-cases,
}
use agent_lens_platform.Common.Text.{Json, Fields}
use agent_lens_platform.Event.{span_start, ObsEvent}
use agent_lens_platform.Handler.{
  or_else, Run, Ambient, Config, Handler, Start, put_run, register, find_trace, put_trace,
}
use agent_lens_platform.Handler.Runs.{event_of, new_run, no_details}
use agent_lens_platform.Handler.Bookkeeping.{
  count_span, open_trace, announce, begin_run, start_keyed, start_run, parent_of, captured,
  opening_agg,
}
use agent_lens_platform.Handler.Connected.{
  Starts, Opened, Known, RunOk, Good, Grows, Some-append, Some-last, OnSome, Opened-some, found_ok,
  All-put_run, All-evict, Known-if, Good-Grows, publish-Good, with_trace-Good, with_trace-published,
}

pub new_run-span_id :
    (id_of : Json → ℕ) (cfg : Config) (amb : Ambient) (rid : ℕ) (start : Start)
    (parent : Option Run)
    → (new_run id_of cfg amb rid start parent).span_id
      ≡ (if start.skip then none else some amb.new_span_id)
unfolding new_run
new_run-span_id id_of cfg amb rid start none = refl
new_run-span_id id_of cfg amb rid start (some parent) = refl

-- The steps of a start.
open_trace-Grows :
    (sorted_keys : List String → List String) (str_chars : Json → ℕ) (cfg : Config) (amb : Ambient)
    (run : Run) (input : Fields) (s : Handler)
    → Grows s.published (open_trace sorted_keys str_chars cfg amb run input s).published
open_trace-Grows sorted_keys str_chars cfg amb run input s P h = elim (Bool-cases run.is_root) [
  | inl root ↦ rw root (Some-append P s.published _ h)
  | inr child ↦ rw child h
]

count_span-Grows : (run : Run) (s : Handler) → Grows s.published (count_span run s).published
count_span-Grows run s P h = elim (Bool-cases (is_some run.span_id)) [
  | inl kept ↦
      rw kept (with_trace-published run.trace_id _ (find_trace run.trace_id s.traces) s P h)
  | inr skipped ↦ rw skipped h
]

module _ (sorted_keys : List String → List String) (str_chars : Json → ℕ) (id_of : Json → ℕ)
    (cfg : Config) (amb : Ambient) where
  announce-Grows :
      (run : Run) (input : Fields) (skip : Bool) (s : Handler)
      → Grows s.published (announce sorted_keys str_chars cfg amb run input skip s).published
  announce-Grows run input true s P h = h
  announce-Grows run input false s P h = Some-append P s.published _ h

  module _ (Outside : ℕ → Type 0) where
    open_trace-Good :
        (es : List ObsEvent) (run : Run) (input : Fields) (s : Handler)
        → Good Outside es s
        → Good Outside es (open_trace sorted_keys str_chars cfg amb run input s)
    unfolding event_of
    open_trace-Good es run input s h = elim (Bool-cases run.is_root) [
      | inl root ↦ rw root (
          publish-Good Outside es _
            (record s {
              traces =
                  put_trace run.trace_id (opening_agg sorted_keys str_chars run input) s.traces;
            })
            (tt, λ k. tt) h)
      | inr child ↦ rw child h
    ]

    count_span-Good :
        (es : List ObsEvent) (run : Run) (s : Handler)
        → Good Outside es s
        → Good Outside es (count_span run s)
    count_span-Good es run s h = elim (Bool-cases (is_some run.span_id)) [
      | inl kept ↦
          rw kept (with_trace-Good Outside es run.trace_id _ (find_trace run.trace_id s.traces) s h)
      | inr skipped ↦ rw skipped h
    ]

    announce-Good :
        (es : List ObsEvent) (run : Run) (input : Fields) (skip : Bool) (s : Handler)
        → RunOk Outside es run
        → Good Outside es s
        → Good Outside es (announce sorted_keys str_chars cfg amb run input skip s)
    unfolding event_of
    announce-Good es run input true s ok h = h
    announce-Good es run input false s ok h =
        publish-Good Outside es _ s
          (Known-if Outside (is_some run.span_id) es run.trace_id run.parent_span_id ok.1, λ k. cc)
          h

    begin_run-Good :
        (es : List ObsEvent) (start : Start) (run : Run) (s : Handler)
        → RunOk Outside es run
        → Good Outside es s
        → Good Outside es (begin_run sorted_keys str_chars id_of cfg amb start run s)
    unfolding register
    begin_run-Good es start run s ok h =
        let input = captured sorted_keys str_chars cfg start.payload in
        let s1 : Handler = record s { runs = register cfg.max_tracked_runs run s.runs } in
        let s2 = open_trace sorted_keys str_chars cfg amb run input s1 in
        let kept =
          All-evict (RunOk Outside es) cfg.max_tracked_runs (put_run run s.runs)
            (All-put_run (RunOk Outside es) run s.runs ok h.0) in
        announce-Good es run input start.skip (count_span run s2) ok
          (count_span-Good es run s2 (open_trace-Good es run input s1 (kept, h.1)))

  begin_run-Grows :
      (start : Start) (run : Run) (s : Handler)
      → Grows s.published (begin_run sorted_keys str_chars id_of cfg amb start run s).published
  begin_run-Grows start run s P h =
      let input = captured sorted_keys str_chars cfg start.payload in
      let s1 : Handler = record s { runs = register cfg.max_tracked_runs run s.runs } in
      let s2 = open_trace sorted_keys str_chars cfg amb run input s1 in
      announce-Grows run input start.skip (count_span run s2) P (
        count_span-Grows run s2 P (open_trace-Grows sorted_keys str_chars cfg amb run input s1 P h))

  -- The span of a run is open once its start is announced.
  announce-opens :
      (run : Run) (i : ℕ) (input : Fields) (skip : Bool) (s : Handler)
      → run.span_id ≡ (if skip then none else some i)
      → Opened
          (announce sorted_keys str_chars cfg amb run input skip s).published
          run.trace_id
          run.span_id
  unfolding event_of
  announce-opens run i input true s e = rw e tt
  announce-opens run i input false s e = Opened-some _ run.trace_id i run.span_id e (
      Some-last (Starts i run.trace_id) s.published
        (event_of cfg amb run span_start (record (no_details run.span_id) { payload_in = input }))
        (refl, (e, refl)))

  begin_run-opens :
      (start : Start) (run : Run) (i : ℕ) (s : Handler)
      → run.span_id ≡ (if start.skip then none else some i)
      → Opened
          (begin_run sorted_keys str_chars id_of cfg amb start run s).published
          run.trace_id
          run.span_id
  begin_run-opens start run i s e =
      announce-opens run i (captured sorted_keys str_chars cfg start.payload) start.skip _ e

  module _ (Outside : ℕ → Type 0) where
    Known-or_else :
        (es : List ObsEvent) (t : ℕ) (a b : Option ℕ)
        → Opened es t a
        → Known Outside es t b
        → Known Outside es t (or_else a b)
    Known-or_else es t none b h k = k
    Known-or_else es t (some i) b h k = inr h

    Known-Outside :
        (es : List ObsEvent) (t : ℕ) (o : Option ℕ) → OnSome Outside o → Known Outside es t o
    Known-Outside es t none h = tt
    Known-Outside es t (some p) h = inl h

    -- The parent of a new run is known.
    new_run-Known :
        (es : List ObsEvent) (rid : ℕ) (start : Start) (parent : Option Run)
        → OnSome (RunOk Outside es) parent
        → OnSome Outside amb.current_span
        → let run = new_run id_of cfg amb rid start parent in
          Known Outside es run.trace_id run.parent_span_id
    unfolding new_run
    new_run-Known es rid start none ok out = Known-Outside es _ amb.current_span out
    new_run-Known es rid start (some parent) ok out =
        Known-or_else es parent.trace_id parent.span_id parent.parent_span_id ok.0 ok.1

    parent_ok :
        (P : Run → Type 0) (o : Option ℕ) (runs : List Run)
        → All P runs
        → OnSome P (parent_of sorted_keys str_chars id_of o runs)
    parent_ok P none runs h = tt
    parent_ok P (some i) runs h = found_ok P i runs h

    start_keyed-Good :
        (start : Start) (o : Option ℕ) (s : Handler)
        → OnSome Outside amb.current_span
        → Good Outside s.published s
        → let s' = start_keyed sorted_keys str_chars id_of cfg amb start o s in
          Good Outside s'.published s'
    start_keyed-Good start none s out h = h
    start_keyed-Good start (some rid) s out h =
        let parent = parent_of sorted_keys str_chars id_of start.parent_run_id s.runs in
        let run = new_run id_of cfg amb rid start parent in
        let es = (begin_run sorted_keys str_chars id_of cfg amb start run s).published in
        let later = Good-Grows Outside s.published es s (begin_run-Grows start run s) h in
        let ok = parent_ok (RunOk Outside es) start.parent_run_id s.runs later.0 in
        begin_run-Good Outside es start run s
          (
            begin_run-opens start run amb.new_span_id s
                (new_run-span_id id_of cfg amb rid start parent),
            new_run-Known es rid start parent ok out,
          )
          later

    pub start_run-Good :
        (start : Start) (s : Handler)
        → OnSome Outside amb.current_span
        → Good Outside s.published s
        → let s' = start_run sorted_keys str_chars id_of cfg amb start s in
          Good Outside s'.published s'
    unfolding start_run
    start_run-Good start s out h = start_keyed-Good start start.run_id s out h
