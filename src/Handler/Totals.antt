-- ===== src/Handler/Totals.antt =====
-- The totals of an open trace of packages/obs-sdk/src/obs_sdk/langchain.py and the events that the
-- hooks published.
use agent_lens_platform.Common.{
  ℕ, ◌+◌, ◌≡◌, refl, ap, ◌∙◌, String, Bool, true, false, Option, none, some, List, [], ◌∷◌, ◌++◌,
  inl, inr, if◌then◌else◌, Bool-cases, Option-cases, ◌==◌, ==_iff, sym, arith,
}
use agent_lens_platform.Common.Text.{Fields, end, field}
use agent_lens_platform.Event.{
  EventType, trace_start, trace_end, span_start, span_end, SpanKind, llm, tool, SpanStatus, Usage,
  ObsEvent,
}
use agent_lens_platform.Handler.{TraceAgg, Handler, Finish, find_trace, put_trace, pop_trace}
use agent_lens_platform.Handler.Runs.{as_is}
use agent_lens_platform.Handler.Bookkeeping.{
  publish, with_trace, counted_span, ended, used, failed, answered,
}
use agent_lens_platform.Handler.Connected.{OnSome}

-- The spans of one kind that a trace started since its own last start.
abbrev pub after : EventType → Bool → ℕ → ℕ
after trace_start counts n = 0
after span_start counts n = if counts then n + 1 else n
after trace_end counts n = n
after span_end counts n = n

abbrev pub counted : (SpanKind → Bool) → ℕ → ObsEvent → ℕ → ℕ
counted p t e n = if e.trace_id == t then after e.type (p e.kind) n else n

unfoldable pub starts_from : (SpanKind → Bool) → ℕ → ℕ → List ObsEvent → ℕ
starts_from p t n [] = n
starts_from p t n (e ∷ es) = starts_from p t (counted p t e n) es

abbrev pub any_kind : SpanKind → Bool
any_kind _ = true

abbrev pub is_llm : SpanKind → Bool
is_llm llm = true
is_llm _ = false

abbrev pub is_tool : SpanKind → Bool
is_tool tool = true
is_tool _ = false

abbrev pub Tallied : List ObsEvent → ℕ → TraceAgg → Type 0
Tallied es t agg =
    (agg.span_count ≡ starts_from any_kind t 0 es)
    × ((agg.llm_calls ≡ starts_from is_llm t 0 es) × (agg.tool_calls ≡ starts_from is_tool t 0 es))

-- Every open trace has counted the spans that it published.
abbrev pub AllTallied : Handler → Type 0
AllTallied s = (t : ℕ) → OnSome (Tallied s.published t) (find_trace t s.traces)

pub starts_from-last :
    (p : SpanKind → Bool) (t n : ℕ) (es : List ObsEvent) (e : ObsEvent)
    → starts_from p t n (es ++ e ∷ []) ≡ counted p t e (starts_from p t n es)
unfolding starts_from
starts_from-last p t n [] e = refl
starts_from-last p t n (x ∷ es) e = starts_from-last p t (counted p t x n) es e

pub find-put_trace :
    (t i : ℕ) (agg : TraceAgg) (ts : List (ℕ × TraceAgg))
    → find_trace t (put_trace i agg ts) ≡ (if i == t then some agg else find_trace t ts)
unfolding find_trace put_trace
find-put_trace t i agg [] = refl
find-put_trace t i agg ((j, old) ∷ ts) = ground (arith, find-put_trace t i agg ts)

pub find-pop_trace :
    (t i : ℕ) (ts : List (ℕ × TraceAgg))
    → find_trace t (pop_trace i ts) ≡ (if i == t then none else find_trace t ts)
unfolding find_trace pop_trace
find-pop_trace t i [] = ground arith
find-pop_trace t i ((j, old) ∷ ts) = ground (arith, find-pop_trace t i ts)

find_trace-same :
    (i t : ℕ) (ts : List (ℕ × TraceAgg)) → (i == t) ≡ true → find_trace i ts ≡ find_trace t ts
find_trace-same i t ts same = ap (λ k. find_trace k ts) ((==_iff i t).0 same)

pub find-with_trace :
    (t i : ℕ) (f : TraceAgg → TraceAgg) (s : Handler)
    → find_trace t (with_trace i f (find_trace i s.traces) s).traces
      ≡ (if i == t then as_is f (find_trace t s.traces) else find_trace t s.traces)
find-with_trace t i f s = elim (Bool-cases (i == t)) [
  | inl same ↦ elim (Option-cases (find_trace i s.traces)) [
    | inl closed ↦ rw (same, closed, sym (find_trace-same i t s.traces same) ∙ closed) refl
    | inr (agg, opened) ↦
        rw
          (
            opened,
            find-put_trace t i (f agg) s.traces,
            same,
            sym (find_trace-same i t s.traces same) ∙ opened,
          )
          refl
  ]
  | inr different ↦ elim (Option-cases (find_trace i s.traces)) [
    | inl closed ↦ rw (different, closed) refl
    | inr (agg, opened) ↦ rw (opened, find-put_trace t i (f agg) s.traces, different) refl
  ]
]

published-with_trace :
    (i : ℕ) (f : TraceAgg → TraceAgg) (o : Option TraceAgg) (s : Handler)
    → (with_trace i f o s).published ≡ s.published
published-with_trace i f none s = refl
published-with_trace i f (some agg) s = refl

-- An event that starts no span and no trace.
abbrev pub Quiet : ObsEvent → Type 0
Quiet e = (p : SpanKind → Bool) (t n : ℕ) → counted p t e n ≡ n

pub span_end-Quiet : (e : ObsEvent) → e.type ≡ span_end → Quiet e
span_end-Quiet e h p t n = rw h (elim (Bool-cases (e.trace_id == t)) [
  | inl same ↦ rw same refl
  | inr different ↦ rw different refl
])

pub trace_end-Quiet : (e : ObsEvent) → e.type ≡ trace_end → Quiet e
trace_end-Quiet e h p t n = rw h (elim (Bool-cases (e.trace_id == t)) [
  | inl same ↦ rw same refl
  | inr different ↦ rw different refl
])

Tallied-publish :
    (es : List ObsEvent) (e : ObsEvent) (t : ℕ) (agg : TraceAgg)
    → Quiet e
    → Tallied es t agg
    → Tallied (es ++ e ∷ []) t agg
Tallied-publish es e t agg quiet h = (
  h.0 ∙ sym (starts_from-last any_kind t 0 es e ∙ quiet any_kind t _),
  (
    h.1.0 ∙ sym (starts_from-last is_llm t 0 es e ∙ quiet is_llm t _),
    h.1.1 ∙ sym (starts_from-last is_tool t 0 es e ∙ quiet is_tool t _),
  ),
)

OnSome-map :
    (P Q : TraceAgg → Type 0) (o : Option TraceAgg)
    → ((agg : TraceAgg) → P agg → Q agg)
    → OnSome P o
    → OnSome Q o
OnSome-map P Q none f h = tt
OnSome-map P Q (some agg) f h = f agg h

OnSome-as_is :
    (P Q : TraceAgg → Type 0) (g : TraceAgg → TraceAgg) (o : Option TraceAgg)
    → ((agg : TraceAgg) → P agg → Q (g agg))
    → OnSome P o
    → OnSome Q (as_is g o)
OnSome-as_is P Q g none f h = tt
OnSome-as_is P Q g (some agg) f h = f agg h

pub publish-AllTallied :
    (e : ObsEvent) (s : Handler) → Quiet e → AllTallied s → AllTallied (publish e s)
publish-AllTallied e s quiet h t =
    OnSome-map (Tallied s.published t) (Tallied (s.published ++ e ∷ []) t) (find_trace t s.traces)
      (λ agg. Tallied-publish s.published e t agg quiet) (h t)

module _ (es : List ObsEvent) (t : ℕ) where
  used-Tallied :
      (usage : Option Usage) (agg : TraceAgg) → Tallied es t agg → Tallied es t (used usage agg)
  used-Tallied none agg h = h
  used-Tallied (some u) agg h = h

  failed-Tallied :
      (status : SpanStatus) (agg : TraceAgg) → Tallied es t agg → Tallied es t (failed status agg)
  failed-Tallied SpanStatus.running agg h = h
  failed-Tallied SpanStatus.ok agg h = h
  failed-Tallied SpanStatus.error agg h = h

  answered-Tallied :
      (output : Fields) (agg : TraceAgg) → Tallied es t agg → Tallied es t (answered output agg)
  answered-Tallied end agg h = h
  answered-Tallied (field k v d) agg h = h

  -- The end of a run changes none of the counts.
  pub ended-Tallied :
      (finish : Finish) (model : Option String) (output : Fields) (agg : TraceAgg)
      → Tallied es t agg
      → Tallied es t (ended finish model output agg)
  ended-Tallied finish model output agg h =
      answered-Tallied output _
        (failed-Tallied finish.status (used finish.usage agg) (used-Tallied finish.usage agg h))

pub with_trace-AllTallied :
    (i : ℕ) (f : TraceAgg → TraceAgg) (s : Handler)
    → ((es : List ObsEvent) (t : ℕ) (agg : TraceAgg) → Tallied es t agg → Tallied es t (f agg))
    → AllTallied s
    → AllTallied (with_trace i f (find_trace i s.traces) s)
with_trace-AllTallied i f s keeps h t =
    rw (find-with_trace t i f s, published-with_trace i f (find_trace i s.traces) s)
      (elim (Bool-cases (i == t)) [
        | inl same ↦ rw same (
            OnSome-as_is (Tallied s.published t) (Tallied s.published t) f (find_trace t s.traces)
              (keeps s.published t) (h t))
        | inr different ↦ rw different (h t)
      ])

abbrev Raised : SpanKind → TraceAgg → TraceAgg → Type 0
Raised k agg agg' =
    (agg'.span_count ≡ agg.span_count + 1)
    × ((agg'.llm_calls ≡ (if is_llm k then agg.llm_calls + 1 else agg.llm_calls))
        × (agg'.tool_calls ≡ (if is_tool k then agg.tool_calls + 1 else agg.tool_calls)))

counted_span-Raised : (k : SpanKind) (agg : TraceAgg) → Raised k agg (counted_span k agg)
counted_span-Raised SpanKind.llm agg = (refl, (refl, refl))
counted_span-Raised SpanKind.tool agg = (refl, (refl, refl))
counted_span-Raised SpanKind.agent agg = (refl, (refl, refl))
counted_span-Raised SpanKind.chain agg = (refl, (refl, refl))
counted_span-Raised SpanKind.retriever agg = (refl, (refl, refl))
counted_span-Raised SpanKind.guardrail agg = (refl, (refl, refl))
counted_span-Raised SpanKind.other agg = (refl, (refl, refl))

starts_from-start :
    (p : SpanKind → Bool) (t : ℕ) (es : List ObsEvent) (e : ObsEvent)
    → e.type ≡ span_start
    → (e.trace_id == t) ≡ true
    → starts_from p t 0 (es ++ e ∷ [])
      ≡ (if p e.kind then starts_from p t 0 es + 1 else starts_from p t 0 es)
starts_from-start p t es e type same = starts_from-last p t 0 es e ∙ rw (same, type) refl

starts_from-elsewhere :
    (p : SpanKind → Bool) (t : ℕ) (es : List ObsEvent) (e : ObsEvent)
    → (e.trace_id == t) ≡ false
    → starts_from p t 0 (es ++ e ∷ []) ≡ starts_from p t 0 es
starts_from-elsewhere p t es e different = starts_from-last p t 0 es e ∙ rw different refl

-- A span that starts is counted once, where its trace is open.
counted_span-Tallied :
    (es : List ObsEvent) (e : ObsEvent) (t : ℕ) (agg : TraceAgg)
    → e.type ≡ span_start
    → (e.trace_id == t) ≡ true
    → Tallied es t agg
    → Tallied (es ++ e ∷ []) t (counted_span e.kind agg)
counted_span-Tallied es e t agg type same h =
    let raised = counted_span-Raised e.kind agg in
    (
      raised.0 ∙ ap (λ n. n + 1) h.0 ∙ sym (starts_from-start any_kind t es e type same),
      (
        raised.1.0
            ∙ ap (λ n. if is_llm e.kind then n + 1 else n) h.1.0
            ∙ sym (starts_from-start is_llm t es e type same),
        raised.1.1
            ∙ ap (λ n. if is_tool e.kind then n + 1 else n) h.1.1
            ∙ sym (starts_from-start is_tool t es e type same),
      ),
    )

Tallied-elsewhere :
    (es : List ObsEvent) (e : ObsEvent) (t : ℕ) (agg : TraceAgg)
    → (e.trace_id == t) ≡ false
    → Tallied es t agg
    → Tallied (es ++ e ∷ []) t agg
Tallied-elsewhere es e t agg different h = (
  h.0 ∙ sym (starts_from-elsewhere any_kind t es e different),
  (
    h.1.0 ∙ sym (starts_from-elsewhere is_llm t es e different),
    h.1.1 ∙ sym (starts_from-elsewhere is_tool t es e different),
  ),
)

-- The count of a span and the event that it is published by.
same_span_start-AllTallied :
    (e : ObsEvent) (s : Handler)
    → e.type ≡ span_start
    → AllTallied s
    → AllTallied
        (publish e (with_trace e.trace_id (counted_span e.kind) (find_trace e.trace_id s.traces) s))
same_span_start-AllTallied e s type h t =
    rw
      (
        find-with_trace t e.trace_id (counted_span e.kind) s,
        published-with_trace e.trace_id (counted_span e.kind) (find_trace e.trace_id s.traces) s,
      )
      (elim (Bool-cases (e.trace_id == t)) [
        | inl same ↦ rw same (
            OnSome-as_is (Tallied s.published t) (Tallied (s.published ++ e ∷ []) t)
              (counted_span e.kind) (find_trace t s.traces)
              (λ agg. counted_span-Tallied s.published e t agg type same) (h t))
        | inr different ↦ rw different (
            OnSome-map (Tallied s.published t) (Tallied (s.published ++ e ∷ []) t)
              (find_trace t s.traces) (λ agg. Tallied-elsewhere s.published e t agg different)
              (h t))
      ])

pub span_start-AllTallied :
    (i : ℕ) (k : SpanKind) (e : ObsEvent) (s : Handler)
    → e.type ≡ span_start
    → e.trace_id ≡ i
    → e.kind ≡ k
    → AllTallied s
    → AllTallied (publish e (with_trace i (counted_span k) (find_trace i s.traces) s))
span_start-AllTallied i k e s type trace kind h =
    rw (sym trace, sym kind) (same_span_start-AllTallied e s type h)

starts_from-reset :
    (p : SpanKind → Bool) (t : ℕ) (es : List ObsEvent) (e : ObsEvent)
    → e.type ≡ trace_start
    → (e.trace_id == t) ≡ true
    → starts_from p t 0 (es ++ e ∷ []) ≡ 0
starts_from-reset p t es e type same = starts_from-last p t 0 es e ∙ rw (same, type) refl

-- A trace that starts has counted nothing.
pub trace_start-AllTallied :
    (e : ObsEvent) (agg : TraceAgg) (s : Handler)
    → e.type ≡ trace_start
    → (agg.span_count ≡ 0) × ((agg.llm_calls ≡ 0) × (agg.tool_calls ≡ 0))
    → AllTallied s
    → AllTallied (publish e (record s { traces = put_trace e.trace_id agg s.traces }))
trace_start-AllTallied e agg s type zero_counts h t =
    rw (find-put_trace t e.trace_id agg s.traces) (elim (Bool-cases (e.trace_id == t)) [
      | inl same ↦ rw same (
        zero_counts.0 ∙ sym (starts_from-reset any_kind t s.published e type same),
        (
          zero_counts.1.0 ∙ sym (starts_from-reset is_llm t s.published e type same),
          zero_counts.1.1 ∙ sym (starts_from-reset is_tool t s.published e type same),
        ),
      )
      | inr different ↦ rw different (
          OnSome-map (Tallied s.published t) (Tallied (s.published ++ e ∷ []) t)
            (find_trace t s.traces) (λ agg'. Tallied-elsewhere s.published e t agg' different)
            (h t))
    ])

-- A trace that ends is no longer open.
pub closed-AllTallied :
    (e : ObsEvent) (i : ℕ) (s : Handler)
    → Quiet e
    → AllTallied s
    → AllTallied (publish e (record s { traces = pop_trace i s.traces }))
closed-AllTallied e i s quiet h t = rw (find-pop_trace t i s.traces) (elim (Bool-cases (i == t)) [
  | inl same ↦ rw same tt
  | inr different ↦ rw different (publish-AllTallied e s quiet h t)
])
