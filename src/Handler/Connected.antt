-- ===== src/Handler/Connected.antt =====
-- The tree of spans that the hooks of packages/obs-sdk/src/obs_sdk/langchain.py publish.
use agent_lens_platform.Common.{
  ℕ, ◌≡◌, Bool, true, false, Option, none, some, List, [], ◌∷◌, ◌++◌, ◌⊎◌, inl, inr, if◌then◌else◌,
  All, All-append, Some, Bool-cases, ltb, length, ◌==◌,
}
use agent_lens_platform.Event.{span_start, span_end, ObsEvent}
use agent_lens_platform.Handler.{Run, TraceAgg, Handler, find_run, put_run, pop_run, evict}
use agent_lens_platform.Handler.Bookkeeping.{publish, with_trace}

-- The event that opens a span in a trace.
abbrev pub Starts : ℕ → ℕ → ObsEvent → Type 0
Starts i t e = (e.type ≡ span_start) × ((e.span_id ≡ some i) × (e.trace_id ≡ t))

-- A span whose start is among the events.
abbrev pub Opened : List ObsEvent → ℕ → Option ℕ → Type 0
Opened es t none = Unit
Opened es t (some i) = Some (Starts i t) es

module _ (Outside : ℕ → Type 0) where
  -- A span that surrounding code opened, or one whose start is among the events.
  abbrev pub Known : List ObsEvent → ℕ → Option ℕ → Type 0
  Known es t none = Unit
  Known es t (some p) = Outside p ⊎ Some (Starts p t) es

  abbrev pub IsConnected : List ObsEvent → ObsEvent → Type 0
  IsConnected es e =
      Known es e.trace_id e.parent_span_id × (e.type ≡ span_end → Opened es e.trace_id e.span_id)

  abbrev pub RunOk : List ObsEvent → Run → Type 0
  RunOk es r = Opened es r.trace_id r.span_id × Known es r.trace_id r.parent_span_id

  abbrev pub Good : List ObsEvent → Handler → Type 0
  Good es s = All (RunOk es) s.runs × All (IsConnected es) s.published

abbrev pub Grows : List ObsEvent → List ObsEvent → Type 1
Grows es es' = (P : ObsEvent → Type 0) → Some P es → Some P es'

pub Some-append :
    (P : ObsEvent → Type 0) (es more : List ObsEvent) → Some P es → Some P (es ++ more)
Some-append P [] more h = absurd h
Some-append P (e ∷ es) more (inl h) = inl h
Some-append P (e ∷ es) more (inr h) = inr (Some-append P es more h)

pub Some-last :
    (P : ObsEvent → Type 0) (es : List ObsEvent) (e : ObsEvent) → P e → Some P (es ++ e ∷ [])
Some-last P [] e h = inl h
Some-last P (x ∷ es) e h = inr (Some-last P es e h)

pub Opened-Grows :
    (es es' : List ObsEvent) (t : ℕ) (o : Option ℕ) → Grows es es' → Opened es t o → Opened es' t o
Opened-Grows es es' t none g h = tt
Opened-Grows es es' t (some i) g h = g (Starts i t) h

module _ {A : Type 0} where
  pub All-map : (P Q : A → Type 0) (xs : List A) → ((x : A) → P x → Q x) → All P xs → All Q xs
  All-map P Q [] f h = tt
  All-map P Q (x ∷ xs) f h = (f x h.0, All-map P Q xs f h.1)

-- What holds of the value that is there, if one is.
abbrev pub OnSome {ℓ} : {A : Type ℓ} → (A → Type 0) → Option A → Type 0
OnSome P none = Unit
OnSome P (some a) = P a

pub Opened-some :
    (es : List ObsEvent) (t i : ℕ) (o : Option ℕ)
    → o ≡ some i
    → Some (Starts i t) es
    → Opened es t o
Opened-some es t i o e h = rw e h

module _ (P : Run → Type 0) where
  pub found_ok : (i : ℕ) (runs : List Run) → All P runs → OnSome P (find_run i runs)
  unfolding find_run
  found_ok i [] h = tt
  found_ok i (r ∷ runs) h = elim (Bool-cases (r.run_id == i)) [
    | inl same ↦ rw same h.0
    | inr other ↦ rw other (found_ok i runs h.1)
  ]

  pub All-put_run : (run : Run) (runs : List Run) → P run → All P runs → All P (put_run run runs)
  unfolding put_run
  All-put_run run [] p h = (p, tt)
  All-put_run run (r ∷ runs) p h = elim (Bool-cases (r.run_id == run.run_id)) [
    | inl same ↦ rw same (p, h.1)
    | inr other ↦ rw other (h.0, All-put_run run runs p h.1)
  ]

  pub All-pop_run : (i : ℕ) (runs : List Run) → All P runs → All P (pop_run i runs)
  unfolding pop_run
  All-pop_run i [] h = tt
  All-pop_run i (r ∷ runs) h = elim (Bool-cases (r.run_id == i)) [
    | inl same ↦ rw same h.1
    | inr other ↦ rw other (h.0, All-pop_run i runs h.1)
  ]

  pub All-evict : (most : ℕ) (runs : List Run) → All P runs → All P (evict most runs)
  unfolding evict
  All-evict most [] h = tt
  All-evict most (r ∷ runs) h = elim (Bool-cases (ltb most (length (r ∷ runs)))) [
    | inl over ↦ rw over (All-evict most runs h.1)
    | inr fits ↦ rw fits h
  ]

module _ (Outside : ℕ → Type 0) where
  pub Known-Grows :
      (es es' : List ObsEvent) (t : ℕ) (o : Option ℕ)
      → Grows es es'
      → Known Outside es t o
      → Known Outside es' t o
  Known-Grows es es' t none g h = tt
  Known-Grows es es' t (some p) g (inl out) = inl out
  Known-Grows es es' t (some p) g (inr h) = inr (g (Starts p t) h)

  pub Known-if :
      (b : Bool) (es : List ObsEvent) (t : ℕ) (o : Option ℕ)
      → Known Outside es t o
      → Known Outside es t (if b then o else none)
  Known-if true es t o h = h
  Known-if false es t o h = tt

  pub Good-Grows :
      (es es' : List ObsEvent) (s : Handler) → Grows es es' → Good Outside es s → Good Outside es' s
  Good-Grows es es' s g (runs, events) = (
    All-map (RunOk Outside es) (RunOk Outside es') s.runs
        (λ r h. (
          Opened-Grows es es' r.trace_id r.span_id g h.0,
          Known-Grows es es' r.trace_id r.parent_span_id g h.1,
        ))
        runs,
    All-map (IsConnected Outside es) (IsConnected Outside es') s.published
        (λ e h. (
          Known-Grows es es' e.trace_id e.parent_span_id g h.0,
          λ k. Opened-Grows es es' e.trace_id e.span_id g (h.1 k),
        ))
        events,
  )

  pub publish-Good :
      (es : List ObsEvent) (e : ObsEvent) (s : Handler)
      → IsConnected Outside es e
      → Good Outside es s
      → Good Outside es (publish e s)
  publish-Good es e s ok h =
      (h.0, All-append (IsConnected Outside es) s.published (e ∷ []) h.1 (ok, tt))

  -- Changing the totals of a trace changes neither the runs nor the events.
  pub with_trace-Good :
      (es : List ObsEvent) (i : ℕ) (f : TraceAgg → TraceAgg) (o : Option TraceAgg) (s : Handler)
      → Good Outside es s
      → Good Outside es (with_trace i f o s)
  with_trace-Good es i f none s h = h
  with_trace-Good es i f (some agg) s h = h

pub with_trace-published :
    (i : ℕ) (f : TraceAgg → TraceAgg) (o : Option TraceAgg) (s : Handler)
    → Grows s.published (with_trace i f o s).published
with_trace-published i f none s P h = h
with_trace-published i f (some agg) s P h = h

pub publish-Grows : (e : ObsEvent) (s : Handler) → Grows s.published (publish e s).published
publish-Grows e s P h = Some-append P s.published (e ∷ []) h
