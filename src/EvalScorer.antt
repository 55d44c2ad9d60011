-- ===== src/EvalScorer.antt =====
-- packages/obs-platform/src/obs_platform/workers/eval_scorer.py: the worker that buffers finished
-- traces and has them judged, one tenant's slice of a batch at a time. What it reads and writes of
-- the database, the judge and Redis are actions of `Services`, each of which may raise. `build_sample`
-- is an argument, of whose result the scorer reads whether it can be graded.
pub mod Flush
pub mod Held
pub mod Intake
pub mod Persist
pub mod Split
use agent_lens_platform.Common.{
  ℕ, ◌+◌, String, Bool, true, false, not, ◌&&◌, Option, none, some, List, [], ◌∷◌, ◌++◌, map,
  filter, ltb, ◌==◌, if◌then◌else◌, contains, nat_eq, string_eq,
}
use agent_lens_platform.Worker.{Result, ok, err}

-- A call on the world that returns or raises, and leaves a new world either way.
abbrev pub Act : Type 0 → Type 0 → Type 0
Act W A = W → Result A × W

abbrev pub pure : {W A : Type 0} → A → Act W A
pure a w = (ok a, w)

abbrev pub on_result : {W A B : Type 0} → (A → Act W B) → Result A × W → Result B × W
on_result f (ok a, w) = f a w
on_result f (err e, w) = (err e, w)

infixl 20 ◌>>=◌
unfoldable pub ◌>>=◌ : {W A B : Type 0} → Act W A → (A → Act W B) → Act W B
(m >>= f) w = on_result f (m w)

-- `_Buffered`
pub record Buffered : Type 0 where
  pub message_id : ℕ
  pub trace_id : ℕ
  pub tenant_id : ℕ
  pub first_seen : ℕ
  pub attempts : ℕ

abbrev pub ids : List Buffered → List ℕ
ids = map (λ b. b.message_id)

-- A row of `traces`: what the scorer itself reads, and the columns that `build_sample` reads.
pub record TraceRow (Columns : Type 0) : Type 0 where
  pub trace_id : ℕ
  pub eval_status : String
  pub columns : Columns

pub record SpanRow (Columns : Type 0) : Type 0 where
  pub trace_id : ℕ
  pub columns : Columns

-- `EvalSample`, with its property `scorable`
pub record EvalSample (Texts : Type 0) : Type 0 where
  pub trace_id : ℕ
  pub texts : Texts
  pub scorable : Bool

-- `_Readiness`
pub record Readiness (Texts : Type 0) : Type 0 where
  pub samples : List (EvalSample Texts)
  pub waiting : List ℕ
  pub unscorable : List ℕ

-- The settings of the scorer; times are milliseconds.
pub record Settings : Type 0 where
  pub eval_sample_rate : ℕ
  pub evals_enabled : Bool
  pub eval_batch_size : ℕ
  pub eval_batch_interval : ℕ
  pub eval_ready_timeout : ℕ

-- What `_score_tenant` calls: `check_budget(...).allowed`; `report_exhausted` with the update to
-- "skipped_budget"; the two selects of `_readiness`; an update of `eval_status`; the judge; `_persist`.
pub record Services (Trace Span Texts Run : Type 0) : Type 1 where
  pub World : Type 0
  pub monotonic : World → ℕ
  pub xack : List ℕ → Act World (Unit {0})
  pub budget_allows : ℕ → Act World Bool
  pub skip_over_budget : ℕ → List ℕ → Act World (Unit {0})
  pub load : List ℕ → Act World (List (TraceRow Trace) × List (SpanRow Span))
  pub set_eval_status : List ℕ → String → Act World (Unit {0})
  pub score_batch : List (EvalSample Texts) → Act World Run
  pub persist : ℕ → Run → List (EvalSample Texts) → Act World (Unit {0})

module _ {Trace : Type 0} where
  -- `{trace.trace_id: trace for trace in traces}.get(trace_id)`: the last row of an id stands
  unfoldable pub by_id : ℕ → List (TraceRow Trace) → Option (TraceRow Trace)
  by_id i [] = none
  by_id i (trace ∷ traces) = elim (by_id i traces) [
    | some later ↦ some later
    | none ↦ if trace.trace_id == i then some trace else none
  ]

module _ {Trace Span Texts : Type 0} where
  -- One trace of `_readiness`.
  unfoldable pub sort_trace :
      (TraceRow Trace → List (SpanRow Span) → EvalSample Texts)
      → ℕ
      → List (SpanRow Span)
      → Option (TraceRow Trace)
      → Readiness Texts
      → Readiness Texts
  sort_trace build_sample i spans none r = record r { waiting = r.waiting ++ i ∷ [] }
  sort_trace build_sample i spans (some trace) r =
      let sample = build_sample trace spans in
      if sample.scorable
      then record r { samples = r.samples ++ sample ∷ [] }
      else if string_eq.beq trace.eval_status "not_sampled"
      then record r { waiting = r.waiting ++ i ∷ [] }
      else record r { unscorable = r.unscorable ++ i ∷ [] }

  unfoldable pub readiness_from :
      (TraceRow Trace → List (SpanRow Span) → EvalSample Texts)
      → List (TraceRow Trace)
      → List (SpanRow Span)
      → List ℕ
      → Readiness Texts
      → Readiness Texts
  unfolding by_id sort_trace
  readiness_from build_sample traces spans [] r = r
  readiness_from build_sample traces spans (i ∷ trace_ids) r =
      let own = filter (λ s. s.trace_id == i) spans in
      readiness_from build_sample traces spans trace_ids
        (sort_trace build_sample i own (by_id i traces) r)

abbrev pub nothing_ready : {Texts : Type 0} → Readiness Texts
nothing_ready = record { samples = []; waiting = []; unscorable = [] }

-- `entry.trace_id in readiness.waiting and now - entry.first_seen < timeout`
unfoldable pub is_deferred : ℕ → ℕ → List ℕ → Buffered → Bool
is_deferred now timeout waiting entry =
    contains waiting entry.trace_id && ltb now (entry.first_seen + timeout)

-- `[message_id for message_id in message_ids if message_id not in deferred_ids]`
unfoldable pub without : List ℕ → List ℕ → List ℕ
without deferred_ids message_ids = filter (λ i. not (contains deferred_ids i)) message_ids

-- The trace ids of `abandoned`, a set.
abbrev pub abandoned : List ℕ → List ℕ → List Buffered → List ℕ
abandoned waiting deferred_ids entries =
    map (λ b. b.trace_id)
      (filter (λ b. contains waiting b.trace_id && not (contains deferred_ids b.message_id))
        entries)

module _ {Trace Span Texts Run : Type 0} where
  module _ (sv : Services Trace Span Texts Run) where
    -- The order of the ids in the condition of an update says nothing: they are not sorted here.
    unfoldable pub mark_unscorable : List ℕ → Act sv.World (Unit {0})
    mark_unscorable [] = pure tt
    mark_unscorable (i ∷ trace_ids) = sv.set_eval_status (i ∷ trace_ids) "not_scorable"

    unfoldable pub judge_samples : ℕ → List (EvalSample Texts) → Act sv.World (Unit {0})
    judge_samples tenant [] = pure tt
    judge_samples tenant (s ∷ samples) = do
      run ← sv.score_batch (s ∷ samples)
      sv.persist tenant run (s ∷ samples)

  module _ (sv : Services Trace Span Texts Run)
      (build_sample : TraceRow Trace → List (SpanRow Span) → EvalSample Texts)
      (cfg : Settings) where
    -- `_score_tenant` once the readiness of the batch is known
    unfoldable pub grade :
        ℕ → List Buffered → Readiness Texts → Act sv.World (List ℕ × List Buffered)
    grade tenant entries ready w =
        let deferred =
          filter (is_deferred (sv.monotonic w) cfg.eval_ready_timeout ready.waiting) entries in
        let final_ids = without (ids deferred) (ids entries) in
        let hopeless = ready.unscorable ++ abandoned ready.waiting (ids deferred) entries in
        (do
          _ ← mark_unscorable sv hopeless
          _ ← judge_samples sv tenant ready.samples
          pure (final_ids, deferred))
          w

    -- `_score_tenant` after the check of the budget
    unfoldable pub score_checked : ℕ → List Buffered → Bool → Act sv.World (List ℕ × List Buffered)
    unfolding readiness_from
    score_checked tenant entries false = do
      _ ← sv.skip_over_budget tenant (map (λ b. b.trace_id) entries)
      pure (ids entries, [])
    score_checked tenant entries true =
        let trace_ids = map (λ b. b.trace_id) entries in
        do
          rows ← sv.load trace_ids
          grade tenant entries (readiness_from build_sample rows.0 rows.1 trace_ids nothing_ready)

    -- `_score_tenant`
    unfoldable pub score_tenant : ℕ → List Buffered → Act sv.World (List ℕ × List Buffered)
    score_tenant tenant entries = do
      allowed ← sv.budget_allows tenant
      score_checked tenant entries allowed
