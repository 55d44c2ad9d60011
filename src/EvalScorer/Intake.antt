-- ===== src/EvalScorer/Intake.antt =====
-- What `process`, `_maybe_flush` and `teardown` of
-- packages/obs-platform/src/obs_platform/workers/eval_scorer.py keep of the held set.
use agent_lens_platform.Common.{
  nat_eq, ℕ, ◌≡◌, refl, sym, ap, ◌∙◌, Bool, true, false, not, map, filter, any, ◌&&◌, ◌||◌, List,
  [], ◌∷◌, ◌++◌, inl, inr, arith, Bool-cases, ◌==◌, contains, is_empty, leb, length,
}
use agent_lens_platform.Worker.{StreamMessage, BatchOutcome}
use agent_lens_platform.Worker.Parse.{ParsedMessage, Attempt, parse}
use mathlib.Core.List.{append_assoc, append-nil}
use agent_lens_platform.Sampling.{should_sample}
use agent_lens_platform.Event.{EventType, trace_start, trace_end, span_start, span_end, ObsEvent}
use agent_lens_platform.EvalScorer.{ids, TraceRow, SpanRow, EvalSample, Settings, Services}
use agent_lens_platform.EvalScorer.Flush.{
  Scorer, maybe_flush, take_item, take_items, process, teardown, is_due, buffered_at, completes,
  wanted,
}
use agent_lens_platform.EvalScorer.Split.{count, count-ids-append, member}
use agent_lens_platform.EvalScorer.Held.{IsHeld, flush-IsHeld}

contains-append : (i j : ℕ) (xs : List ℕ) → contains (xs ++ j ∷ []) i ≡ (contains xs i || (j == i))
contains-append i j [] = ground arith
contains-append i j (x ∷ xs) = ground (arith, contains-append i j xs)

-- An event that ends a trace.
abbrev pub ends_trace : EventType → Bool
ends_trace trace_end = true
ends_trace _ = false

completes-ends : (t : EventType) → completes t ≡ ends_trace t
completes-ends trace_end = refl
completes-ends trace_start = refl
completes-ends span_start = refl
completes-ends span_end = refl

or_false : (a : Bool) → a ≡ (a || false)
or_false a = ground arith

or_swap : (a b : Bool) → (a || b) ≡ (b || a)
or_swap a b = ground arith

==-eq : (m n : ℕ) → (m == n) ≡ true → m ≡ n
==-eq m n h = ground arith

or_true : (a b : Bool) → a ≡ true → a ≡ (a || b)
or_true a b h = ground arith

or_assoc : (a b c : Bool) → ((a || b) || c) ≡ (a || (b || c))
or_assoc a b c = ground arith

held_again :
    (ids : List ℕ) (j i : ℕ) → contains ids j ≡ true → contains ids i ≡ (contains ids i || (j == i))
held_again ids j i seen = elim (Bool-cases (j == i)) [
  | inl same ↦ or_true (contains ids i) (j == i) (ap (contains ids) (sym (==-eq j i same)) ∙ seen)
  | inr other ↦ rw other (or_false (contains ids i))
]

abbrev pub id_of : ParsedMessage ObsEvent → ℕ
id_of item = item.message.message_id

module _ {Trace Span Texts Run : Type 0} (sv : Services Trace Span Texts Run)
    (build_sample : TraceRow Trace → List (SpanRow Span) → EvalSample Texts) (cfg : Settings) where
  -- A flush by the timer and one at shutdown keep the held ids those of the buffer.
  maybe_flush-IsHeld :
      (s : Scorer) (w : sv.World) → IsHeld s → IsHeld (maybe_flush sv build_sample cfg s w).0
  unfolding maybe_flush
  maybe_flush-IsHeld s w h = elim (Bool-cases (is_empty s.buffer)) [
    | inl none_left ↦ rw none_left h
    | inr some_left ↦ elim (Bool-cases (is_due sv build_sample cfg s w)) [
      | inl due ↦ rw (some_left, due) (flush-IsHeld sv build_sample cfg s w h).0
      | inr early ↦ rw (some_left, early) h
    ]
  ]

  teardown-IsHeld :
      (s : Scorer) (w : sv.World) → IsHeld s → IsHeld (teardown sv build_sample cfg s w).0
  unfolding teardown
  teardown-IsHeld s w h = elim (Bool-cases (is_empty s.buffer)) [
    | inl none_left ↦ rw none_left h
    | inr some_left ↦ rw some_left (flush-IsHeld sv build_sample cfg s w h).0
  ]

  module _ (digest : ℕ → ℕ → ℕ) (no_salt : ℕ) where
    take_item-IsHeld :
        (now : ℕ) (item : ParsedMessage ObsEvent) (s : Scorer) (outcome : BatchOutcome) (i : ℕ)
        → count i (ids s.buffer) ≡ member i s.buffered_ids
        → let s' = (take_item sv build_sample cfg digest no_salt now item (s, outcome)).0 in
          count i (ids s'.buffer) ≡ member i s'.buffered_ids
    unfolding take_item
    take_item-IsHeld now item s outcome i h = ground (
      arith,
      count-ids-append i s.buffer (buffered_at sv build_sample cfg digest no_salt now item ∷ []),
    )

    take_items-IsHeld :
        (now : ℕ) (items : List (ParsedMessage ObsEvent)) (acc : Scorer × BatchOutcome)
        → IsHeld acc.0
        → IsHeld (take_items sv build_sample cfg digest no_salt now items acc).0
    unfolding take_items
    take_items-IsHeld now [] acc h = h
    take_items-IsHeld now (item ∷ items) (s, outcome) h =
        take_items-IsHeld now items _ (λ i. take_item-IsHeld now item s outcome i (h i))

    process-IsHeld :
        (parse_event : StreamMessage → Attempt ObsEvent) (messages : List StreamMessage)
        (s : Scorer) (w : sv.World)
        → IsHeld s
        → IsHeld (process sv build_sample cfg digest no_salt parse_event messages s w).0.1
    unfolding process
    process-IsHeld parse_event messages s w h =
        let (items, outcome) = parse parse_event messages in
        let taken =
          take_items sv build_sample cfg digest no_salt (sv.monotonic w) items (s, outcome) in
        let kept = take_items-IsHeld (sv.monotonic w) items (s, outcome) h in
        elim (Bool-cases
          (not (is_empty items) && leb cfg.eval_batch_size (length taken.0.buffer))) [
            | inl full ↦ rw full (flush-IsHeld sv build_sample cfg taken.0 w kept).0
            | inr more ↦ rw more kept
          ]

    -- Whatever the scorer does with a batch, on its timer or at shutdown, the held ids stay those of
    -- the buffer, each there once.
    pub operations-IsHeld :
        (parse_event : StreamMessage → Attempt ObsEvent) (messages : List StreamMessage)
        (s : Scorer) (w : sv.World)
        → IsHeld s
        → IsHeld (process sv build_sample cfg digest no_salt parse_event messages s w).0.1
          × (IsHeld (maybe_flush sv build_sample cfg s w).0
              × IsHeld (teardown sv build_sample cfg s w).0)
    operations-IsHeld parse_event messages s w h = (
      process-IsHeld parse_event messages s w h,
      (maybe_flush-IsHeld s w h, teardown-IsHeld s w h),
    )

    -- The end of a trace that is in the sample.
    abbrev pub is_graded : ObsEvent → Bool
    is_graded e =
        ends_trace e.type
        && (cfg.evals_enabled && should_sample digest e.trace_id cfg.eval_sample_rate no_salt)

    wanted-graded : (e : ObsEvent) → wanted sv build_sample cfg digest no_salt e ≡ is_graded e
    wanted-graded e =
        ap
          (λ b.
            b
            && (cfg.evals_enabled && should_sample digest e.trace_id cfg.eval_sample_rate no_salt))
          (completes-ends e.type)

    abbrev pub holds : ℕ → ParsedMessage ObsEvent → Bool
    holds i item = is_graded item.event && id_of item == i

    take_item-ack :
        (now : ℕ) (item : ParsedMessage ObsEvent) (s : Scorer) (outcome : BatchOutcome)
        → (take_item sv build_sample cfg digest no_salt now item (s, outcome)).1.ack
          ≡ outcome.ack ++ map id_of (filter (λ m. not (is_graded m.event)) (item ∷ []))
    unfolding take_item
    take_item-ack now item s outcome = elim (Bool-cases (is_graded item.event)) [
      | inr other ↦ rw (wanted-graded item.event, other) refl
      | inl graded ↦ elim (Bool-cases (contains s.buffered_ids (id_of item))) [
        | inl seen ↦ rw (wanted-graded item.event, graded, seen) (sym (append-nil outcome.ack))
        | inr new ↦ rw (wanted-graded item.event, graded, new) (sym (append-nil outcome.ack))
      ]
    ]

    take_item-held :
        (now i : ℕ) (item : ParsedMessage ObsEvent) (s : Scorer) (outcome : BatchOutcome)
        → contains
            (take_item sv build_sample cfg digest no_salt now item (s, outcome)).0.buffered_ids
            i
          ≡ (contains s.buffered_ids i || holds i item)
    unfolding take_item
    take_item-held now i item s outcome = elim (Bool-cases (is_graded item.event)) [
      | inr other ↦ rw (wanted-graded item.event, other) (or_false (contains s.buffered_ids i))
      | inl graded ↦ elim (Bool-cases (contains s.buffered_ids (id_of item))) [
        | inl seen ↦
            rw (wanted-graded item.event, graded, seen)
              (held_again s.buffered_ids (id_of item) i seen)
        | inr new ↦
            rw (wanted-graded item.event, graded, new)
              (or_swap (id_of item == i) (contains s.buffered_ids i))
      ]
    ]

    filter-cons :
        (item : ParsedMessage ObsEvent) (items : List (ParsedMessage ObsEvent))
        → map id_of (filter (λ m. not (is_graded m.event)) (item ∷ []))
            ++ map id_of (filter (λ m. not (is_graded m.event)) items)
          ≡ map id_of (filter (λ m. not (is_graded m.event)) (item ∷ items))
    filter-cons item items = elim (Bool-cases (is_graded item.event)) [
      | inl graded ↦ rw graded refl
      | inr other ↦ rw other refl
    ]

    take_items-ack :
        (now : ℕ) (items : List (ParsedMessage ObsEvent)) (acc : Scorer × BatchOutcome)
        → (take_items sv build_sample cfg digest no_salt now items acc).1.ack
          ≡ acc.1.ack ++ map id_of (filter (λ m. not (is_graded m.event)) items)
    unfolding take_items
    take_items-ack now [] acc = sym (append-nil acc.1.ack)
    take_items-ack now (item ∷ items) (s, outcome) =
        let one = map id_of (filter (λ m. not (is_graded m.event)) (item ∷ [])) in
        let rest = map id_of (filter (λ m. not (is_graded m.event)) items) in
        take_items-ack now items
          (take_item sv build_sample cfg digest no_salt now item (s, outcome))
        ∙ ap (λ l. l ++ rest) (take_item-ack now item s outcome)
        ∙ append_assoc outcome.ack one rest
        ∙ ap (λ l. outcome.ack ++ l) (filter-cons item items)

    take_items-held :
        (now i : ℕ) (items : List (ParsedMessage ObsEvent)) (acc : Scorer × BatchOutcome)
        → contains (take_items sv build_sample cfg digest no_salt now items acc).0.buffered_ids i
          ≡ (contains acc.0.buffered_ids i || any (holds i) items)
    unfolding take_items
    take_items-held now i [] acc = or_false (contains acc.0.buffered_ids i)
    take_items-held now i (item ∷ items) (s, outcome) =
        take_items-held now i items
          (take_item sv build_sample cfg digest no_salt now item (s, outcome))
        ∙ ap (λ b. b || any (holds i) items) (take_item-held now i item s outcome)
        ∙ or_assoc (contains s.buffered_ids i) (holds i item) (any (holds i) items)

    -- Where the held ids are those of the buffer, the loop over a batch acks, in their order, exactly the
    -- messages whose event is not the end of a trace in the sample; it holds, besides the ids held before,
    -- exactly those of the other messages; and the held ids are still those of the buffer, each there once.
    pub take_items-accounts :
        (now : ℕ) (items : List (ParsedMessage ObsEvent)) (s : Scorer) (outcome : BatchOutcome)
        → IsHeld s
        → let (s', outcome') =
            take_items sv build_sample cfg digest no_salt now items (s, outcome) in
          (outcome'.ack ≡ outcome.ack ++ map id_of (filter (λ m. not (is_graded m.event)) items))
          × (((i : ℕ)
                → contains s'.buffered_ids i ≡ (contains s.buffered_ids i || any (holds i) items))
              × IsHeld s')
    take_items-accounts now items s outcome h = (
      take_items-ack now items (s, outcome),
      ((λ i. take_items-held now i items (s, outcome)), take_items-IsHeld now items (s, outcome) h),
    )
