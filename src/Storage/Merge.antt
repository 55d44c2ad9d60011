-- ===== src/Storage/Merge.antt =====
-- `_merge_trace` of packages/obs-platform/src/obs_platform/workers/storage_writer.py: the sort, the
-- loop and what follows it.
use agent_lens_platform.Common.{
  ℕ, ◌≡◌, refl, ap, ◌∙◌, Bool, ◌||◌, Option, none, some, List, [], ◌∷◌, leb, any, All, Some, ◌⊎◌,
  if◌then◌else◌, Bool-cases, inl, inr, arith,
}
use agent_lens_platform.Event.{ObsEvent, SpanStatus, running, ok, elapsed_ms}
use agent_lens_platform.Sampling.{should_sample}
use agent_lens_platform.Storage.{
  EvalStatus, not_sampled, pending, Trace, Row, initial_row, merge_event, is_end,
}

-- `sorted(events, key=lambda e: e.emitted_at)`, which is stable
unfoldable pub insert_event : ObsEvent → List ObsEvent → List ObsEvent
insert_event e [] = e ∷ []
insert_event e (x ∷ xs) =
    let rest = x ∷ insert_event e xs in if leb e.emitted_at x.emitted_at then e ∷ x ∷ xs else rest

unfoldable pub sort_events : List ObsEvent → List ObsEvent
unfolding insert_event
sort_events [] = []
sort_events (e ∷ es) = insert_event e (sort_events es)

unfoldable pub merge_events : Row → List ObsEvent → Row
unfolding merge_event
merge_events row [] = row
merge_events row (e ∷ es) = merge_events (merge_event row e) es

abbrev pub saw_trace_end : List ObsEvent → Bool
saw_trace_end = any (λ e. is_end e.type)

abbrev pub final_latency : Row → Option ℕ
final_latency row = elim row.latency_ms [
  | some ms ↦ some ms
  | none ↦ elim row.started_at [
    | none ↦ none
    | some start ↦ elim row.ended_at [ none ↦ none | some end ↦ some (elapsed_ms start end) ]
  ]
]

abbrev pub final_status : SpanStatus → SpanStatus
final_status running = ok
final_status s = s

-- the decision is taken again only in the first two states
abbrev pub final_eval : Bool → EvalStatus → EvalStatus
final_eval sampled not_sampled = if sampled then pending else not_sampled
final_eval sampled pending = if sampled then pending else not_sampled
final_eval sampled s = s

module _ (digest : ℕ → ℕ → ℕ) (default_tenant : ℕ) where
  -- `if saw_trace_end:` and the last assignment
  unfoldable pub finish_row : ℕ → ℕ → Bool → Row → Row
  unfolding should_sample
  finish_row now sample_rate ended row =
      if ended
      then record row {
        latency_ms = final_latency row;
        status = final_status row.status;
        eval_status = final_eval (should_sample digest row.trace_id sample_rate 0) row.eval_status;
        updated_at = now;
      }
      else record row { updated_at = now }

  unfoldable pub merge_trace : ℕ → ℕ → List ObsEvent → Option Trace → ℕ → Row
  unfolding sort_events merge_events finish_row initial_row
  merge_trace now trace_id events current sample_rate =
      finish_row now sample_rate (saw_trace_end (sort_events events))
        (merge_events (initial_row default_tenant now trace_id current) (sort_events events))

-- The sort neither adds nor drops an event.
any-insert_event :
    (p : ObsEvent → Bool) (e : ObsEvent) (es : List ObsEvent)
    → any p (insert_event e es) ≡ (p e || any p es)
unfolding insert_event
any-insert_event p e [] = refl
any-insert_event p e (x ∷ xs) = ground (arith, any-insert_event p e xs)

pub any-sort_events : (p : ObsEvent → Bool) (es : List ObsEvent) → any p (sort_events es) ≡ any p es
unfolding sort_events
any-sort_events p [] = refl
any-sort_events p (e ∷ es) =
    any-insert_event p e (sort_events es) ∙ ap (λ b. p e || b) (any-sort_events p es)

module _ {ℓ} (P : ObsEvent → Type ℓ) where
  All-insert_event :
      (e : ObsEvent) (es : List ObsEvent) → All P (insert_event e es) → P e × All P es
  unfolding insert_event
  All-insert_event e [] h = h
  All-insert_event e (x ∷ xs) h = elim (Bool-cases (leb e.emitted_at x.emitted_at)) [
    | inl first ↦ rw (first, insert_event) at h
    | inr later ↦
        let k : All P (x ∷ insert_event e xs) = rw (later, insert_event) at h in
        let (pe, rest) = All-insert_event e xs k.1 in (pe, (k.0, rest))
  ]

  pub All-sort_events : (es : List ObsEvent) → All P (sort_events es) → All P es
  unfolding sort_events
  All-sort_events [] h = tt
  All-sort_events (e ∷ es) h =
      let (pe, rest) = All-insert_event e (sort_events es) h in (pe, All-sort_events es rest)

module _ (P : ObsEvent → Type 0) where
  Some-insert_event :
      (e : ObsEvent) (es : List ObsEvent) → Some P (insert_event e es) → P e ⊎ Some P es
  unfolding insert_event
  Some-insert_event e [] (inl h) = inl h
  Some-insert_event e [] (inr h) = absurd h
  Some-insert_event e (x ∷ xs) h = elim (Bool-cases (leb e.emitted_at x.emitted_at)) [
    | inl first ↦ rw (first, insert_event) at h
    | inr later ↦
        let k : P x ⊎ Some P (insert_event e xs) = rw (later, insert_event) at h in
        elim k [
          | inl px ↦ inr (inl px)
          | inr rest ↦ elim (Some-insert_event e xs rest) [
            | inl pe ↦ inl pe
            | inr pxs ↦ inr (inr pxs)
          ]
        ]
  ]

  pub Some-sort_events : (es : List ObsEvent) → Some P (sort_events es) → Some P es
  unfolding sort_events
  Some-sort_events [] h = h
  Some-sort_events (e ∷ es) h = elim (Some-insert_event e (sort_events es) h) [
    | inl pe ↦ inl pe
    | inr rest ↦ inr (Some-sort_events es rest)
  ]
