-- ===== src/Storage/Times.antt =====
-- The time span of a merged trace, `_merge_trace` of
-- packages/obs-platform/src/obs_platform/workers/storage_writer.py.
use agent_lens_platform.Common.{
  ℕ, ◌≤◌, ◌≡◌, refl, Bool, true, false, Option, none, some, List, [], ◌∷◌, ◌⊎◌, inl, inr, All, Some,
  arith, sym, ◌∙◌,
}
use agent_lens_platform.Event.{ObsEvent}
use agent_lens_platform.Storage.{Trace, Row, as_utc, initial_row, earliest, latest, merge_event}
use agent_lens_platform.Storage.Merge.{
  saw_trace_end, sort_events, merge_events, finish_row, merge_trace, All-sort_events,
  Some-sort_events,
}

-- `a` is a time no later than `t`, if `t` is a time.
abbrev pub Reaches : Option ℕ → Option ℕ → Type 0
Reaches a none = Unit
Reaches none (some t) = ⊥
Reaches (some s) (some t) = s ≤ t

-- `a` is a time no earlier than `t`, if `t` is a time.
abbrev pub Extends : Option ℕ → Option ℕ → Type 0
Extends a none = Unit
Extends none (some t) = ⊥
Extends (some s) (some t) = t ≤ s

Reaches-trans : (a b c : Option ℕ) → Reaches a b → Reaches b c → Reaches a c
Reaches-trans a b none h k = tt
Reaches-trans a none (some t) h k = absurd k
Reaches-trans none (some s) (some t) h k = absurd h
Reaches-trans (some r) (some s) (some t) h k = omega arith

Extends-trans : (a b c : Option ℕ) → Extends a b → Extends b c → Extends a c
Extends-trans a b none h k = tt
Extends-trans a none (some t) h k = absurd k
Extends-trans none (some s) (some t) h k = absurd h
Extends-trans (some r) (some s) (some t) h k = omega arith

Reaches-refl : (a : Option ℕ) → Reaches a a
Reaches-refl none = tt
Reaches-refl (some t) = omega arith

Extends-refl : (a : Option ℕ) → Extends a a
Extends-refl none = tt
Extends-refl (some t) = omega arith

earliest-Reaches : (a b : Option ℕ) → Reaches (earliest a b) a × Reaches (earliest a b) b
unfolding earliest
earliest-Reaches none none = (tt, tt)
earliest-Reaches (some s) none = (omega arith, tt)
earliest-Reaches none (some t) = (tt, omega arith)
earliest-Reaches (some s) (some t) = ground arith

latest-Extends : (a b : Option ℕ) → Extends (latest a b) a × Extends (latest a b) b
unfolding latest
latest-Extends none none = (tt, tt)
latest-Extends (some s) none = (omega arith, tt)
latest-Extends none (some t) = (tt, omega arith)
latest-Extends (some s) (some t) = ground arith

-- The span contains the event's.
abbrev pub Contains : Option ℕ → Option ℕ → ObsEvent → Type 0
Contains start end e = Reaches start e.started_at × Extends end e.ended_at

pub merge_events-grows :
    (row : Row) (es : List ObsEvent)
    → let row' = merge_events row es in
      Reaches row'.started_at row.started_at × Extends row'.ended_at row.ended_at
unfolding merge_events
merge_events-grows row [] = (Reaches-refl row.started_at, Extends-refl row.ended_at)
merge_events-grows row (e ∷ es) =
    let (start, end) = merge_events-grows (merge_event row e) es in
    (
      Reaches-trans _ (earliest row.started_at e.started_at) row.started_at start
          (earliest-Reaches row.started_at e.started_at).0,
      Extends-trans _ (latest row.ended_at e.ended_at) row.ended_at end
          (latest-Extends row.ended_at e.ended_at).0,
    )

pub merge_events-Contains :
    (row : Row) (es : List ObsEvent)
    → All (Contains (merge_events row es).started_at (merge_events row es).ended_at) es
unfolding merge_events
merge_events-Contains row [] = tt
merge_events-Contains row (e ∷ es) =
    let (start, end) = merge_events-grows (merge_event row e) es in
    (
      (
        Reaches-trans _ (earliest row.started_at e.started_at) e.started_at start
            (earliest-Reaches row.started_at e.started_at).1,
        Extends-trans _ (latest row.ended_at e.ended_at) e.ended_at end
            (latest-Extends row.ended_at e.ended_at).1,
      ),
      merge_events-Contains (merge_event row e) es,
    )

earliest-cases : (a b : Option ℕ) → (earliest a b ≡ a) ⊎ (b ≡ earliest a b)
unfolding earliest
earliest-cases a none = inl refl
earliest-cases none (some t) = inr refl
earliest-cases (some s) (some t) = ground arith

latest-cases : (a b : Option ℕ) → (latest a b ≡ a) ⊎ (b ≡ latest a b)
unfolding latest
latest-cases a none = inl refl
latest-cases none (some t) = inr refl
latest-cases (some s) (some t) = ground arith

-- Some event of the list starts, or ends, then.
abbrev pub Starts : Option ℕ → List ObsEvent → Type 0
Starts t = Some (λ e. e.started_at ≡ t)

abbrev pub Ends : Option ℕ → List ObsEvent → Type 0
Ends t = Some (λ e. e.ended_at ≡ t)

merge_events-Starts :
    (row : Row) (es : List ObsEvent)
    → let t = (merge_events row es).started_at in (t ≡ row.started_at) ⊎ Starts t es
unfolding merge_events
merge_events-Starts row [] = inl refl
merge_events-Starts row (e ∷ es) = elim (merge_events-Starts (merge_event row e) es) [
  | inr later ↦ inr (inr later)
  | inl same ↦ elim (earliest-cases row.started_at e.started_at) [
    | inl old ↦ inl (same ∙ old)
    | inr new ↦ inr (inl (new ∙ sym same))
  ]
]

merge_events-Ends :
    (row : Row) (es : List ObsEvent)
    → let t = (merge_events row es).ended_at in (t ≡ row.ended_at) ⊎ Ends t es
unfolding merge_events
merge_events-Ends row [] = inl refl
merge_events-Ends row (e ∷ es) = elim (merge_events-Ends (merge_event row e) es) [
  | inr later ↦ inr (inr later)
  | inl same ↦ elim (latest-cases row.ended_at e.ended_at) [
    | inl old ↦ inl (same ∙ old)
    | inr new ↦ inr (inl (new ∙ sym same))
  ]
]

-- The start and the end that are stored.
abbrev pub stored_start : Option Trace → Option ℕ
stored_start none = none
stored_start (some c) = as_utc c.started_at

abbrev pub stored_end : Option Trace → Option ℕ
stored_end none = none
stored_end (some c) = as_utc c.ended_at

-- `start` and `end` bound the stored span and that of every event, and each is one of theirs.
pub record IsSpan (start₀ end₀ start end : Option ℕ) (events : List ObsEvent) : Type 0 where
  pub contains : All (Contains start end) events
  pub reaches : Reaches start start₀
  pub extends : Extends end end₀
  pub is_start : (start ≡ start₀) ⊎ Starts start events
  pub is_end : (end ≡ end₀) ⊎ Ends end events

merge_events-IsSpan :
    (row : Row) (events : List ObsEvent)
    → let row' = merge_events row (sort_events events) in
      IsSpan row.started_at row.ended_at row'.started_at row'.ended_at events
merge_events-IsSpan row events =
    let sorted = sort_events events in
    let row' = merge_events row sorted in
    record {
      contains =
          All-sort_events (Contains row'.started_at row'.ended_at) events
            (merge_events-Contains row sorted);
      reaches = (merge_events-grows row sorted).0;
      extends = (merge_events-grows row sorted).1;
      is_start = elim (merge_events-Starts row sorted) [
        | inl same ↦ inl same
        | inr new ↦ inr (Some-sort_events (λ e. e.started_at ≡ row'.started_at) events new)
      ];
      is_end = elim (merge_events-Ends row sorted) [
        | inl same ↦ inl same
        | inr new ↦ inr (Some-sort_events (λ e. e.ended_at ≡ row'.ended_at) events new)
      ];
    }

module _ (digest : ℕ → ℕ → ℕ) (default_tenant : ℕ) where
  initial_row-start :
      (now i : ℕ) (current : Option Trace)
      → (initial_row default_tenant now i current).started_at ≡ stored_start current
  unfolding initial_row
  initial_row-start now i none = refl
  initial_row-start now i (some c) = refl

  initial_row-end :
      (now i : ℕ) (current : Option Trace)
      → (initial_row default_tenant now i current).ended_at ≡ stored_end current
  unfolding initial_row
  initial_row-end now i none = refl
  initial_row-end now i (some c) = refl

  finish_row-IsSpan :
      (now rate : ℕ) (ended : Bool) (row : Row) (events : List ObsEvent) {s e : Option ℕ}
      → IsSpan s e row.started_at row.ended_at events
      → let row' = finish_row digest default_tenant now rate ended row in
        IsSpan s e row'.started_at row'.ended_at events
  unfolding finish_row
  finish_row-IsSpan now rate true row events h = h
  finish_row-IsSpan now rate false row events h = h

  -- The merged start is at most the stored start and the start of every event, and is one of them;
  -- so is the merged end, the other way round. The order of the events does not enter.
  pub merge_trace-IsSpan :
      (now i : ℕ) (events : List ObsEvent) (current : Option Trace) (rate : ℕ)
      → let row = merge_trace digest default_tenant now i events current rate in
        IsSpan (stored_start current) (stored_end current) row.started_at row.ended_at events
  unfolding merge_trace
  merge_trace-IsSpan now i events current rate =
      let row = initial_row default_tenant now i current in
      rw (← initial_row-start now i current, ← initial_row-end now i current)
        (finish_row-IsSpan now rate (saw_trace_end (sort_events events))
          (merge_events row (sort_events events)) events (merge_events-IsSpan row events))
