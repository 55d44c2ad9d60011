-- ===== src/Storage/Status.antt =====
-- The status of a merged trace, `_merge_trace` of
-- packages/obs-platform/src/obs_platform/workers/storage_writer.py.
use agent_lens_platform.Common.{
  ℕ, ◌≤◌, ◌≡◌, refl, Bool, true, false, ◌||◌, Option, none, some, List, [], ◌∷◌, any, arith,
}
use agent_lens_platform.Event.{
  EventType, trace_start, trace_end, span_start, span_end, ObsEvent, SpanStatus, running, error,
}
use agent_lens_platform.Storage.{Trace, Row, status_rank, initial_row, merge_status, merge_event}
use agent_lens_platform.Storage.Merge.{
  saw_trace_end, sort_events, merge_events, finish_row, merge_trace, any-sort_events,
}

abbrev pub is_error : SpanStatus → Bool
is_error error = true
is_error _ = false

-- The status that the merge starts from.
abbrev pub stored_status : Option Trace → SpanStatus
stored_status none = running
stored_status (some c) = c.status

merge_status-error :
    (t : EventType) (s old : SpanStatus)
    → is_error (merge_status t s old) ≡ (is_error old || is_error s)
unfolding merge_status
merge_status-error trace_end s old = ground arith
merge_status-error trace_start s old = ground arith
merge_status-error span_start s old = ground arith
merge_status-error span_end s old = ground arith

merge_status-rank :
    (t : EventType) (s old : SpanStatus) → status_rank old ≤ status_rank (merge_status t s old)
unfolding merge_status
merge_status-rank trace_end s old = ground arith
merge_status-rank trace_start s old = ground arith
merge_status-rank span_start s old = ground arith
merge_status-rank span_end s old = ground arith

abbrev pub reports_error : ObsEvent → Bool
reports_error e = is_error e.status

pub merge_events-error :
    (row : Row) (es : List ObsEvent)
    → is_error (merge_events row es).status ≡ (is_error row.status || any reports_error es)
unfolding merge_events
merge_events-error row [] = ground arith
merge_events-error row (e ∷ es) = ground (
  arith,
  merge_events-error (merge_event row e) es,
  merge_status-error e.type e.status row.status,
)

merge_events-rank :
    (row : Row) (es : List ObsEvent)
    → status_rank row.status ≤ status_rank (merge_events row es).status
unfolding merge_events
merge_events-rank row [] = omega arith
merge_events-rank row (e ∷ es) =
    omega (
      arith,
      merge_events-rank (merge_event row e) es,
      merge_status-rank e.type e.status row.status,
    )

module _ (digest : ℕ → ℕ → ℕ) (default_tenant : ℕ) where
  finish_row-status :
      (now rate : ℕ) (ended : Bool) (row : Row)
      → let s = (finish_row digest default_tenant now rate ended row).status in
        (is_error s ≡ is_error row.status) × (status_rank row.status ≤ status_rank s)
  unfolding finish_row
  finish_row-status now rate ended row = ground arith

  initial_row-status :
      (now i : ℕ) (current : Option Trace)
      → (initial_row default_tenant now i current).status ≡ stored_status current
  unfolding initial_row
  initial_row-status now i none = refl
  initial_row-status now i (some c) = refl

  -- The merged status never ranks below the stored one, and it is an error exactly when the stored
  -- status is one or some event of the batch reports one, in whatever order the events came.
  pub merge_trace-status :
      (now i : ℕ) (events : List ObsEvent) (current : Option Trace) (rate : ℕ)
      → let s = (merge_trace digest default_tenant now i events current rate).status in
        (status_rank (stored_status current) ≤ status_rank s)
        × (is_error s ≡ (is_error (stored_status current) || any (λ e. is_error e.status) events))
  unfolding merge_trace
  merge_trace-status now i events current rate =
      let row = initial_row default_tenant now i current in
      let sorted = sort_events events in
      ground (
        arith,
        initial_row-status now i current,
        merge_events-error row sorted,
        merge_events-rank row sorted,
        any-sort_events reports_error events,
        finish_row-status now rate (saw_trace_end sorted) (merge_events row sorted),
      )
