-- ===== src/Storage/Redelivery.antt =====
-- Redelivery of a batch that was merged before, `_merge_trace` of
-- packages/obs-platform/src/obs_platform/workers/storage_writer.py.
use agent_lens_platform.Common.{
  ℕ, ◌≤◌, ◌≡◌, refl, sym, ap, ◌∙◌, Bool, true, false, Option, none, some, List, any, All, All-zip,
  All-any-false, arith,
}
use agent_lens_platform.Event.{ObsEvent, running}
use agent_lens_platform.Sampling.{should_sample}
use agent_lens_platform.Storage.{EvalStatus, Trace, Row, as_utc, initial_row, is_end}
use agent_lens_platform.Storage.Merge.{
  saw_trace_end, sort_events, merge_events, final_status, final_eval, finish_row, merge_trace,
}
use agent_lens_platform.Storage.Status.{is_error, reports_error, merge_events-error}
use agent_lens_platform.Storage.Times.{Contains, merge_events-Contains}
use agent_lens_platform.Storage.Absorb.{
  stamp, stored, Absorbed, Agrees, merge_events-Absorbed, settle_one, merge_events-schema,
  earliest_absorbs, latest_absorbs, merge_events-keeps,
}

module _ (digest : ℕ → ℕ → ℕ) (default_tenant : ℕ) where
  abbrev finished : ℕ → ℕ → Bool → Row → Row
  finished = finish_row digest default_tenant

  finished-status :
      (now rate : ℕ) (ended : Bool) (row : Row)
      → (is_error (finished now rate ended row).status ≡ is_error row.status)
        × ((finished now rate ended row).status ≡ running → ended ≡ false)
  unfolding finish_row
  finished-status now rate ended row = (ground arith, λ h. ground arith)

  finished-keeps :
      (now rate : ℕ) (ended : Bool) (row : Row)
      → let f = finished now rate ended row in
        (f.started_at ≡ row.started_at)
        × (f.ended_at ≡ row.ended_at)
        × (f.schema_version ≡ row.schema_version)
        × (f.trace_id ≡ row.trace_id)
        × (f.created_at ≡ row.created_at)
  unfolding finish_row
  finished-keeps now rate ended row = ground arith

  abbrev Bounded : Row → ObsEvent → Type 0
  Bounded row e = Contains row.started_at row.ended_at e × (e.schema_version ≤ row.schema_version)

  abbrev Judged : Row → ObsEvent → Type 0
  Judged row e =
      (is_error row.status ≡ false → is_error e.status ≡ false)
      × (row.status ≡ running → is_end e.type ≡ false)

  absorb : (row : Row) (e : ObsEvent) → Bounded row e → Judged row e → Absorbed row e
  absorb row e b j = record {
    status = settle_one e.type e.status row.status j.0 j.1;
    started_at = earliest_absorbs row.started_at e.started_at b.0.0;
    ended_at = latest_absorbs row.ended_at e.ended_at b.0.1;
    schema_version = omega (arith, b.1);
  }

  finished-Bounded :
      (now rate : ℕ) (ended : Bool) (row : Row) (es : List ObsEvent)
      → All (Bounded (finished now rate ended (merge_events row es))) es
  finished-Bounded now rate ended row es =
      let m = merge_events row es in
      let keeps = finished-keeps now rate ended m in
      rw (keeps.0, keeps.1, keeps.2)
        (All-zip (Contains m.started_at m.ended_at) (λ e. e.schema_version ≤ m.schema_version)
          (Bounded m) es (λ e c s. (c, s)) (merge_events-Contains row es)
          (merge_events-schema row es).1)

  finished-no_error :
      (now rate : ℕ) (row : Row) (es : List ObsEvent)
      → is_error (finished now rate (saw_trace_end es) (merge_events row es)).status ≡ false
      → any reports_error es ≡ false
  finished-no_error now rate row es h = ground (
    arith,
    (finished-status now rate (saw_trace_end es) (merge_events row es)).0,
    merge_events-error row es,
  )

  -- A finished row has absorbed the events that it was merged from.
  finished-Absorbed :
      (now rate : ℕ) (row : Row) (es : List ObsEvent)
      → All (Absorbed (finished now rate (saw_trace_end es) (merge_events row es))) es
  finished-Absorbed now rate row es =
      let f = finished now rate (saw_trace_end es) (merge_events row es) in
      let judged : All (Judged f) es =
        All-zip (λ e. is_error f.status ≡ false → is_error e.status ≡ false)
          (λ e. f.status ≡ running → is_end e.type ≡ false) (Judged f) es (λ e p q. (p, q))
          (All-any-false (is_error f.status ≡ false) reports_error es
            (finished-no_error now rate row es))
          (All-any-false (f.status ≡ running) (λ e. is_end e.type) es
            (finished-status now rate (saw_trace_end es) (merge_events row es)).1) in
      All-zip (Bounded f) (Judged f) (Absorbed f) es (absorb f)
        (finished-Bounded now rate (saw_trace_end es) row es) judged

  stamp-as_utc : (t : Option ℕ) → as_utc (stamp t) ≡ t
  stamp-as_utc none = refl
  stamp-as_utc (some t) = refl

  stored-Agrees :
      (now i : ℕ) (row : Row)
      → row.trace_id ≡ i
      → Agrees (initial_row default_tenant now i (some (stored row))) row
  unfolding initial_row
  stored-Agrees now i row h = record {
    trace_id = sym h;
    status = refl;
    started_at = stamp-as_utc row.started_at;
    ended_at = stamp-as_utc row.ended_at;
    schema_version = refl;
    eval_status = refl;
    created_at = refl;
  }

  final_eval-again : (b : Bool) (s : EvalStatus) → final_eval b (final_eval b s) ≡ final_eval b s
  final_eval-again b s = ground arith

  finish-Agrees :
      (now now' rate : ℕ) (ended : Bool) (a m : Row)
      → Agrees a (finished now rate ended m)
      → Agrees (finished now' rate ended a) (finished now rate ended m)
  unfolding finish_row
  finish-Agrees now now' rate true a m h = record {
    trace_id = h.trace_id;
    status = ap final_status h.status ∙ ground arith;
    started_at = h.started_at;
    ended_at = h.ended_at;
    schema_version = h.schema_version;
    eval_status = cc (
      h.trace_id,
      h.eval_status,
      final_eval-again (should_sample digest m.trace_id rate 0) m.eval_status,
    );
    created_at = h.created_at;
  }
  finish-Agrees now now' rate false a m h = record {
    trace_id = h.trace_id;
    status = h.status;
    started_at = h.started_at;
    ended_at = h.ended_at;
    schema_version = h.schema_version;
    eval_status = h.eval_status;
    created_at = h.created_at;
  }

  initial_row-trace_id :
      (now i : ℕ) (current : Option Trace) → (initial_row default_tenant now i current).trace_id ≡ i
  unfolding initial_row
  initial_row-trace_id now i none = refl
  initial_row-trace_id now i (some c) = refl

  finished-trace_id :
      (now rate i : ℕ) (es : List ObsEvent) (current : Option Trace)
      → (finished now rate
          (saw_trace_end es)
          (merge_events (initial_row default_tenant now i current) es)).trace_id
        ≡ i
  finished-trace_id now rate i es current =
      let row = initial_row default_tenant now i current in
      (finished-keeps now rate (saw_trace_end es) (merge_events row es)).3
      ∙ (merge_events-keeps row es).0
      ∙ initial_row-trace_id now i current

  -- Merging a batch again into the row that it left changes neither the status, the time span, the
  -- schema version, the sampling decision nor the creation time, whenever that happens.
  pub merge_trace-redelivered :
      (now now' i : ℕ) (events : List ObsEvent) (current : Option Trace) (rate : ℕ)
      → let row = merge_trace digest default_tenant now i events current rate in
        Agrees (merge_trace digest default_tenant now' i events (some (stored row)) rate) row
  unfolding merge_trace
  merge_trace-redelivered now now' i events current rate =
      let sorted = sort_events events in
      let row = initial_row default_tenant now i current in
      let f = finished now rate (saw_trace_end sorted) (merge_events row sorted) in
      let again = initial_row default_tenant now' i (some (stored f)) in
      finish-Agrees now now' rate (saw_trace_end sorted) (merge_events again sorted)
        (merge_events row sorted)
        (merge_events-Absorbed again f sorted
          (stored-Agrees now' i f (finished-trace_id now rate i sorted current))
          (finished-Absorbed now rate row sorted))
