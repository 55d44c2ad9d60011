-- ===== src/Storage/Groups.antt =====
-- `_write_traces` of packages/obs-platform/src/obs_platform/workers/storage_writer.py, trace by trace.
use agent_lens_platform.Common.{
  ℕ, ◌≡◌, refl, sym, ap, ◌∙◌, String, Bool, true, false, Option, none, some, List, [], ◌∷◌, ◌++◌,
  inl, inr, map, leb, ◌==◌, ==_iff, if◌then◌else◌, nat_eq, pair_eq, Bool-cases, arith, filter,
  get_or,
}
use mathlib.Core.List.{append_assoc}
use agent_lens_platform.Common.Table.{Table, upsert_many, updated}
use agent_lens_platform.Event.{ObsEvent}
use agent_lens_platform.Storage.{Row, Trace, initial_row, merge_event}
use agent_lens_platform.Storage.Merge.{
  merge_trace, merge_events, finish_row, sort_events, saw_trace_end,
}
use agent_lens_platform.Storage.Absorb.{stored}
use agent_lens_platform.Storage.Spans.{SpanRow, key_of}
use agent_lens_platform.Storage.Spans.Rollups.{Rollup, rollup}
use agent_lens_platform.Storage.Process.{
  TraceRow, trace_key, update_columns, TraceEvents, add_event, group_events, insert_group,
  sorted_groups, mapped, merged_row, write_traces,
}

abbrev lookup : ℕ → TraceEvents → Option (List ObsEvent)
lookup i [] = none
lookup i ((j, es) ∷ gs) = if j == i then some es else lookup i gs

abbrev Distinct : TraceEvents → Type 0
Distinct [] = Unit
Distinct (g ∷ gs) = (lookup g.0 gs ≡ none) × Distinct gs

-- The events of one trace, in the order in which they arrived.
abbrev pub events_of : ℕ → List ObsEvent → List ObsEvent
events_of i = filter (λ e. e.trace_id == i)

abbrev extended : Option (List ObsEvent) → List ObsEvent → Option (List ObsEvent)
extended o [] = o
extended o (e ∷ es) = some (get_or o [] ++ e ∷ es)

lookup-insert_group :
    (i j : ℕ) (es : List ObsEvent) (gs : TraceEvents)
    → lookup j gs ≡ none
    → lookup i (insert_group (j, es) gs) ≡ (if j == i then some es else lookup i gs)
lookup-insert_group i j es [] h = refl
lookup-insert_group i j es ((k, fs) ∷ gs) h = ground (arith, lookup-insert_group i j es gs)

insert_group-Distinct :
    (j : ℕ) (es : List ObsEvent) (gs : TraceEvents)
    → lookup j gs ≡ none
    → Distinct gs
    → Distinct (insert_group (j, es) gs)
insert_group-Distinct j es [] h d = (refl, tt)
insert_group-Distinct j es ((k, fs) ∷ gs) h d = elim (Bool-cases (leb j k)) [
  | inl before ↦ rw before (h, d)
  | inr after ↦ rw after (
    lookup-insert_group k j es gs (ground arith) ∙ ground arith,
    insert_group-Distinct j es gs (ground arith) d.1,
  )
]

lookup-sorted_groups :
    (gs : TraceEvents)
    → Distinct gs
    → Distinct (sorted_groups gs) × ((i : ℕ) → lookup i (sorted_groups gs) ≡ lookup i gs)
lookup-sorted_groups [] d = (tt, λ i. refl)
lookup-sorted_groups ((j, es) ∷ gs) d =
    let (rest, same) = lookup-sorted_groups gs d.1 in
    let free = same j ∙ d.0 in
    (
      insert_group-Distinct j es (sorted_groups gs) free rest,
      λ i. lookup-insert_group i j es (sorted_groups gs) free ∙ rw (same i) refl,
    )

lookup-add_event :
    (i : ℕ) (e : ObsEvent) (gs : TraceEvents)
    → lookup i (add_event e gs)
      ≡ (if e.trace_id == i then some (get_or (lookup i gs) [] ++ e ∷ []) else lookup i gs)
unfolding add_event
lookup-add_event i e [] = refl
lookup-add_event i e ((j, es) ∷ gs) = ground (arith, lookup-add_event i e gs)

add_event-Distinct : (e : ObsEvent) (gs : TraceEvents) → Distinct gs → Distinct (add_event e gs)
unfolding add_event
add_event-Distinct e [] d = (refl, tt)
add_event-Distinct e ((j, es) ∷ gs) d = elim (Bool-cases (j == e.trace_id)) [
  | inl same ↦ rw same (d.0, d.1)
  | inr different ↦
      rw different (lookup-add_event j e gs ∙ ground arith, add_event-Distinct e gs d.1)
]

group_events-Distinct :
    (es : List ObsEvent) (gs : TraceEvents) → Distinct gs → Distinct (group_events gs es)
unfolding group_events
group_events-Distinct [] gs d = d
group_events-Distinct (e ∷ es) gs d =
    group_events-Distinct es (add_event e gs) (add_event-Distinct e gs d)

extended-cons :
    (o : Option (List ObsEvent)) (e : ObsEvent) (es : List ObsEvent)
    → extended (some (get_or o [] ++ e ∷ [])) es ≡ extended o (e ∷ es)
extended-cons o e [] = refl
extended-cons o e (f ∷ es) = ap some (append_assoc (get_or o []) (e ∷ []) (f ∷ es))

lookup-group_events :
    (i : ℕ) (es : List ObsEvent) (gs : TraceEvents)
    → lookup i (group_events gs es) ≡ extended (lookup i gs) (events_of i es)
unfolding group_events
lookup-group_events i [] gs = refl
lookup-group_events i (e ∷ es) gs = elim (Bool-cases (e.trace_id == i)) [
  | inl own ↦
      lookup-group_events i es (add_event e gs)
      ∙ rw (lookup-add_event i e gs, own) (extended-cons (lookup i gs) e (events_of i es))
  | inr foreign ↦
      lookup-group_events i es (add_event e gs) ∙ rw (lookup-add_event i e gs, foreign) refl
]

-- What merging and the last assignments leave of the key.
merge_events-trace_id :
    (es : List ObsEvent) (row : Row) → (merge_events row es).trace_id ≡ row.trace_id
unfolding merge_events merge_event
merge_events-trace_id [] row = refl
merge_events-trace_id (e ∷ es) row = merge_events-trace_id es (merge_event row e)

module _ (digest : ℕ → ℕ → ℕ) (default_tenant : ℕ) where
  finish_row-trace_id :
      (now rate : ℕ) (ended : Bool) (row : Row)
      → (finish_row digest default_tenant now rate ended row).trace_id ≡ row.trace_id
  unfolding finish_row
  finish_row-trace_id now rate true row = refl
  finish_row-trace_id now rate false row = refl

  initial_row-trace_id :
      (now i : ℕ) (o : Option Trace) → (initial_row default_tenant now i o).trace_id ≡ i
  unfolding initial_row
  initial_row-trace_id now i none = refl
  initial_row-trace_id now i (some t) = refl

  merge_trace-trace_id :
      (now i : ℕ) (es : List ObsEvent) (o : Option Trace) (rate : ℕ)
      → (merge_trace digest default_tenant now i es o rate).trace_id ≡ i
  unfolding merge_trace
  merge_trace-trace_id now i es o rate =
      finish_row-trace_id now rate (saw_trace_end (sort_events es))
        (merge_events (initial_row default_tenant now i o) (sort_events es))
      ∙ merge_events-trace_id (sort_events es) (initial_row default_tenant now i o)
      ∙ initial_row-trace_id now i o

module _ (traces : Table TraceRow trace_key) (set : TraceRow → TraceRow → TraceRow)
    (row_of : ℕ × List ObsEvent → TraceRow) where
  -- What a group of events leaves of the row that stands.
  abbrev pub written : ℕ → Option (List ObsEvent) → Option TraceRow → Option TraceRow
  written i none o = o
  written i (some es) o = updated set (row_of (i, es)) o

  find-upsert_many :
      (i : ℕ) (gs : TraceEvents) (t : traces.Rows)
      → ((g : ℕ × List ObsEvent) → trace_key (row_of g) ≡ g.0)
      → Distinct gs
      → traces.find i (upsert_many traces set (map row_of gs) t)
        ≡ written i (lookup i gs) (traces.find i t)
  unfolding upsert_many
  find-upsert_many i [] t keys d = refl
  find-upsert_many i ((j, es) ∷ gs) t keys d =
      let t' = traces.upsert_row set (row_of (j, es)) t in
      let ih = find-upsert_many i gs t' keys d.1 in
      let o = traces.find i t in
      let step =
        traces.find-upsert_row i set (row_of (j, es)) t
        ∙ ap (λ k. if nat_eq.beq k i then updated set (row_of (j, es)) o else o) (keys (j, es)) in
      elim (Bool-cases (j == i)) [
        | inl same ↦
            let e = (==_iff j i).0 same in
            let alone = ap (λ k. lookup k gs) (sym e) ∙ d.0 in
            ih ∙ rw (alone, step, same) (ap (λ k. updated set (row_of (k, es)) o) e)
        | inr different ↦ ih ∙ rw (step, different) refl
      ]

module _ (spans : Table SpanRow key_of) (traces : Table TraceRow trace_key)
    (spans_of : ℕ → spans.Rows → List SpanRow) (set_totals : ℕ → Rollup → traces.Rows → traces.Rows)
    (digest : ℕ → ℕ → ℕ) (default_tenant sample_rate : ℕ) (cost : Option String → ℕ → ℕ → ℕ) where
  -- A row with the events of its trace merged in, in the order in which they arrived.
  abbrev pub with_events : ℕ → ℕ → traces.Rows → List ObsEvent → Option TraceRow
  with_events now i t [] = traces.find i t
  with_events now i t (e ∷ es) =
      updated update_columns
        (record {
          row =
              merge_trace digest default_tenant now i (e ∷ es)
                (mapped (λ r. stored r.row) (traces.find i t)) sample_rate;
          totals = rollup [];
        })
        (traces.find i t)

  extended-with_events :
      (now i : ℕ) (t : traces.Rows) (es : List ObsEvent)
      → written traces update_columns
          (merged_row spans traces spans_of set_totals digest default_tenant sample_rate cost now t)
          i
          (extended none es)
          (traces.find i t)
        ≡ with_events now i t es
  extended-with_events now i t [] = refl
  extended-with_events now i t (e ∷ es) = refl

  -- However the events of a batch are spread over traces, the row of each trace after the batch is
  -- that trace's stored row with that trace's own events merged in, in the order in which they
  -- arrived, and a trace without events keeps its row.
  pub write_traces-find :
      (now i : ℕ) (events : List ObsEvent) (t : traces.Rows)
      → traces.find i (
          write_traces spans traces spans_of set_totals digest default_tenant sample_rate cost now
            (group_events [] events)
            t)
        ≡ with_events now i t (events_of i events)
  unfolding write_traces
  write_traces-find now i events t =
      let groups = group_events [] events in
      let row_of =
        merged_row spans traces spans_of set_totals digest default_tenant sample_rate cost now t in
      let (distinct, same) = lookup-sorted_groups groups (group_events-Distinct events [] tt) in
      find-upsert_many traces update_columns row_of i (sorted_groups groups) t
        (λ g. merge_trace-trace_id digest default_tenant now g.0 g.1 _ sample_rate) distinct
      ∙ ap (λ o. written traces update_columns row_of i o (traces.find i t))
          (same i ∙ lookup-group_events i events [])
      ∙ extended-with_events now i t (events_of i events)
