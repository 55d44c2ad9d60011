-- ===== src/Storage/Spans/Order.antt =====
-- The order in which the start and the end of a span arrive does not matter, and a replayed start
-- changes nothing: packages/obs-platform/src/obs_platform/workers/storage_writer.py.
use agent_lens_platform.Common.{◌≡◌, refl, ap, ◌∙◌, true, Option, none, some, [], ◌∷◌, pair_eq}
use agent_lens_platform.Common.Table.{Table, kept, updated}
use agent_lens_platform.Storage.Spans.{SpanRow, Key, key_of, end_columns, write_spans, Batch}

-- The batches that carry one event: a started span, and a finished one.
abbrev pub one_start : SpanRow → Batch
one_start r = record { starts = (key_of r, r) ∷ []; ends = [] }

abbrev pub one_end : SpanRow → Batch
one_end r = record { starts = []; ends = (key_of r, r) ∷ [] }

-- The columns of the row that the end of a span decides are those of the end.
abbrev pub EndsAs : SpanRow → SpanRow → Type 0
EndsAs e r =
    (r.parent_span_id ≡ e.parent_span_id)
    × ((r.kind ≡ e.kind)
        × ((r.name ≡ e.name)
            × ((r.status ≡ e.status)
                × ((r.started_at ≡ e.started_at)
                    × ((r.ended_at ≡ e.ended_at)
                        × ((r.latency_ms ≡ e.latency_ms)
                            × ((r.input ≡ e.input)
                                × ((r.output ≡ e.output)
                                    × ((r.error ≡ e.error)
                                        × ((r.attributes ≡ e.attributes)
                                            × ((r.prompt_tokens ≡ e.prompt_tokens)
                                                × ((r.completion_tokens ≡ e.completion_tokens)
                                                    × ((r.total_tokens ≡ e.total_tokens)
                                                        × ((r.cost_micros ≡ e.cost_micros)
                                                            × ((r.model ≡ e.model)
                                                            × ((r.schema_version
                                                            ≡ e.schema_version)))))))))))))))))

-- The row is there, and it is of the span of `e` and has the columns of `e`.
abbrev pub IsEnded : SpanRow → Option SpanRow → Type 0
IsEnded e none = ⊥
IsEnded e (some r) = ((r.trace_id ≡ e.trace_id) × (r.span_id ≡ e.span_id)) × EndsAs e r

pair_refl : (k : Key) → pair_eq.beq k k ≡ true
pair_refl k = (pair_eq.beq_iff k k).1 refl

IsEnded-started :
    (s e : SpanRow) (o : Option SpanRow)
    → key_of s ≡ key_of e
    → o ≡ some (end_columns s e)
    → IsEnded e o
IsEnded-started s e o same found = rw found (
  (ap (λ k. k.0) same, ap (λ k. k.1) same),
  (
    refl,
    (
      refl,
      (
        refl,
        (
          refl,
          (
            refl,
            (
              refl,
              (
                refl,
                (refl, (refl, (refl, (refl, (refl, (refl, (refl, (refl, (refl, (refl)))))))))),
              ),
            ),
          ),
        ),
      ),
    ),
  ),
)

IsEnded-alone : (e : SpanRow) (o : Option SpanRow) → o ≡ some e → IsEnded e o
IsEnded-alone e o found = rw found (
  (refl, refl),
  (
    refl,
    (
      refl,
      (
        refl,
        (
          refl,
          (
            refl,
            (
              refl,
              (
                refl,
                (refl, (refl, (refl, (refl, (refl, (refl, (refl, (refl, (refl, (refl)))))))))),
              ),
            ),
          ),
        ),
      ),
    ),
  ),
)

module _ (table : Table SpanRow key_of) where
  find-start :
      (r : SpanRow) (t : table.Rows)
      → table.find (key_of r) (write_spans table (one_start r) t) ≡ kept r (table.find (key_of r) t)
  unfolding write_spans
  find-start r t = table.find-insert_row (key_of r) r t ∙ rw (pair_refl (key_of r))

  find-end :
      (k : Key) (r : SpanRow) (t : table.Rows)
      → key_of r ≡ k
      → table.find k (write_spans table (one_end r) t) ≡ updated end_columns r (table.find k t)
  unfolding write_spans
  find-end k r t same =
      table.find-upsert_row k end_columns r t ∙ rw ((pair_eq.beq_iff (key_of r) k).1 same)

  -- A start that arrives for a stored span, finished or not, changes no column of it.
  pub replayed_start :
      (r old : SpanRow) (t : table.Rows)
      → table.find (key_of r) t ≡ some old
      → table.find (key_of r) (write_spans table (one_start r) t) ≡ some old
  replayed_start r old t h = find-start r t ∙ rw h

  find-start_at :
      (k : Key) (r : SpanRow) (t : table.Rows)
      → key_of r ≡ k
      → table.find k (write_spans table (one_start r) t) ≡ kept r (table.find k t)
  unfolding write_spans
  find-start_at k r t same =
      table.find-insert_row k r t ∙ rw ((pair_eq.beq_iff (key_of r) k).1 same)

  -- For a span that is not stored yet, the start before the end and the end before the start both
  -- leave a row of that span with every column of the end, but the tenant and the creation time, which
  -- the first of the two decides.
  pub start_end_commute :
      (s e : SpanRow) (t : table.Rows)
      → key_of s ≡ key_of e
      → table.find (key_of e) t ≡ none
      → IsEnded e (
          table.find (key_of e) (write_spans table (one_end e) (write_spans table (one_start s) t)))
        × IsEnded e (
            table.find
              (key_of e)
              (write_spans table (one_start s) (write_spans table (one_end e) t)))
  start_end_commute s e t same fresh = (
    IsEnded-started s e _ same (
        find-end (key_of e) e (write_spans table (one_start s) t) refl
        ∙ ap (updated end_columns e) (find-start_at (key_of e) s t same ∙ ap (kept s) fresh)),
    IsEnded-alone e _ (
        find-start_at (key_of e) s (write_spans table (one_end e) t) same
        ∙ ap (kept s) (find-end (key_of e) e t refl ∙ ap (updated end_columns e) fresh)),
  )
