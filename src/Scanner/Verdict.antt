-- ===== src/Scanner/Verdict.antt =====
-- What `_persist` of packages/obs-platform/src/obs_platform/workers/guardrail_scanner.py leaves in the
-- row of a trace.
use agent_lens_platform.Common.{
  ℕ, ◌≡◌, refl, sym, ap, ◌∙◌, String, Bool, Option, none, some, List, [], ◌∷◌, map, nat_eq, get_or,
}
use agent_lens_platform.Common.Table.{Table, insert_ignore, upsert, updated}
use agent_lens_platform.Common.Text.{Json}
use agent_lens_platform.Severity.{Severity}
use agent_lens_platform.Event.{ObsEvent}
use agent_lens_platform.Alerts.{Alert, alert_key, alert_eq}
use agent_lens_platform.Engine.Scan.{ScanOutcome, Flags, no_flags}
use agent_lens_platform.Engine.Flags.{merge_flags, merge_all}
use agent_lens_platform.Engine.Order.{view}
use agent_lens_platform.Engine.Batch.{merge_batch-view, merge_batch-newest}
use agent_lens_platform.Scanner.{
  FindingRow, finding_key, finding_eq, TraceRow, trace_key, as_row, update_trace, Gathered, gather,
  nothing_gathered, stored_flags,
}
use agent_lens_platform.Scanner.Process.{
  Database, persist, with_alerts, trace_row, tenant_of, is_flagged,
}

abbrev pub flags_of : List (ObsEvent × ScanOutcome) → List Flags
flags_of = map (λ r. r.1.flags)

gather-combined :
    (text_before : String → String → Bool) (results : List (ObsEvent × ScanOutcome)) (g : Gathered)
    → (gather text_before g results).combined ≡ merge_all text_before g.combined (flags_of results)
unfolding gather merge_all
gather-combined text_before [] g = refl
gather-combined text_before ((event, result) ∷ results) g = gather-combined text_before results _

module _ (findings_table : Table FindingRow finding_key) (traces : Table TraceRow trace_key)
    (alerts : Table Alert alert_key) (text_before : String → String → Bool) (id_text : ℕ → String)
    (upper : String → String) (score_json : ℕ → Json) (floor : Severity) where
  abbrev pub Tables : Type 0
  Tables = Database findings_table traces alerts text_before id_text upper score_json floor

  alerts_keep_rows :
      (db db' : Tables) (o : Option alerts.Rows)
      → with_alerts findings_table traces alerts text_before id_text upper score_json floor db o
        ≡ some db'
      → db'.trace_rows ≡ db.trace_rows
  alerts_keep_rows db db' none h = cc
  alerts_keep_rows db db' (some rows) h = sym (ap (λ o. (get_or o db).trace_rows) h)

  -- The flags of a row after it is written.
  updated_flags :
      (row : TraceRow) (o : Option TraceRow)
      → (written : TraceRow) × ((updated update_trace row o ≡ some written)
          × ((written.guardrail_flags ≡ row.guardrail_flags)
              × (written.guardrail_status ≡ row.guardrail_status)))
  updated_flags row none = (row, (refl, (refl, refl)))
  updated_flags row (some old) = (update_trace old row, (refl, (refl, refl)))

  -- Where a trace's part of a batch is written, the trace has a row. Its flags, every key of them, are
  -- the flags of the part's scans merged with one another and then into those stored before. That leaves
  -- what merging each scan into the stored flags would: the same injection and the same engines, the
  -- same findings, scores and severity, and the same count, types and severity of the personal data.
  -- The status is "flagged" where the flags count a finding and "clean" where they count none.
  pub persist-view :
      (now trace_id : ℕ) (results : List (ObsEvent × ScanOutcome)) (db db' : Tables)
      → persist findings_table traces alerts text_before id_text upper score_json floor now trace_id
          results db
        ≡ some db'
      → (row : TraceRow) × ((traces.find trace_id db'.trace_rows ≡ some row)
          × (let stored = stored_flags (traces.find trace_id db.trace_rows) in
              let each_merged = merge_all text_before stored (flags_of results) in
              (row.guardrail_flags
                ≡ merge_flags text_before stored
                    (merge_all text_before no_flags (flags_of results)))
              × ((view row.guardrail_flags ≡ view each_merged)
                  × ((row.guardrail_flags.injection ≡ each_merged.injection)
                      × ((row.guardrail_flags.engines ≡ each_merged.engines)
                          × (row.guardrail_status ≡ is_flagged row.guardrail_flags.findings))))))
  unfolding persist upsert
  persist-view now trace_id results db db' h =
      let g = gather text_before nothing_gathered results in
      let existing = traces.find trace_id db.trace_rows in
      let tenant =
        tenant_of findings_table traces alerts text_before id_text upper score_json floor results in
      let row =
        trace_row findings_table traces alerts text_before id_text upper score_json floor now
          trace_id tenant g existing in
      let after : Tables = record {
        finding_rows =
            insert_ignore findings_table (map (as_row now trace_id tenant) g.findings)
              db.finding_rows;
        trace_rows = upsert traces update_trace row db.trace_rows;
        alert_rows = db.alert_rows;
      } in
      let kept = alerts_keep_rows after db' _ h in
      let (written, (found, (flags, status))) = updated_flags row existing in
      let all =
        flags
        ∙ ap (merge_flags text_before (stored_flags existing))
            (gather-combined text_before results nothing_gathered) in
      let newest = merge_batch-newest text_before (stored_flags existing) (flags_of results) in
      (
        written,
        (
          ap (traces.find trace_id) kept
              ∙ traces.find-upsert_row trace_id update_trace row db.trace_rows
              ∙ rw ((nat_eq.beq_iff trace_id trace_id).1 refl) found,
          (
            all,
            (
              ap view all ∙ merge_batch-view text_before (stored_flags existing) (flags_of results),
              (
                ap (λ f. f.injection) all ∙ newest.0,
                (
                  ap (λ f. f.engines) all ∙ newest.1,
                  status ∙ ap (λ f. is_flagged f.findings) (sym flags),
                ),
              ),
            ),
          ),
        ),
      )
