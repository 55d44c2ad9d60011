-- ===== src/Scanner/Process.antt =====
-- `_persist`, `_maybe_alert` and `process` of
-- packages/obs-platform/src/obs_platform/workers/guardrail_scanner.py. `id_text` is the text of an id,
-- `upper` is `str.upper`, `score_json` the rounded score.
use agent_lens_platform.Common.{
  ℕ, zero, suc, String, Bool, false, not, Option, none, some, List, [], ◌∷◌, map, filter, length,
  if◌then◌else◌, max, is_empty, nat_eq,
}
use agent_lens_platform.Common.Table.{Table, insert_ignore, upsert}
use agent_lens_platform.Common.Text.{
  Json, int, text, arr, Items, nil, cons, Fields, end, field, join,
}
use agent_lens_platform.Severity.{Severity, at_least}
use agent_lens_platform.Severity
use agent_lens_platform.Event.{ObsEvent}
use agent_lens_platform.Alerts.{Alert, alert_key, alert_eq, raise_alert}
use agent_lens_platform.Worker.{StreamMessage, Raised, Result, ok, err, BatchOutcome}
use agent_lens_platform.Worker.Parse.{ParsedMessage, Attempt, parse}
use agent_lens_platform.Engine.Scan.{Finding, ScanOutcome, sorted_set}
use agent_lens_platform.Engine.Flags.{merge_flags}
use agent_lens_platform.Worker.Settled.{acked}
use agent_lens_platform.Scanner.{
  FindingRow, finding_key, finding_eq, TraceRow, trace_key, as_row, update_trace, Gathered, gather,
  nothing_gathered, merged_severity, stored_flags, stored_risk, stored_severity, most_serious,
  Scanned, PerTrace, sorted_traces, Scanning, scan_items,
}

abbrev pub texts : List String → Items
texts [] = nil
texts (s ∷ ss) = cons (text s) (texts ss)

abbrev pub is_flagged : Option ℕ → String
is_flagged none = "clean"
is_flagged (some zero) = "clean"
is_flagged (some (suc _)) = "flagged"

module _ (findings_table : Table FindingRow finding_key) (traces : Table TraceRow trace_key)
    (alerts : Table Alert alert_key) (text_before : String → String → Bool) (id_text : ℕ → String)
    (upper : String → String) (score_json : ℕ → Json) (floor : Severity) where
  -- The tables that the scanner writes.
  pub record Database : Type 0 where
    pub finding_rows : findings_table.Rows
    pub trace_rows : traces.Rows
    pub alert_rows : alerts.Rows

  -- `guardrail_dedupe_key`
  abbrev pub guardrail_dedupe_key : ℕ → String → String → String
  guardrail_dedupe_key trace_id detector finding_type =
      join "guardrail:" (join (id_text trace_id) (join ":" (join detector (join ":" finding_type))))

  abbrev pub alert_detail : Finding → ℕ → List Finding → Fields
  alert_detail worst total serious = field "detector" (text worst.detector) (
      field "finding_type" (text worst.finding_type) (
        field "field" (text worst.field) (
          field "excerpt" (text worst.excerpt) (
            field "score" (score_json worst.score) (
              field "total_findings" (int false total) (
                field "all_types"
                  (arr (texts (sorted_set text_before (map (λ f. f.finding_type) serious))))
                  end))))))

  abbrev pub alert_title : Finding → String
  alert_title worst =
      join (upper worst.detector) (join ": " (join worst.finding_type (join " in " worst.field)))

  -- `_maybe_alert`; `none` is an exception
  abbrev pub alert_on : ℕ → ℕ → ℕ → ℕ → List Finding → alerts.Rows → Option alerts.Rows
  alert_on now trace_id tenant_id total [] t = some t
  alert_on now trace_id tenant_id total (f ∷ fs) t =
      let worst = most_serious f fs in
      raise_alert alerts now tenant_id "guardrail" (Severity.text worst.severity)
        (alert_title worst) (alert_detail worst total (f ∷ fs)) (some trace_id)
        (guardrail_dedupe_key trace_id worst.detector worst.finding_type) t

  abbrev pub maybe_alert : ℕ → ℕ → ℕ → List Finding → alerts.Rows → Option alerts.Rows
  maybe_alert now trace_id tenant_id findings t =
      alert_on now trace_id tenant_id (length findings)
        (filter (λ f. at_least f.severity floor) findings) t

  abbrev pub trace_row : ℕ → ℕ → ℕ → Gathered → Option TraceRow → TraceRow
  trace_row now trace_id tenant_id g existing =
      let flags = merge_flags text_before (stored_flags existing) g.combined in
      record {
        trace_id = trace_id;
        tenant_id = tenant_id;
        guardrail_status = is_flagged flags.findings;
        guardrail_flags = flags;
        risk_score = max g.risk (stored_risk existing);
        max_severity = merged_severity g.severities (stored_severity existing);
        input = end;
        output = end;
        attributes = end;
        created_at = now;
        updated_at = now;
      }

  abbrev pub with_alerts : Database → Option alerts.Rows → Option Database
  with_alerts db none = none
  with_alerts db (some rows) = some (record db { alert_rows = rows })

  -- `results[0][0].tenant_id`; a list of results is never empty
  abbrev pub tenant_of : List (ObsEvent × ScanOutcome) → ℕ
  tenant_of [] = 0
  tenant_of ((event, _) ∷ _) = event.tenant_id

  -- `_persist`
  unfoldable pub persist : ℕ → ℕ → List (ObsEvent × ScanOutcome) → Database → Option Database
  unfolding gather insert_ignore upsert most_serious raise_alert at_least merge_flags
  persist now trace_id results db =
      let tenant_id = tenant_of results in
      let g = gather text_before nothing_gathered results in
      let rows = map (as_row now trace_id tenant_id) g.findings in
      let row = trace_row now trace_id tenant_id g (traces.find trace_id db.trace_rows) in
      let written : Database = record {
        finding_rows = insert_ignore findings_table rows db.finding_rows;
        trace_rows = upsert traces update_trace row db.trace_rows;
        alert_rows = db.alert_rows;
      } in
      with_alerts written (maybe_alert now trace_id tenant_id g.findings db.alert_rows)

  abbrev pub then_persist :
      ℕ → ℕ × List (ObsEvent × ScanOutcome) → Option Database → Option Database
  then_persist now t none = none
  then_persist now t (some db) = persist now t.0 t.1 db

  -- The loop of the session.
  unfoldable pub persist_all : ℕ → PerTrace → Option Database → Option Database
  unfolding persist
  persist_all now [] db = db
  persist_all now (t ∷ ts) db = persist_all now ts (then_persist now t db)

  module _ (parse_event : StreamMessage → Attempt ObsEvent) (scan : ObsEvent → Scanned)
      (session_raises : Database → Option Raised) (invalid : Raised) where
    abbrev pub commit :
        Database
        → Database
        → List (ParsedMessage ObsEvent)
        → BatchOutcome
        → Option Raised
        → Result BatchOutcome × Database
    commit before after items outcome none = (ok (acked items outcome), after)
    commit before after items outcome (some e) = (err e, before)

    -- The session: what it raises rolls it back. `invalid` is the error of a severity that is none.
    abbrev pub in_session :
        Database
        → List (ParsedMessage ObsEvent)
        → BatchOutcome
        → Option Database
        → Result BatchOutcome × Database
    in_session before items outcome none = (err invalid, before)
    in_session before items outcome (some after) =
        commit before after items outcome (session_raises after)

    abbrev pub scanned : ℕ → Scanning → Database → Result BatchOutcome × Database
    scanned now s db =
        if is_empty s.scannable
        then (ok s.outcome, db)
        else in_session db s.scannable s.outcome
            (persist_all now (sorted_traces s.per_trace) (some db))

    abbrev pub process_parsed :
        Bool
        → ℕ
        → List (ParsedMessage ObsEvent) × BatchOutcome
        → Database
        → Result BatchOutcome × Database
    process_parsed enabled now (parsed, outcome) db =
        if is_empty parsed
        then (ok outcome, db)
        else if not enabled
        then (ok (acked parsed outcome), db)
        else scanned now
            (scan_items scan parsed (record { per_trace = []; scannable = []; outcome = outcome }))
            db

    -- `process`
    unfoldable pub process :
        Bool → ℕ → List StreamMessage → Database → Result BatchOutcome × Database
    unfolding parse scan_items persist_all
    process enabled now messages db = process_parsed enabled now (parse parse_event messages) db
