-- ===== src/Scanner/Settles.antt =====
-- What becomes of the messages of a batch in `process` of
-- packages/obs-platform/src/obs_platform/workers/guardrail_scanner.py.
use agent_lens_platform.Common.{ℕ, ◌≡◌, String, Bool, Option, List, nat_eq}
use agent_lens_platform.Common.Table.{Table}
use agent_lens_platform.Common.Text.{Json}
use agent_lens_platform.Severity.{Severity}
use agent_lens_platform.Event.{ObsEvent}
use agent_lens_platform.Alerts.{Alert, alert_key, alert_eq}
use agent_lens_platform.Worker.{StreamMessage, Raised, Result, ok, err, BatchOutcome}
use agent_lens_platform.Worker.Parse.{Attempt}
use agent_lens_platform.Worker.Settled.{AllSettled}
use agent_lens_platform.Scanner.{FindingRow, finding_key, finding_eq, TraceRow, trace_key, Scanned}
use agent_lens_platform.Scanner.Process.{Database}

abbrev SameRest : BatchOutcome → BatchOutcome → Type 0
SameRest a b = (a.ack ≡ b.ack) × (a.retry ≡ b.retry)

module _ (findings_table : Table FindingRow finding_key) (traces : Table TraceRow trace_key)
    (alerts : Table Alert alert_key) (text_before : String → String → Bool) (id_text : ℕ → String)
    (upper : String → String) (score_json : ℕ → Json) (floor : Severity)
    (parse_event : StreamMessage → Attempt ObsEvent) (scan : ObsEvent → Scanned)
    (session_raises : Database findings_table traces alerts text_before id_text upper score_json
        floor
      → Option Raised)
    (invalid : Raised) where
  abbrev pub Tables : Type 0
  Tables = Database findings_table traces alerts text_before id_text upper score_json floor

  -- Where the batch raises, the database is as it was; else every message is settled.
  abbrev pub Settles : List StreamMessage → Tables → Result BatchOutcome × Tables → Type 0
  Settles ms before (ok outcome, after) = AllSettled ms outcome
  Settles ms before (err e, after) = after ≡ before
