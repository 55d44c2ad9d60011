-- ===== src/Tests/Alerting.antt =====
-- An alert that was acknowledged and is raised again.
use agent_lens_platform.Common.{◌≡◌, refl, none, some, [], ◌∷◌}
use agent_lens_platform.Common.Table.{Table, list_table}
use agent_lens_platform.Common.Text.{end, prefix}
use agent_lens_platform.Severity.{high, critical, of_text}
use agent_lens_platform.Alerts.{alert_eq, Alert, alert_key, raise_alert, raise_alert-refreshes}

abbrev alerts : Table Alert alert_key
alerts = list_table alert_key

abbrev acknowledged : Alert
acknowledged = record {
  tenant_id = 7;
  trace_id = none;
  kind = "budget";
  severity = high;
  title = "Eval budget exhausted";
  detail = end;
  status = "acknowledged";
  dedupe_key = "budget:daily:7";
  created_at = 50;
}

abbrev stored_alerts : alerts.Rows
stored_alerts = ((7, "budget:daily:7"), acknowledged) ∷ []

raise_alert-refreshes_example :
    (t' : alerts.Rows) × ((raise_alert alerts 60 7 "budget" "critical" "Eval budget exhausted again"
          end none "budget:daily:7" stored_alerts
        ≡ some t')
      × (alerts.find (7, "budget:daily:7") t'
          ≡ some (record acknowledged {
            severity = critical;
            title = prefix 300 "Eval budget exhausted again";
            detail = end;
            created_at = 60;
          })))
unfolding of_text
raise_alert-refreshes_example =
    raise_alert-refreshes alerts 60 7 "budget" "critical" "Eval budget exhausted again" end none
      "budget:daily:7" stored_alerts acknowledged critical refl refl
