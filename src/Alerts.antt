-- ===== src/Alerts.antt =====
-- packages/obs-platform/src/obs_platform/alerts.py: `raise_alert`, on an alert that has a dedupe key.
-- Without one the unique constraint does not apply, and the database inserts a row. The table
-- `alerts` is a `Table`; the texts of titles and keys are formatted by the caller.
use agent_lens_platform.Common.{
  Eq, nat_eq, both_eq, ℕ, String, ◌≡◌, refl, ◌∙◌, Option, none, some, string_eq,
}
use agent_lens_platform.Common.Table.{Table, updated, upsert}
use agent_lens_platform.Common.Text.{Fields, prefix}
use agent_lens_platform.Severity.{Severity, of_text}

-- tenant and dedupe key: the unique constraint of `Alert`
abbrev pub AlertKey : Type 0
AlertKey = ℕ × String

instance abbrev pub alert_eq : Eq AlertKey
alert_eq = both_eq nat_eq string_eq

-- `Alert`
pub record Alert : Type 0 where
  pub tenant_id : ℕ
  pub trace_id : Option ℕ
  pub kind : String
  pub severity : Severity
  pub title : String
  pub detail : Fields
  pub status : String
  pub dedupe_key : String
  pub created_at : ℕ

abbrev pub alert_key : Alert → AlertKey
alert_key a = (a.tenant_id, a.dedupe_key)

-- `update_columns`
abbrev pub refresh : Alert → Alert → Alert
refresh old new = record old {
  severity = new.severity;
  title = new.title;
  detail = new.detail;
  created_at = new.created_at;
}

-- The row that `raise_alert` builds.
abbrev pub alert_row : ℕ → ℕ → String → Severity → String → Fields → Option ℕ → String → Alert
alert_row now tenant kind severity title detail trace dedupe_key = record {
  tenant_id = tenant;
  trace_id = trace;
  kind = kind;
  severity = severity;
  title = prefix 300 title;
  detail = detail;
  status = "open";
  dedupe_key = dedupe_key;
  created_at = now;
}

module _ (table : Table Alert alert_key) where
  -- `Severity(severity)` raises on a text that names none: nothing is written.
  abbrev pub write_alert : Option Severity → (Severity → Alert) → table.Rows → Option table.Rows
  write_alert none row t = none
  write_alert (some severity) row t = some (upsert table refresh (row severity) t)

  unfoldable pub raise_alert :
      ℕ → ℕ → String → String → String → Fields → Option ℕ → String → table.Rows → Option table.Rows
  unfolding upsert of_text
  raise_alert now tenant kind severity title detail trace dedupe_key t =
      write_alert (of_text severity)
        (λ s. alert_row now tenant kind s title detail trace dedupe_key) t

  -- The row of a key after an alert was written.
  found_after :
      (row : Alert) (t : table.Rows)
      → table.find (alert_key row) (upsert table refresh row t)
        ≡ updated refresh row (table.find (alert_key row) t)
  unfolding upsert
  found_after row t =
      table.find-upsert_row (alert_key row) refresh row t
      ∙ rw ((alert_eq.beq_iff (alert_key row) (alert_key row)).1 refl)

  -- An alert that is raised again under its key, with a severity that is known, refreshes the row
  -- that stands: the row keeps its kind, trace and status, and takes the severity, the title, the
  -- detail and the time of the new alert.
  pub raise_alert-refreshes :
      (now tenant : ℕ) (kind severity title : String) (detail : Fields) (trace : Option ℕ)
      (dedupe_key : String) (t : table.Rows) (old : Alert) (s : Severity)
      → of_text severity ≡ some s
      → table.find (tenant, dedupe_key) t ≡ some old
      → (t' : table.Rows) × ((raise_alert now tenant kind severity title detail trace dedupe_key t
            ≡ some t')
          × (table.find (tenant, dedupe_key) t'
              ≡ some (record old {
                severity = s;
                title = prefix 300 title;
                detail = detail;
                created_at = now;
              })))
  unfolding raise_alert
  raise_alert-refreshes now tenant kind severity title detail trace dedupe_key t old s known there =
      let row = alert_row now tenant kind s title detail trace dedupe_key in
      (upsert table refresh row t, (rw known, found_after row t ∙ rw there))
