-- ===== src/Retention.antt =====
-- packages/obs-platform/src/obs_platform/jobs/retention.py: the purge of what is older than the
-- retention window. A row of a table is its trace (or its id) and a number: the stamp of creation where the
-- table is aged by it, else what tells the row from the others of its trace.
pub mod Complete
pub mod Kept
pub mod Removed
pub mod Rounds
use agent_lens_platform.Common.{
  ℕ, zero, suc, ◌+◌, ◌-◌, ◌*◌, Bool, false, not, ◌||◌, List, [], ◌∷◌, map, length, take, filter,
  ltb, ◌==◌, if◌then◌else◌,
}

abbrev pub Rows : Type 0
Rows = List (ℕ × ℕ)

pub record Tables : Type 0 where
  pub traces : Rows
  pub spans : Rows
  pub guardrail_findings : Rows
  pub eval_scores : Rows
  pub drift_snapshots : Rows
  pub dead_letters : Rows
  pub alerts : Rows
  pub audit_log : Rows

-- `report.deleted`, where a missing name counts as zero
pub record Deleted : Type 0 where
  pub traces : ℕ
  pub spans : ℕ
  pub guardrail_findings : ℕ
  pub eval_scores : ℕ
  pub drift_snapshots : ℕ
  pub dead_letters : ℕ
  pub alerts : ℕ
  pub audit_log : ℕ

pub record RetentionReport : Type 0 where
  pub cutoff : ℕ
  pub deleted : Deleted
  pub batches : ℕ

pub record Purged : Type 0 where
  pub tables : Tables
  pub report : RetentionReport

-- `RetentionReport(cutoff=cutoff)`
abbrev pub new_report : ℕ → RetentionReport
new_report cutoff = record {
  cutoff = cutoff;
  deleted = record {
    traces = 0;
    spans = 0;
    guardrail_findings = 0;
    eval_scores = 0;
    drift_snapshots = 0;
    dead_letters = 0;
    alerts = 0;
    audit_log = 0;
  };
  batches = 0;
}

-- `trace_id.in_(ids)`
abbrev pub is_in : List ℕ → ℕ → Bool
is_in [] i = false
is_in (j ∷ ids) i = i == j || is_in ids i

-- `delete(table).where(...)`: the rows that stay, and the row count
abbrev pub rows_left : (ℕ × ℕ → Bool) → Rows → Rows
rows_left condition = filter (λ r. not (condition r))

abbrev pub row_count : (ℕ × ℕ → Bool) → Rows → ℕ
row_count condition rows = length (filter condition rows)

-- `created_at < cutoff`
abbrev pub is_older : ℕ → ℕ × ℕ → Bool
is_older cutoff r = ltb r.1 cutoff

-- `AUDIT_RETENTION_MULTIPLIER`
abbrev pub audit_retention_multiplier : ℕ
audit_retention_multiplier = 3

-- `select(Trace.trace_id).where(Trace.created_at < cutoff).limit(batch_size)`
abbrev pub expired_ids : ℕ → ℕ → Tables → List ℕ
expired_ids cutoff batch_size t =
    take batch_size (map (λ r. r.0) (filter (is_older cutoff) t.traces))

-- The deletes of one batch: the children of the traces, then the traces.
unfoldable pub delete_batch : List ℕ → Purged → Purged
delete_batch ids p =
    let t = p.tables in
    let d = p.report.deleted in
    let chosen : ℕ × ℕ → Bool = λ r. is_in ids r.0 in
    record {
      tables = record t {
        spans = rows_left chosen t.spans;
        guardrail_findings = rows_left chosen t.guardrail_findings;
        eval_scores = rows_left chosen t.eval_scores;
        traces = rows_left chosen t.traces;
      };
      report = record p.report {
        deleted = record d {
          spans = d.spans + row_count chosen t.spans;
          guardrail_findings = d.guardrail_findings + row_count chosen t.guardrail_findings;
          eval_scores = d.eval_scores + row_count chosen t.eval_scores;
          traces = d.traces + row_count chosen t.traces;
        };
        batches = p.report.batches + 1;
      };
    }

-- What a round does once it has its ids.
abbrev pub go_on : ℕ → List ℕ → Purged → Purged → Purged → Purged
go_on batch_size [] before after rest = before
go_on batch_size (i ∷ ids) before after rest =
    if ltb (length (i ∷ ids)) batch_size
    then after
    else if ltb 1_000 after.report.batches
    then after
    else rest

-- The loop over the batches, on fuel.
unfoldable pub purge_batches : ℕ → ℕ → ℕ → Purged → Purged
purge_batches cutoff batch_size zero p = p
purge_batches cutoff batch_size (suc fuel) p =
    let ids = expired_ids cutoff batch_size p.tables in
    let after = delete_batch ids p in
    let rest = purge_batches cutoff batch_size fuel after in go_on batch_size ids p after rest

-- The deletes of the tables that age on their own.
unfoldable pub purge_standalone : ℕ → ℕ → Purged → Purged
purge_standalone cutoff audit_cutoff p =
    let t = p.tables in
    let d = p.report.deleted in
    record {
      tables = record t {
        drift_snapshots = rows_left (is_older cutoff) t.drift_snapshots;
        dead_letters = rows_left (is_older cutoff) t.dead_letters;
        alerts = rows_left (is_older cutoff) t.alerts;
        audit_log = rows_left (is_older audit_cutoff) t.audit_log;
      };
      report = record p.report {
        deleted = record d {
          drift_snapshots = d.drift_snapshots + row_count (is_older cutoff) t.drift_snapshots;
          dead_letters = d.dead_letters + row_count (is_older cutoff) t.dead_letters;
          alerts = d.alerts + row_count (is_older cutoff) t.alerts;
          audit_log = d.audit_log + row_count (is_older audit_cutoff) t.audit_log;
        };
      };
    }

-- The batches after which the loop gives up.
abbrev pub batch_limit : ℕ
batch_limit = 1_001

-- `purge`, with the retention window in the unit of the clock
unfoldable pub purge : ℕ → ℕ → ℕ → Tables → Purged
purge retention batch_size moment tables =
    let cutoff = moment - retention in
    let audit_cutoff = moment - retention * audit_retention_multiplier in
    purge_standalone cutoff audit_cutoff (
      purge_batches cutoff batch_size batch_limit
        (record { tables = tables; report = new_report cutoff }))
