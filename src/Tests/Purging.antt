-- ===== src/Tests/Purging.antt =====
-- A purge of a small database.
use agent_lens_platform.Common.{◌≡◌, refl, [], ◌∷◌, filter, All, arith}
use agent_lens_platform.Retention.{
  Tables, is_older, purge, purge_standalone, purge_batches, delete_batch,
}
use agent_lens_platform.Retention.Removed.{Gone, purge_complete}
use agent_lens_platform.Retention.Kept.{Kept, purge_keeps}

abbrev database : Tables
database = record {
  traces = (1, 10) ∷ (2, 95) ∷ (3, 20) ∷ (4, 30) ∷ [];
  spans = (1, 100) ∷ (2, 101) ∷ (2, 102) ∷ (4, 103) ∷ [];
  guardrail_findings = (2, 200) ∷ (3, 201) ∷ [];
  eval_scores = (4, 300) ∷ [];
  drift_snapshots = (7, 50) ∷ [];
  dead_letters = (8, 96) ∷ [];
  alerts = [];
  audit_log = (9, 60) ∷ (10, 75) ∷ [];
}

purge_traces : (purge 10 2 100 database).tables.traces ≡ (2, 95) ∷ []
unfolding purge purge_standalone purge_batches delete_batch
purge_traces = refl

purge_complete_example :
    let left = (purge 10 2 100 database).tables in
    (filter (is_older 90) left.traces ≡ [])
    × All (λ r. Gone r.0 left) (filter (is_older 90) database.traces)
    × (filter (is_older 90) left.drift_snapshots ≡ [])
    × (filter (is_older 90) left.dead_letters ≡ [])
    × (filter (is_older 90) left.alerts ≡ [])
    × (filter (is_older 70) left.audit_log ≡ [])
purge_complete_example = purge_complete 10 2 100 database (omega arith) (omega arith)

purge_keeps_example : Kept 2 database (purge 10 2 100 database).tables
purge_keeps_example = purge_keeps 10 2 100 2 database refl
