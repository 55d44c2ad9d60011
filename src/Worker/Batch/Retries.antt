-- ===== src/Worker/Batch/Retries.antt =====
-- How often a batch of packages/obs-platform/src/obs_platform/workers/base.py calls its handler,
-- and what it adds to the counters.
use agent_lens_platform.Common.{
  ℕ, zero, suc, ◌+◌, ◌≤◌, ◌≡◌, List, [], ◌∷◌, inl, inr, Bool-cases, arith, length, length-map, map,
}
use agent_lens_platform.Worker.{
  StreamMessage, Result, ok, err, DeadEntry, Consumer, Settings, Services,
}
use agent_lens_platform.Worker.DeadLetters.{dead_row, counted, dead_letter}
use agent_lens_platform.Worker.Batch.{
  Verdict, decided, gave_up, is_conflict, lock_conflict_retries, run_handler, record_dead, finish,
  process_batch,
}
use agent_lens_platform.Worker.Batch.Safety.{verdict_of}

-- A count of the handler's calls, as a view of the world.
pub record CountLaws (sv : Services) (calls : sv.World → ℕ) : Type 0 where
  pub process_counts :
      (ms : List StreamMessage) (w : sv.World) → calls (sv.process ms w).1 ≡ calls w + 1
  pub sleep_counts : (w : sv.World) → calls (sv.sleep w) ≡ calls w

module _ (sv : Services) (cfg : Settings) (calls : sv.World → ℕ) (laws : CountLaws sv calls) where
  -- A batch calls its handler at least once and at most `left + 1` times when `left` immediate
  -- retries are allowed, whatever the handler raises.
  pub run_handler_calls :
      (left : ℕ) (ms : List StreamMessage) (w : sv.World)
      → let w' = (run_handler sv cfg left ms w).1 in
        (calls w + 1 ≤ calls w') × (calls w' ≤ calls w + (left + 1))
  unfolding run_handler
  run_handler_calls zero ms w = omega (arith, laws.process_counts ms w)
  run_handler_calls (suc left) ms w = elim (Bool-cases (is_conflict (sv.process ms w).0)) [
    | inl h ↦
        rw (h, run_handler)
          (omega (
            arith,
            laws.process_counts ms w,
            laws.sleep_counts (sv.process ms w).1,
            run_handler_calls left ms (sv.sleep (sv.process ms w).1),
          ))
    | inr h ↦ rw (h, run_handler) (omega (arith, laws.process_counts ms w))
  ]

-- How the counters of a consumer move over a batch with this verdict.
abbrev pub Counted : List StreamMessage → Verdict → Consumer → Consumer → Type 0
Counted ms (gave_up f) c c' =
    (c'.stats.processed ≡ c.stats.processed)
    × (c'.stats.failed ≡ c.stats.failed + length ms)
    × (c'.stats.dead_lettered ≡ c.stats.dead_lettered)
    × (c'.stats.batches ≡ c.stats.batches + 1)
Counted ms (decided o) c c' =
    (c'.stats.processed ≡ c.stats.processed + length o.ack)
    × (c'.stats.failed ≡ c.stats.failed + length o.retry)
    × (c'.stats.dead_lettered ≤ c.stats.dead_lettered + length o.dead)
    × (c'.stats.batches ≡ c.stats.batches + 1)

counted-stats :
    (n : ℕ) (c : Consumer) (r : Result (Unit {0}))
    → ((counted n c r).stats.processed ≡ c.stats.processed)
      × ((counted n c r).stats.failed ≡ c.stats.failed)
      × ((counted n c r).stats.batches ≡ c.stats.batches)
      × ((counted n c r).stats.dead_lettered ≤ c.stats.dead_lettered + n)
unfolding counted
counted-stats n c (ok _) = omega arith
counted-stats n c (err _) = omega arith

module _ (sv : Services) (cfg : Settings) where
  record_dead-stats :
      (ds : List DeadEntry) (c : Consumer) (w : sv.World)
      → let c' = (record_dead sv cfg ds (c, w)).0 in
        (c'.stats.processed ≡ c.stats.processed)
        × (c'.stats.failed ≡ c.stats.failed)
        × (c'.stats.batches ≡ c.stats.batches)
        × (c'.stats.dead_lettered ≤ c.stats.dead_lettered + length ds)
  unfolding dead_letter
  record_dead-stats [] c w = omega arith
  record_dead-stats (d ∷ ds) c w =
      let rows = map (dead_row sv cfg) (d ∷ ds) in
      omega (
        arith,
        counted-stats (length rows) c (sv.write_rows rows w).0,
        length-map ds (dead_row sv cfg),
      )

  finish-Counted :
      (ms : List StreamMessage) (v : Verdict) (c : Consumer) (w : sv.World)
      → Counted ms v c
          (finish sv cfg ms v
            (record c { stats = record c.stats { batches = c.stats.batches + 1 } }, w)).0
  unfolding finish
  finish-Counted ms (gave_up f) c w = omega arith
  finish-Counted ms (decided o) c w = omega (
    arith,
    record_dead-stats o.dead (record c { stats = record c.stats { batches = c.stats.batches + 1 } })
        w,
  )

  -- A batch that failed for a transient reason counts every message as failed and none as
  -- processed; any other counts what the handler acked and asked to retry, and at most as many
  -- dead letters as the handler reported.
  pub process_batch_counts :
      (ms : List StreamMessage) (c : Consumer) (w : sv.World)
      → Counted ms (verdict_of sv cfg ms w) c (process_batch sv cfg ms (c, w)).0
  unfolding process_batch
  process_batch_counts ms c w =
      finish-Counted ms (verdict_of sv cfg ms w) c (run_handler sv cfg lock_conflict_retries ms w).1
