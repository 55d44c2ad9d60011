-- ===== src/Worker/Batch.antt =====
-- `_process_batch` of packages/obs-platform/src/obs_platform/workers/base.py.
pub mod Safety
pub mod Retries
use agent_lens_platform.Common.{
  ℕ, zero, suc, ◌+◌, Bool, true, false, Option, some, List, [], ◌∷◌, ◌++◌, map, length,
}
use agent_lens_platform.Worker.{
  StreamMessage, Failure, permanent, lock_conflict, failure, Result, ok, err, DeadEntry,
  BatchOutcome, dead_ids, Consumer, Settings, Services,
}
use agent_lens_platform.Worker.DeadLetters.{dead_letter}

abbrev pub lock_conflict_retries : ℕ
lock_conflict_retries = 3

-- How the loop of `_process_batch` ends: with an outcome, or by the early return.
pub data Verdict : Type 0 where
  decided : BatchOutcome → Verdict
  gave_up : Failure → Verdict

abbrev pub all_dead : Failure → List StreamMessage → List DeadEntry
all_dead f =
    map (λ m. record { message = m; error_type = f.error_type; error_message = f.error_text })

unfoldable pub settle : List StreamMessage → Result BatchOutcome → Verdict
settle ms (ok outcome) = decided outcome
settle ms (err (permanent f)) = decided (record { ack = []; retry = []; dead = all_dead f ms })
settle ms (err e) = gave_up (failure e)

abbrev pub is_conflict : Result BatchOutcome → Bool
is_conflict (err (lock_conflict _)) = true
is_conflict _ = false

-- `list(outcome.ack) + [m.message_id for m, _, _ in outcome.dead]`
abbrev pub ack_ids : Verdict → List ℕ
ack_ids (decided o) = o.ack ++ dead_ids o.dead
ack_ids (gave_up _) = []

abbrev pub succeeded : List ℕ → ℕ → Option ℕ → Option ℕ
succeeded [] now old = old
succeeded (_ ∷ _) now old = some now

module _ (sv : Services) (cfg : Settings) where
  -- The loop: `left` immediate retries remain, for a lock conflict only.
  unfoldable pub run_handler : ℕ → List StreamMessage → sv.World → Verdict × sv.World
  unfolding settle
  run_handler zero ms w = let (r, w') = sv.process ms w in (settle ms r, w')
  run_handler (suc left) ms w =
      let (r, w') = sv.process ms w in
      elim (is_conflict r) [ true ↦ run_handler left ms (sv.sleep w') | false ↦ (settle ms r, w') ]

  abbrev pub record_dead : List DeadEntry → Consumer × sv.World → Consumer × sv.World
  record_dead [] s = s
  record_dead (d ∷ ds) s = dead_letter sv cfg (d ∷ ds) s

  -- `xack` and its handler: a failure is logged
  abbrev pub acknowledge : List ℕ → sv.World → sv.World
  acknowledge [] w = w
  acknowledge (i ∷ ids) w = (sv.xack (i ∷ ids) w).1

  unfoldable pub finish : List StreamMessage → Verdict → Consumer × sv.World → Consumer × sv.World
  finish ms (gave_up f) (c, w) = (
    record c {
      stats = record c.stats {
        failed = c.stats.failed + length ms;
        last_error = some f.error_repr;
      };
    },
    sv.sleep w,
  )
  finish ms (decided o) s =
      let (c, w) = record_dead o.dead s in
      let w' = acknowledge (ack_ids (decided o)) w in
      (
        record c {
          stats = record c.stats {
            processed = c.stats.processed + length o.ack;
            failed = c.stats.failed + length o.retry;
            last_success_at = succeeded o.ack (sv.utc_now w') c.stats.last_success_at;
          };
        },
        w',
      )

  unfoldable pub process_batch : List StreamMessage → Consumer × sv.World → Consumer × sv.World
  unfolding run_handler finish
  process_batch ms (c, w) =
      let (verdict, w') = run_handler lock_conflict_retries ms w in
      finish ms verdict (record c { stats = record c.stats { batches = c.stats.batches + 1 } }, w')
