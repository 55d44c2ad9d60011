-- ===== src/Tests/Worker.antt =====
-- Witnesses for the batch of the consumer: the first call of the handler is a deadlock.
use agent_lens_platform.Common.{nat_eq, ℕ, ◌≤◌, ◌≡◌, refl, true, false, List, [], ◌∷◌, contains}
use agent_lens_platform.Worker.{StreamMessage, other}
use agent_lens_platform.Worker.Batch.{decided, run_handler, process_batch}
use agent_lens_platform.Worker.Batch.Safety.{
  process_batch_keeps_pending, dead_letter_lost, verdict_of,
}
use agent_lens_platform.Worker.Batch.Retries.{run_handler_calls}
use agent_lens_platform.Worker.Parse.{Attempt, event_of, failed_by, ParsesTo, parse, parse-ParsesTo}
use agent_lens_platform.Worker.{no_outcome}
use agent_lens_platform.Tests.Fake.{
  fake, message, outcome, start, cfg, idle, boom, pending_laws, count_laws, loss_laws,
}

abbrev batch : List StreamMessage
batch = message 1 ∷ message 2 ∷ message 3 ∷ []

retried : verdict_of fake cfg batch (start false) ≡ decided outcome
unfolding run_handler
retried = refl

process_batch_keeps_pending_example :
    (process_batch fake cfg batch (idle, start false)).1.pending 2 ≡ true
unfolding run_handler
process_batch_keeps_pending_example =
    process_batch_keeps_pending fake cfg (λ w. w.pending) pending_laws batch idle (start false) 2
      refl

dead_letter_lost_example :
    let w = (process_batch fake cfg batch (idle, start true)).1 in
    (w.pending 3 ≡ false) × (w.recorded 3 ≡ false)
unfolding run_handler
dead_letter_lost_example =
    dead_letter_lost fake cfg (λ w. w.pending) (λ w. w.recorded) loss_laws batch outcome idle
      (start true) (record (start true) { calls = 2 }) 3 {e = other boom} refl refl refl refl

run_handler_calls_example :
    let w' = (run_handler fake cfg 3 batch (start false)).1 in (1 ≤ w'.calls) × (w'.calls ≤ 4)
run_handler_calls_example =
    run_handler_calls fake cfg (λ w. w.calls) count_laws 3 batch (start false)

abbrev parse_number : StreamMessage → Attempt ℕ
parse_number m = elim (contains (1 ∷ 3 ∷ []) m.message_id) [
  | true ↦ event_of m.message_id
  | false ↦ failed_by boom
]

parse-ParsesTo_example : ParsesTo parse_number batch ([], no_outcome) (parse parse_number batch)
parse-ParsesTo_example = parse-ParsesTo parse_number batch
