-- ===== src/EvalScorer/Flush.antt =====
-- The buffer of packages/obs-platform/src/obs_platform/workers/eval_scorer.py: `process`, `_flush`,
-- `_maybe_flush` and `teardown`.
use agent_lens_platform.Common.{
  ℕ, ◌+◌, Bool, true, false, not, ◌&&◌, ◌||◌, List, [], ◌∷◌, ◌++◌, filter, any, length, leb, min,
  is_empty, ◌==◌, if◌then◌else◌, contains, nat_eq,
}
use agent_lens_platform.Event.{EventType, trace_start, trace_end, span_start, span_end, ObsEvent}
use agent_lens_platform.Sampling.{should_sample}
use agent_lens_platform.Worker.{StreamMessage, Result, ok, err, BatchOutcome}
use agent_lens_platform.Worker.Parse.{ParsedMessage, Attempt, parse}
use agent_lens_platform.EvalScorer.{
  Buffered, ids, TraceRow, SpanRow, EvalSample, Settings, Services, score_tenant,
}

-- The fields of `EvalScorer` that its methods change. A set is the list of its members.
pub record Scorer : Type 0 where
  pub buffer : List Buffered
  pub buffered_ids : List ℕ
  pub last_flush : ℕ

-- `_READY_POLL_SECONDS`
abbrev pub ready_poll : ℕ
ready_poll = 1000

-- `event.type is EventType.TRACE_END`
abbrev pub completes : EventType → Bool
completes trace_end = true
completes trace_start = false
completes span_start = false
completes span_end = false

-- `set.discard`
unfoldable pub discard : ℕ → List ℕ → List ℕ
discard i = filter (λ j. not (j == i))

unfoldable pub discard_all : List ℕ → List ℕ → List ℕ
unfolding discard
discard_all [] held = held
discard_all (i ∷ is) held = discard_all is (discard i held)

-- `entry.attempts += 1`
abbrev pub bump : Buffered → Buffered
bump b = record b { attempts = b.attempts + 1 }

abbrev pub Groups : Type 0
Groups = List (ℕ × List Buffered)

-- `by_tenant.setdefault(entry.tenant_id, []).append(entry)`
unfoldable pub add_entry : Buffered → Groups → Groups
add_entry b [] = (b.tenant_id, b ∷ []) ∷ []
add_entry b ((tenant, entries) ∷ groups) =
    if tenant == b.tenant_id
    then (tenant, entries ++ b ∷ []) ∷ groups
    else (tenant, entries) ∷ add_entry b groups

unfoldable pub group_from : List Buffered → Groups → Groups
unfolding add_entry
group_from [] groups = groups
group_from (b ∷ batch) groups = group_from batch (add_entry (bump b) groups)

-- What the loop over the tenants changes.
pub record Progress : Type 0 where
  pub acked : List ℕ
  pub buffer : List Buffered
  pub held : List ℕ

-- How one tenant's slice ends: with an answer, or by an exception that is logged.
unfoldable pub settle_tenant : List Buffered → Result (List ℕ × List Buffered) → Progress → Progress
unfolding discard_all
settle_tenant entries (ok (done, deferred)) p = record p {
  acked = p.acked ++ done;
  buffer = p.buffer ++ deferred;
}
settle_tenant entries (err _) p = record p { held = discard_all (ids entries) p.held }

module _ {Trace Span Texts Run : Type 0} (sv : Services Trace Span Texts Run)
    (build_sample : TraceRow Trace → List (SpanRow Span) → EvalSample Texts) (cfg : Settings) where
  unfoldable pub score_groups : Groups → Progress → sv.World → Progress × sv.World
  unfolding settle_tenant
  score_groups [] p w = (p, w)
  score_groups ((tenant, entries) ∷ groups) p w =
      let (r, w') = score_tenant sv build_sample cfg tenant entries w in
      score_groups groups (settle_tenant entries r p) w'

  -- `_flush` once the buffer is taken
  unfoldable pub flush_batch : List Buffered → Scorer → sv.World → (List ℕ × Scorer) × sv.World
  unfolding score_groups group_from discard_all
  flush_batch [] s w = (([], s), w)
  flush_batch (b ∷ batch) s w =
      let start : Progress = record { acked = []; buffer = []; held = s.buffered_ids } in
      let (p, w') = score_groups (group_from (b ∷ batch) []) start w in
      let s' : Scorer = record {
        buffer = p.buffer;
        buffered_ids = discard_all p.acked p.held;
        last_flush = sv.monotonic w;
      } in
      ((p.acked, s'), w')

  -- `_flush`: the ids that are safe to ack
  unfoldable pub flush : Scorer → sv.World → (List ℕ × Scorer) × sv.World
  unfolding flush_batch
  flush s w = flush_batch s.buffer s w

  -- `xack` and its handler: a failure is logged
  abbrev pub acknowledge : List ℕ → sv.World → sv.World
  acknowledge [] w = w
  acknowledge (i ∷ acked) w = (sv.xack (i ∷ acked) w).1

  abbrev pub flush_and_ack : Scorer → sv.World → Scorer × sv.World
  flush_and_ack s w = let ((acked, s'), w') = flush s w in (s', acknowledge acked w')

  abbrev pub interval : List Buffered → ℕ
  interval buffer =
      if any (λ b. not (b.attempts == 0)) buffer
      then min cfg.eval_batch_interval ready_poll
      else cfg.eval_batch_interval

  unfoldable pub is_due : Scorer → sv.World → Bool
  is_due s w =
      leb cfg.eval_batch_size (length s.buffer)
      || leb (s.last_flush + interval s.buffer) (sv.monotonic w)

  unfoldable pub maybe_flush : Scorer → sv.World → Scorer × sv.World
  unfolding is_due flush
  maybe_flush s w =
      if is_empty s.buffer
      then (record s { last_flush = sv.monotonic w }, w)
      else if is_due s w
      then flush_and_ack s w
      else (s, w)

  unfoldable pub teardown : Scorer → sv.World → Scorer × sv.World
  unfolding flush
  teardown s w = if is_empty s.buffer then (s, w) else flush_and_ack s w

  module _ (digest : ℕ → ℕ → ℕ) (no_salt : ℕ) where
    -- Whether the event of a message is to be graded.
    abbrev pub wanted : ObsEvent → Bool
    wanted e =
        completes e.type
        && (cfg.evals_enabled && should_sample digest e.trace_id cfg.eval_sample_rate no_salt)

    abbrev pub buffered_at : ℕ → ParsedMessage ObsEvent → Buffered
    buffered_at now item = record {
      message_id = item.message.message_id;
      trace_id = item.event.trace_id;
      tenant_id = item.event.tenant_id;
      first_seen = now;
      attempts = 0;
    }

    -- The loop of `process`.
    unfoldable pub take_item :
        ℕ → ParsedMessage ObsEvent → Scorer × BatchOutcome → Scorer × BatchOutcome
    take_item now item (s, outcome) =
        if not (wanted item.event)
        then (s, record outcome { ack = outcome.ack ++ item.message.message_id ∷ [] })
        else if contains s.buffered_ids item.message.message_id
        then (s, outcome)
        else (
          record s {
            buffer = s.buffer ++ buffered_at now item ∷ [];
            buffered_ids = item.message.message_id ∷ s.buffered_ids;
          },
          outcome,
        )

    unfoldable pub take_items :
        ℕ → List (ParsedMessage ObsEvent) → Scorer × BatchOutcome → Scorer × BatchOutcome
    unfolding take_item
    take_items now [] acc = acc
    take_items now (item ∷ items) acc = take_items now items (take_item now item acc)

    unfoldable pub process :
        (StreamMessage → Attempt ObsEvent)
        → List StreamMessage
        → Scorer
        → sv.World
        → (BatchOutcome × Scorer) × sv.World
    unfolding take_items flush
    process parse_event messages s w =
        let (items, outcome) = parse parse_event messages in
        let (s', outcome') = take_items (sv.monotonic w) items (s, outcome) in
        let ((acked, s''), w') = flush s' w in
        if not (is_empty items) && leb cfg.eval_batch_size (length s'.buffer)
        then ((record outcome' { ack = outcome'.ack ++ acked }, s''), w')
        else ((outcome', s'), w)
