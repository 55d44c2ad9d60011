-- ===== src/Publisher.antt =====
-- `RedisStreamPublisher` of packages/obs-sdk/src/obs_sdk/publisher.py: a bounded queue that the
-- traced program fills and a thread drains. The program's calls and the thread's moves interleave:
-- each function here is one access to what they share, a `+=` on a counter being one access, with what
-- the caller alone reads. Times are milliseconds; the two halves of the backoff are `0.5` seconds and
-- its cap.
pub mod Steps
use agent_lens_platform.Common.{
  ℕ, ◌+◌, ◌-◌, ◌*◌, String, Bool, true, false, ◌&&◌, Option, none, some, List, [], ◌∷◌, ◌++◌,
  length, min, leb, ltb, is_empty, ◌==◌, if◌then◌else◌,
}

-- `PublisherStats`
pub record PublisherStats : Type 0 where
  pub queued : ℕ
  pub published : ℕ
  pub dropped_queue_full : ℕ
  pub dropped_error : ℕ
  pub connect_failures : ℕ
  pub last_error : Option String
  pub last_published_at : Option ℕ

-- What of `RedisPublisherConfig` the model reads.
pub record Config : Type 0 where
  pub queue_size : ℕ
  pub batch_size : ℕ
  pub reconnect_backoff_max : ℕ

-- Where the drain thread stands: in `_drain_batch`; in `_get_client`, before and after it has counted
-- its failure and noted the error; in the writes to Redis; past a write that returned, or one that
-- raised, with the lines up to the one that clears `_in_flight` and those after it.
pub data Phase : Type 0 where
  draining connecting refused unconnected sending delivered stamping failed noting : Phase
  clearing_sent clearing_unsent clearing_failed closing backing_off : Phase

-- The calls of `publish` under way: those whose `put_nowait` returned, found the queue full or raised
-- another exception, and are not counted yet, and those that have to note their error.
pub record Callers : Type 0 where
  pub taken : ℕ
  pub turned_away : ℕ
  pub raised : ℕ
  pub noting_error : ℕ

-- The publisher; `batch` is the local of the drain thread. No code reads the last three fields:
-- `accepted` is every event that the queue took and `written` every event that Redis confirmed, both in
-- order, and `errors` counts the exceptions of `publish` that `dropped_error` counts.
pub record Publisher (Event : Type 0) : Type 0 where
  pub queue : List Event
  pub callers : Callers
  pub batch : List Event
  pub phase : Phase
  pub in_flight : ℕ
  pub has_client : Bool
  pub backoff : ℕ
  pub stats : PublisherStats
  pub accepted : List Event
  pub written : List Event
  pub errors : ℕ

abbrev pub first_backoff : ℕ
first_backoff = 500

abbrev pub no_stats : PublisherStats
no_stats = record {
  queued = 0;
  published = 0;
  dropped_queue_full = 0;
  dropped_error = 0;
  connect_failures = 0;
  last_error = none;
  last_published_at = none;
}

abbrev pub no_callers : Callers
no_callers = record { taken = 0; turned_away = 0; raised = 0; noting_error = 0 }

abbrev pub next_backoff : Config → ℕ → ℕ
next_backoff cfg backoff = min (backoff * 2) cfg.reconnect_backoff_max

module _ {Event : Type 0} where
  -- `__init__`
  abbrev pub fresh : Bool → Publisher Event
  fresh has_client = record {
    queue = [];
    callers = no_callers;
    batch = [];
    phase = draining;
    in_flight = 0;
    has_client = has_client;
    backoff = first_backoff;
    stats = no_stats;
    accepted = [];
    written = [];
    errors = 0;
  }

  -- `queue.Full`: a size of zero is no bound.
  abbrev pub is_full : Config → List Event → Bool
  is_full cfg queue = ltb 0 cfg.queue_size && leb cfg.queue_size (length queue)

  -- `put_nowait`, which returns or raises `queue.Full`
  unfoldable pub put_nowait : Config → Event → Publisher Event → Publisher Event
  put_nowait cfg event s =
      if is_full cfg s.queue
      then record s { callers = record s.callers { turned_away = s.callers.turned_away + 1 } }
      else record s {
        queue = s.queue ++ event ∷ [];
        accepted = s.accepted ++ event ∷ [];
        callers = record s.callers { taken = s.callers.taken + 1 };
      }

  -- `put_nowait` raises another exception.
  unfoldable pub put_raised : Publisher Event → Publisher Event
  put_raised s = record s { callers = record s.callers { raised = s.callers.raised + 1 } }

  -- `self.stats.queued += 1`
  unfoldable pub count_queued : Publisher Event → Publisher Event
  count_queued s = record s {
    stats = record s.stats { queued = s.stats.queued + 1 };
    callers = record s.callers { taken = s.callers.taken - 1 };
  }

  -- `self.stats.dropped_queue_full += 1`
  unfoldable pub count_full : Publisher Event → Publisher Event
  count_full s = record s {
    stats = record s.stats { dropped_queue_full = s.stats.dropped_queue_full + 1 };
    callers = record s.callers { turned_away = s.callers.turned_away - 1 };
  }

  -- `self.stats.dropped_error += 1` in `publish`
  unfoldable pub count_error : Publisher Event → Publisher Event
  count_error s = record s {
    stats = record s.stats { dropped_error = s.stats.dropped_error + 1 };
    callers = record s.callers {
      raised = s.callers.raised - 1;
      noting_error = s.callers.noting_error + 1;
    };
    errors = s.errors + 1;
  }

  -- `self.stats.last_error = repr(exc)` in `publish`
  unfoldable pub note_error : String → Publisher Event → Publisher Event
  note_error error s = record s {
    stats = record s.stats { last_error = some error };
    callers = record s.callers { noting_error = s.callers.noting_error - 1 };
  }

  -- A call of `publish` that nothing interrupts and whose `put_nowait` returns or raises `queue.Full`.
  unfoldable pub publish : Config → Event → Publisher Event → Bool × Publisher Event
  unfolding put_nowait count_full count_queued
  publish cfg event s =
      if is_full cfg s.queue
      then (false, count_full (put_nowait cfg event s))
      else (true, count_queued (put_nowait cfg event s))

  -- The test of `flush`, on which it returns true.
  unfoldable pub flushed : Publisher Event → Bool
  flushed s = is_empty s.queue && s.in_flight == 0

  -- One `get` of `_drain_batch`: the batch is not full.
  unfoldable pub get_one : Event → List Event → Publisher Event → Publisher Event
  get_one event queue s = record s { queue = queue; batch = s.batch ++ event ∷ [] }

  -- `self._in_flight = len(batch)`, after the test that the batch is not empty
  unfoldable pub begin_send : Publisher Event → Publisher Event
  begin_send s = record s { phase = connecting; in_flight = length s.batch }

  -- `_get_client` returns the client that is there.
  unfoldable pub reuse_client : Publisher Event → Publisher Event
  reuse_client s = record s { phase = sending }

  -- `_get_client` makes a connection.
  unfoldable pub connected : Publisher Event → Publisher Event
  connected s = record s { phase = sending; has_client = true; backoff = first_backoff }

  -- `self.stats.connect_failures += 1`, where no connection is made
  unfoldable pub connect_failed : Publisher Event → Publisher Event
  connect_failed s = record s {
    phase = refused;
    stats = record s.stats { connect_failures = s.stats.connect_failures + 1 };
  }

  -- `self.stats.last_error = repr(exc)` in `_get_client`
  unfoldable pub note_refused : String → Publisher Event → Publisher Event
  note_refused error s = record s {
    phase = unconnected;
    stats = record s.stats { last_error = some error };
  }

  -- `pipe.execute()` returns.
  unfoldable pub executed : Publisher Event → Publisher Event
  executed s = record s { phase = delivered; written = s.written ++ s.batch }

  -- The writes to Redis raise.
  unfoldable pub execute_raised : Publisher Event → Publisher Event
  execute_raised s = record s { phase = failed }

  -- `self.stats.published += len(batch)`
  unfoldable pub count_published : Publisher Event → Publisher Event
  count_published s = record s {
    phase = stamping;
    stats = record s.stats { published = s.stats.published + length s.batch };
  }

  -- `self.stats.last_published_at = time.time()`
  unfoldable pub stamp : ℕ → Publisher Event → Publisher Event
  stamp now s = record s {
    phase = clearing_sent;
    stats = record s.stats { last_published_at = some now };
  }

  -- `self.stats.dropped_error += len(batch)`, on the way to the phase
  unfoldable pub count_dropped : Phase → Publisher Event → Publisher Event
  count_dropped next s = record s {
    phase = next;
    stats = record s.stats { dropped_error = s.stats.dropped_error + length s.batch };
  }

  -- `self.stats.last_error = repr(exc)` in `_run`
  unfoldable pub note_failed : String → Publisher Event → Publisher Event
  note_failed error s = record s {
    phase = clearing_failed;
    stats = record s.stats { last_error = some error };
  }

  -- `self._in_flight = 0` after a write
  unfoldable pub clear_sent : Publisher Event → Publisher Event
  clear_sent s = record s { phase = draining; in_flight = 0; batch = [] }

  -- `self._in_flight = 0` after a failure
  unfoldable pub clear_unsent : Phase → Publisher Event → Publisher Event
  clear_unsent next s = record s { phase = next; in_flight = 0 }

  -- `_drop_client()`
  unfoldable pub drop_client : Publisher Event → Publisher Event
  drop_client s = record s { phase = backing_off; has_client = false }

  -- The backoff grows, and the loop begins again with an empty batch.
  unfoldable pub back_off : Config → Publisher Event → Publisher Event
  back_off cfg s = record s { phase = draining; backoff = next_backoff cfg s.backoff; batch = [] }
