-- ===== src/Publisher/Steps.antt =====
-- The interleavings of packages/obs-sdk/src/obs_sdk/publisher.py: the steps of the traced program and of
-- the drain thread, and what holds in each state that they reach.
pub mod Interleaved
pub mod Flush
use agent_lens_platform.Common.{
  ℕ, ◌+◌, ◌≤◌, ◌<◌, ◌≡◌, ◌⊎◌, String, Bool, true, false, List, [], ◌∷◌, ◌++◌, length, is_empty,
}
use agent_lens_platform.Publisher.{
  Config, Phase, draining, connecting, refused, unconnected, sending, delivered, stamping, failed,
  noting, clearing_sent, clearing_unsent, clearing_failed, closing, backing_off, Publisher, fresh,
  put_nowait, put_raised, count_queued, count_full, count_error, note_error, get_one, begin_send,
  reuse_client, connected, connect_failed, note_refused, executed, execute_raised, count_published,
  stamp, count_dropped, note_failed, clear_sent, clear_unsent, drop_client, back_off,
}

-- What of a batch of the given length is not counted yet.
abbrev pub waiting : Phase → ℕ → ℕ
waiting draining n = n
waiting connecting n = n
waiting refused n = n
waiting unconnected n = n
waiting sending n = n
waiting delivered n = n
waiting stamping n = 0
waiting failed n = n
waiting noting n = 0
waiting clearing_sent n = 0
waiting clearing_unsent n = 0
waiting clearing_failed n = 0
waiting closing n = 0
waiting backing_off n = 0

-- What `_in_flight` is for a batch of the given length.
abbrev pub flying : Phase → ℕ → ℕ
flying draining n = 0
flying connecting n = n
flying refused n = n
flying unconnected n = n
flying sending n = n
flying delivered n = n
flying stamping n = n
flying failed n = n
flying noting n = n
flying clearing_sent n = n
flying clearing_unsent n = n
flying clearing_failed n = n
flying closing n = 0
flying backing_off n = 0

module _ {Event : Type 0} where
  -- The batch, as long as it is not written or dropped.
  abbrev pub held : Phase → List Event → List Event
  held draining batch = batch
  held connecting batch = batch
  held refused batch = batch
  held unconnected batch = batch
  held sending batch = batch
  held delivered batch = []
  held stamping batch = []
  held failed batch = batch
  held noting batch = []
  held clearing_sent batch = []
  held clearing_unsent batch = []
  held clearing_failed batch = []
  held closing batch = []
  held backing_off batch = []

module _ {Event : Type 0} (cfg : Config) where
  -- One step of a call of `publish` or of the drain thread, with what the source tests before it.
  pub data Step : Publisher Event → Publisher Event → Type 0 where
    put : (event : Event) (s : Publisher Event) → Step s (put_nowait cfg event s)
    raised_other : (s : Publisher Event) → Step s (put_raised s)
    counted_queued : (s : Publisher Event) → 0 < s.callers.taken → Step s (count_queued s)
    counted_full : (s : Publisher Event) → 0 < s.callers.turned_away → Step s (count_full s)
    counted_error : (s : Publisher Event) → 0 < s.callers.raised → Step s (count_error s)
    noted_error :
        (error : String) (s : Publisher Event)
        → 0 < s.callers.noting_error
        → Step s (note_error error s)
    got :
        (event : Event) (queue : List Event) (s : Publisher Event)
        → s.phase ≡ draining
        → length s.batch < cfg.batch_size
        → s.queue ≡ event ∷ queue
        → Step s (get_one event queue s)
    began :
        (s : Publisher Event)
        → s.phase ≡ draining
        → is_empty s.batch ≡ false
        → Step s (begin_send s)
    reused_client :
        (s : Publisher Event) → s.phase ≡ connecting → s.has_client ≡ true → Step s (reuse_client s)
    has_connected :
        (s : Publisher Event) → s.phase ≡ connecting → s.has_client ≡ false → Step s (connected s)
    is_refused :
        (s : Publisher Event)
        → s.phase ≡ connecting
        → s.has_client ≡ false
        → Step s (connect_failed s)
    noted_refused :
        (error : String) (s : Publisher Event) → s.phase ≡ refused → Step s (note_refused error s)
    dropped_unsent :
        (s : Publisher Event) → s.phase ≡ unconnected → Step s (count_dropped clearing_unsent s)
    cleared_unsent :
        (s : Publisher Event) → s.phase ≡ clearing_unsent → Step s (clear_unsent backing_off s)
    has_executed : (s : Publisher Event) → s.phase ≡ sending → Step s (executed s)
    has_raised : (s : Publisher Event) → s.phase ≡ sending → Step s (execute_raised s)
    counted_published : (s : Publisher Event) → s.phase ≡ delivered → Step s (count_published s)
    stamped : (now : ℕ) (s : Publisher Event) → s.phase ≡ stamping → Step s (stamp now s)
    cleared_sent : (s : Publisher Event) → s.phase ≡ clearing_sent → Step s (clear_sent s)
    dropped_failed : (s : Publisher Event) → s.phase ≡ failed → Step s (count_dropped noting s)
    noted_failed :
        (error : String) (s : Publisher Event) → s.phase ≡ noting → Step s (note_failed error s)
    cleared_failed :
        (s : Publisher Event) → s.phase ≡ clearing_failed → Step s (clear_unsent closing s)
    closed_client : (s : Publisher Event) → s.phase ≡ closing → Step s (drop_client s)
    backed_off : (s : Publisher Event) → s.phase ≡ backing_off → Step s (back_off cfg s)

  pub data Reach : Publisher Event → Type 0 where
    begun : (has_client : Bool) → Reach (fresh has_client)
    moved : (s s' : Publisher Event) → Reach s → Step s s' → Reach s'

  -- What holds of a publisher whose drain thread stands at the phase.
  pub record Sound (phase : Phase) (s : Publisher Event) : Type 0 where
    pub counted :
        s.stats.queued + s.callers.taken + s.errors
        ≡ length s.queue
          + waiting phase (length s.batch)
          + s.stats.published
          + s.stats.dropped_error
    pub batch_fits : length s.batch ≤ cfg.batch_size
    pub queue_fits : (cfg.queue_size ≡ 0) ⊎ (length s.queue ≤ cfg.queue_size)
    pub flies : s.in_flight ≡ flying phase (length s.batch)
    pub in_order :
        s.stats.dropped_error ≡ 0 → s.accepted ≡ s.written ++ (held phase s.batch ++ s.queue)

  abbrev pub IsSound : Publisher Event → Type 0
  IsSound s = Sound s.phase s
