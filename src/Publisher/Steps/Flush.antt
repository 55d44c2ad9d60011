-- ===== src/Publisher/Steps/Flush.antt =====
-- `flush` of packages/obs-sdk/src/obs_sdk/publisher.py while the drain thread fills its batch.
use mathlib.Core.Path.{subst}
use agent_lens_platform.Common.{◌<◌, ◌≡◌, refl, Bool, true, false, [], ◌∷◌, arith}
use agent_lens_platform.Publisher.{
  Config, Publisher, fresh, is_full, put_nowait, count_queued, flushed, get_one, no_callers,
}
use agent_lens_platform.Publisher.Steps.{Step, put, counted_queued, got, Reach, begun, moved}

module _ {Event : Type 0} (cfg : Config) where
  -- A publisher that has taken its first event.
  abbrev put_one : Event → Bool → Publisher Event
  put_one event has_client = record (fresh has_client) {
    queue = event ∷ [];
    accepted = event ∷ [];
    callers = record no_callers { taken = 1 };
  }

  has_put :
      (event : Event) (has_client : Bool) → Step cfg (fresh has_client) (put_one event has_client)
  unfolding put_nowait
  has_put event has_client =
      let free : is_full {Event = Event} cfg [] ≡ false = ground arith in
      let same : put_nowait cfg event (fresh has_client) ≡ put_one event has_client = rw free in
      subst (Step cfg (fresh has_client)) same (put event (fresh has_client))

  -- Where a batch may hold an event, some interleaving reaches a publisher on which the test of
  -- `flush` is true while the drain thread holds an event that it has taken and not sent.
  pub flush_misses :
      (event : Event) (has_client : Bool)
      → 0 < cfg.batch_size
      → (s : Publisher Event) × (Reach cfg s × ((flushed s ≡ true) × (s.batch ≡ event ∷ [])))
  unfolding get_one flushed count_queued
  flush_misses event has_client some_batch =
      let s = put_one event has_client in
      let taken = moved _ s (begun has_client) (has_put event has_client) in
      let counted = moved s (count_queued s) taken (counted_queued s (omega arith)) in
      (
        get_one event [] (count_queued s),
        (
          moved (count_queued s) _ counted (got event [] (count_queued s) refl (omega arith) refl),
          (refl, refl),
        ),
      )
