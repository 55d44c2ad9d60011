-- ===== src/Worker/Tick.antt =====
-- `_read_new`, `_tick` and one round of the loop of `run` in
-- packages/obs-platform/src/obs_platform/workers/base.py.
use agent_lens_platform.Common.{some, List, [], ◌∷◌}
use agent_lens_platform.Worker.{
  StreamMessage, no_group, failure, Result, ok, err, Consumer, Settings, RawStream, Services,
}
use agent_lens_platform.Worker.Parse.{flatten}
use agent_lens_platform.Worker.Reclaim.{ensured, reclaim_pending}
use agent_lens_platform.Worker.Batch.{process_batch}

module _ (sv : Services) (cfg : Settings) where
  -- What follows the `XREADGROUP` call.
  abbrev read_reply : Result (List RawStream) → sv.World → Result (List StreamMessage) × sv.World
  read_reply (ok streams) w = (ok (flatten streams), w)
  read_reply (err (no_group _)) w = let (r, w') = sv.ensure_group w in (ensured r, w')
  read_reply (err e) w = (err e, w)

  unfoldable pub read_new : sv.World → Result (List StreamMessage) × sv.World
  unfolding flatten
  read_new w = let (r, w') = sv.xreadgroup cfg.batch_size w in read_reply r w'

  abbrev batch_or_idle :
      Result (List StreamMessage) → Consumer × sv.World → Result (Unit {0}) × Consumer × sv.World
  batch_or_idle (ok []) (c, w) = (ok tt, c, sv.sleep w)
  batch_or_idle (ok (m ∷ ms)) s = let (c, w) = process_batch sv cfg (m ∷ ms) s in (ok tt, c, w)
  batch_or_idle (err e) (c, w) = (err e, c, w)

  abbrev read_if_none :
      Result (List StreamMessage) → Consumer × sv.World → Result (Unit {0}) × Consumer × sv.World
  read_if_none (ok []) (c, w) = let (r, w') = read_new w in batch_or_idle r (c, w')
  read_if_none r s = batch_or_idle r s

  unfoldable pub tick : Consumer × sv.World → Result (Unit {0}) × Consumer × sv.World
  unfolding read_new
  tick s = let (r, c, w) = reclaim_pending sv cfg s in read_if_none r (c, w)

  abbrev after_tick : Result (Unit {0}) → Consumer × sv.World → Consumer × sv.World
  after_tick (ok _) s = s
  after_tick (err e) (c, w) =
      (record c { stats = record c.stats { last_error = some (failure e).error_repr } }, sv.sleep w)

  -- One round of `while not self._stop.is_set()`: a tick that raises is recorded and backed off.
  unfoldable pub round : Consumer × sv.World → Consumer × sv.World
  unfolding tick
  round s = let (r, c, w) = tick s in after_tick r (c, w)
