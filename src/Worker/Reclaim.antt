-- ===== src/Worker/Reclaim.antt =====
-- `_reclaim_pending` of packages/obs-platform/src/obs_platform/workers/base.py.
pub mod Delivered
use agent_lens_platform.Common.{
  ℕ, ◌-◌, Bool, true, false, List, [], ◌∷◌, ◌++◌, ltb, leb, ◌==◌, if◌then◌else◌, get_or, nat_eq,
}
use agent_lens_platform.Worker.{
  StreamMessage, no_group, response, Result, ok, err, Consumer, Settings, Pending, RawEntry,
  Services,
}
use agent_lens_platform.Worker.DeadLetters.{last_of, ids_of, dead_letter_ids}
use agent_lens_platform.Worker.Parse.{flatten_entries}

-- The loop that sorts an `XPENDING` reply: ids with their delivery counts.
abbrev pub Counts : Type 0
Counts = List (ℕ × ℕ)

-- `int(entry.get("times_delivered") or 1)`
abbrev pub delivered : Pending → ℕ
delivered e = if e.times_delivered == 0 then 1 else e.times_delivered

-- the two tests, in the order of the source
abbrev pub sort_one : Bool → Bool → ℕ × ℕ → Counts × Counts → Counts × Counts
sort_one true _ p (poison, claimable) = (poison ++ p ∷ [], claimable)
sort_one false true p (poison, claimable) = (poison, claimable ++ p ∷ [])
sort_one false false p acc = acc

abbrev pub classify_one : Settings → Pending → Counts × Counts → Counts × Counts
classify_one cfg e =
    sort_one (ltb cfg.max_delivery_attempts (delivered e)) (leb cfg.claim_min_idle e.idle_ms)
      (e.message_id, delivered e)

unfoldable pub classify_from : Settings → Counts × Counts → List Pending → Counts × Counts
classify_from cfg acc [] = acc
classify_from cfg acc (e ∷ es) = classify_from cfg (classify_one cfg e acc) es

unfoldable pub classify : Settings → List Pending → Counts × Counts
unfolding classify_from
classify cfg = classify_from cfg ([], [])

-- `message.delivery_count = counts.get(message.message_id, 1)`
unfoldable pub with_counts : Counts → List StreamMessage → List StreamMessage
unfolding last_of
with_counts counts [] = []
with_counts counts (m ∷ ms) =
    record m { delivery_count = get_or (last_of m.message_id counts) 1 } ∷ with_counts counts ms

abbrev pub ensured : Result (Unit {0}) → Result (List StreamMessage)
ensured (ok _) = ok []
ensured (err e) = err e

abbrev pub claimed : Counts → Result (List RawEntry) → Result (List StreamMessage)
claimed counts (ok entries) = ok (with_counts counts (flatten_entries entries))
claimed counts (err e) = err e

module _ (sv : Services) (cfg : Settings) where
  -- `if not claimable: return []`, and the claim
  unfoldable pub claim :
      Counts → Consumer × sv.World → Result (List StreamMessage) × Consumer × sv.World
  unfolding with_counts flatten_entries
  claim [] (c, w) = (ok [], c, w)
  claim (p ∷ claimable) (c, w) =
      let (r, w') = sv.xclaim cfg.claim_min_idle (ids_of (p ∷ claimable)) w in
      (claimed (p ∷ claimable) r, c, w')

  abbrev pub drop_poison : Counts → Consumer × sv.World → Consumer × sv.World
  drop_poison [] s = s
  drop_poison (p ∷ poison) s = dead_letter_ids sv cfg (p ∷ poison) s

  -- What follows the `XPENDING` call.
  unfoldable pub sort_pending :
      Result (List Pending)
      → Consumer × sv.World
      → Result (List StreamMessage) × Consumer × sv.World
  unfolding classify claim
  sort_pending (ok []) (c, w) = (ok [], c, w)
  sort_pending (ok (e ∷ es)) s =
      let (poison, claimable) = classify cfg (e ∷ es) in claim claimable (drop_poison poison s)
  sort_pending (err (no_group _)) (c, w) = let (r, w') = sv.ensure_group w in (ensured r, c, w')
  sort_pending (err (response f)) (c, w) = (err (response f), c, w)
  sort_pending (err _) (c, w) = (ok [], record c { claim_supported = false }, w)

  unfoldable pub reclaim_pending :
      Consumer × sv.World → Result (List StreamMessage) × Consumer × sv.World
  unfolding sort_pending
  reclaim_pending (c, w) =
      let now = sv.monotonic w in
      let c' = record c { last_claim_at = now } in
      let (r, w') = sv.xpending_range cfg.batch_size w in
      if ltb (now - c.last_claim_at) cfg.claim_interval
      then (ok [], c, w)
      else if c.claim_supported
      then sort_pending r (c', w')
      else (ok [], c', w)
