-- ===== src/Tests/Reclaim.antt =====
-- Witness for the reclaim of `workers/base.py`: message 4 is poison, 5 is claimed, 6 is too fresh.
use agent_lens_platform.Common.{
  ℕ, ◌≡◌, refl, Bool, true, false, List, [], ◌∷◌, contains, nat_eq, if◌then◌else◌,
}
use agent_lens_platform.Worker.{ok, entry, deleted}
use agent_lens_platform.Worker.DeadLetters.{dead_letter_ids}
use agent_lens_platform.Worker.Reclaim.{reclaim_pending}
use agent_lens_platform.Worker.Reclaim.Delivered.{
  AllRequested, ClaimLaws, Delivered, entries_of, reclaim_pending-Delivered,
}
use agent_lens_platform.Tests.Fake.{fake, start, cfg, idle}

reclaimed :
    (reclaim_pending fake cfg (idle, start false)).0
    ≡ ok (record { message_id = 5; fields = ("data", "{}") ∷ []; delivery_count = 2 } ∷ [])
unfolding reclaim_pending
reclaimed = refl

poison_acked : (reclaim_pending fake cfg (idle, start false)).2.pending 4 ≡ false
unfolding reclaim_pending dead_letter_ids
poison_acked = refl

asked-one :
    (is : List ℕ) (b : Bool)
    → contains is 5 ≡ b
    → AllRequested is (ok (if b then entry 5 (("data", "{}") ∷ []) ∷ deleted 6 ∷ [] else []))
asked-one is true h = (h, (tt, tt))
asked-one is false h = tt

fake_claims : ClaimLaws fake
fake_claims = record { xclaim_requested = λ idle is w. asked-one is (contains is 5) refl }

reclaim_pending-Delivered_example :
    Delivered cfg
      (entries_of (fake.xpending_range cfg.batch_size (start false)).0)
      (reclaim_pending fake cfg (idle, start false)).0
reclaim_pending-Delivered_example =
    reclaim_pending-Delivered fake fake_claims cfg idle (start false)
