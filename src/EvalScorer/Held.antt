-- ===== src/EvalScorer/Held.antt =====
-- The held set of packages/obs-platform/src/obs_platform/workers/eval_scorer.py, `_buffered_ids`,
-- over a flush.
use agent_lens_platform.Common.{
  nat_eq, ℕ, ◌+◌, ◌≤◌, ◌≡◌, refl, false, List, [], ◌∷◌, inl, inr, arith, Bool-cases, ◌==◌,
  if◌then◌else◌, contains,
}
use agent_lens_platform.Worker.{Result, ok, err}
use agent_lens_platform.EvalScorer.{
  Buffered, ids, TraceRow, SpanRow, EvalSample, Settings, Services, score_tenant,
}
use agent_lens_platform.EvalScorer.Flush.{
  Scorer, discard, discard_all, bump, Groups, add_entry, group_from, Progress, settle_tenant,
  score_groups, flush_batch, flush,
}
use agent_lens_platform.EvalScorer.Split.{
  count, count-append, count-ids-append, member, member-count-le, count-member, Returns, Splits,
  score_tenant-Splits,
}

discard-contains :
    (i j : ℕ) (held : List ℕ)
    → contains (discard j held) i ≡ (if j == i then false else contains held i)
unfolding discard
discard-contains i j [] = ground arith
discard-contains i j (x ∷ held) = ground (arith, discard-contains i j held)

-- An id that is discarded is no member, the others stay as they are.
member-discard_all :
    (i : ℕ) (gone held : List ℕ)
    → member i (discard_all gone held) ≡ (if contains gone i then 0 else member i held)
unfolding discard_all
member-discard_all i [] held = refl
member-discard_all i (j ∷ gone) held =
    ground (arith, member-discard_all i gone (discard j held), discard-contains i j held)

-- How often an id stands in the slices of all tenants.
abbrev pub total : ℕ → Groups → ℕ
total i [] = 0
total i ((_, entries) ∷ groups) = count i (ids entries) + total i groups

total-add_entry :
    (i : ℕ) (b : Buffered) (groups : Groups)
    → total i (add_entry b groups) ≡ total i groups + count i (b.message_id ∷ [])
unfolding add_entry
total-add_entry i b [] = ground arith
total-add_entry i b ((tenant, entries) ∷ groups) =
    ground (arith, total-add_entry i b groups, count-ids-append i entries (b ∷ []))

total-group_from :
    (i : ℕ) (batch : List Buffered) (groups : Groups)
    → total i (group_from batch groups) ≡ total i groups + count i (ids batch)
unfolding group_from
total-group_from i [] groups = omega arith
total-group_from i (b ∷ batch) groups =
    ground (
      arith,
      total-group_from i batch (add_entry (bump b) groups),
      total-add_entry i (bump b) groups,
    )

member-le : (i : ℕ) (xs : List ℕ) → member i xs ≤ 1
member-le i xs = ground arith

-- Each held id is in one place: the new buffer, a slice that is still to score, or the acked ids;
-- `most` bounds how many there are.
abbrev pub Placed : ℕ → ℕ → Progress → Groups → Type 0
Placed i most p groups =
    (count i (ids p.buffer) + total i groups + count i p.acked ≡ member i p.held)
    × (member i p.held ≤ most)

settle_tenant-Placed :
    (i most tenant : ℕ) (entries : List Buffered) (groups : Groups) (p : Progress)
    (r : Result (List ℕ × List Buffered))
    → Returns (Splits i entries) r
    → Placed i most p ((tenant, entries) ∷ groups)
    → Placed i most (settle_tenant entries r p) groups
unfolding settle_tenant
settle_tenant-Placed i most tenant entries groups p (ok (done, deferred)) split (h, le) =
    (omega (arith, count-append i p.acked done, count-ids-append i p.buffer deferred), le)
settle_tenant-Placed i most tenant entries groups p (err _) split (h, le) =
    elim (Bool-cases (contains (ids entries) i)) [
      | inl there ↦ ground (
        arith,
        member-discard_all i (ids entries) p.held,
        member-count-le i (ids entries),
        member-le i p.held,
      )
      | inr gone ↦
          ground
            (arith, member-discard_all i (ids entries) p.held, count-member i (ids entries) gone)
    ]

-- The held ids are the ids of the buffer, each of which stands in it once.
abbrev pub IsHeld : Scorer → Type 0
IsHeld s = (i : ℕ) → count i (ids s.buffer) ≡ member i s.buffered_ids

-- What a flush leaves of an id that stood `most` times in the buffer.
abbrev pub Flushed : ℕ → ℕ → List ℕ × Scorer → Type 0
Flushed i most (acked, s) =
    (count i (ids s.buffer) ≡ member i s.buffered_ids)
    × (count i acked + count i (ids s.buffer) ≤ most)

Placed-Flushed :
    (i most last : ℕ) (p : Progress)
    → Placed i most p []
    → Flushed i most (
      p.acked,
      record { buffer = p.buffer; buffered_ids = discard_all p.acked p.held; last_flush = last },
    )
Placed-Flushed i most last p (h, le) = elim (Bool-cases (contains p.acked i)) [
  | inl there ↦ (
    ground
        (arith, member-discard_all i p.acked p.held, member-count-le i p.acked, member-le i p.held),
    omega arith,
  )
  | inr gone ↦ (
    ground (arith, member-discard_all i p.acked p.held, count-member i p.acked gone),
    omega arith,
  )
]

module _ {Trace Span Texts Run : Type 0} (sv : Services Trace Span Texts Run)
    (build_sample : TraceRow Trace → List (SpanRow Span) → EvalSample Texts) (cfg : Settings) where
  score_groups-Placed :
      (i most : ℕ) (groups : Groups) (p : Progress) (w : sv.World)
      → Placed i most p groups
      → Placed i most (score_groups sv build_sample cfg groups p w).0 []
  unfolding score_groups
  score_groups-Placed i most [] p w h = h
  score_groups-Placed i most ((tenant, entries) ∷ groups) p w h =
      let once : count i (ids entries) ≤ 1 = omega (arith, member-le i p.held, h.0) in
      let step = score_tenant sv build_sample cfg tenant entries w in
      score_groups-Placed i most groups (settle_tenant entries step.0 p) step.1 (
        settle_tenant-Placed i most tenant entries groups p step.0
          (score_tenant-Splits sv build_sample cfg i tenant entries w once) h)

  flush_batch-Flushed :
      (i : ℕ) (batch : List Buffered) (s : Scorer) (w : sv.World)
      → s.buffer ≡ batch
      → count i (ids s.buffer) ≡ member i s.buffered_ids
      → Flushed i (count i (ids s.buffer)) (flush_batch sv build_sample cfg batch s w).0
  unfolding flush_batch
  flush_batch-Flushed i [] s w e h = (h, omega arith)
  flush_batch-Flushed i (b ∷ batch) s w e h =
      let same : count i (ids s.buffer) ≡ count i (ids (b ∷ batch)) = rw e in
      let start : Progress = record { acked = []; buffer = []; held = s.buffered_ids } in
      let groups = group_from (b ∷ batch) [] in
      Placed-Flushed i (count i (ids s.buffer)) (sv.monotonic w) _ (
        score_groups-Placed i (count i (ids s.buffer)) groups start w
          (omega (arith, total-group_from i (b ∷ batch) []), omega arith))

  flush-Flushed :
      (i : ℕ) (s : Scorer) (w : sv.World)
      → count i (ids s.buffer) ≡ member i s.buffered_ids
      → Flushed i (count i (ids s.buffer)) (flush sv build_sample cfg s w).0
  unfolding flush
  flush-Flushed i s w h = flush_batch-Flushed i s.buffer s w refl h

  -- Of a scorer whose held ids are those of its buffer, a flush leaves such a scorer, whatever the
  -- database and the judge do; and no id is acked and buffered more often in all than it was
  -- buffered before.
  pub flush-IsHeld :
      (s : Scorer) (w : sv.World)
      → IsHeld s
      → let (acked, s') = (flush sv build_sample cfg s w).0 in
        IsHeld s' × ((i : ℕ) → count i acked + count i (ids s'.buffer) ≤ count i (ids s.buffer))
  flush-IsHeld s w h = (λ i. (flush-Flushed i s w (h i)).0, λ i. (flush-Flushed i s w (h i)).1)
