-- ===== src/Worker/Reclaim/Delivered.antt =====
-- Which messages `_reclaim_pending` of packages/obs-platform/src/obs_platform/workers/base.py hands out.
use agent_lens_platform.Common.{
  ℕ, ◌-◌, ◌≤◌, ◌≡◌, refl, sym, Bool, true, false, List, [], ◌∷◌, arith, ltb, leb, ◌==◌, get_or, All,
  All-append, Some, Option, none, some, ==_iff, Option-cases, contains, nat_eq, Bool-cases, inl,
  inr,
}
use mathlib.Core.Path.{subst}
use agent_lens_platform.Worker.{
  StreamMessage, permanent, lock_conflict, other, no_group, response, Result, ok, err, Consumer,
  Settings, Pending, RawEntry, malformed, deleted, entry, Services,
}
use agent_lens_platform.Worker.DeadLetters.{last_of, ids_of}
use agent_lens_platform.Worker.Parse.{flatten_entries}
use agent_lens_platform.Worker.Reclaim.{
  Counts, delivered, sort_one, classify_one, classify_from, classify, with_counts, ensured, claimed,
  claim, drop_poison, sort_pending, reclaim_pending,
}

-- What Redis documents of `XCLAIM`: each message that it returns is one of those asked for.
abbrev pub Requested : List ℕ → RawEntry → Type 0
Requested ids malformed = Unit
Requested ids (deleted _) = Unit
Requested ids (entry i _) = contains ids i ≡ true

abbrev pub AllRequested : List ℕ → Result (List RawEntry) → Type 0
AllRequested ids (ok es) = All (Requested ids) es
AllRequested ids (err _) = Unit

pub record ClaimLaws (sv : Services) : Type 0 where
  pub xclaim_requested :
      (idle : ℕ) (ids : List ℕ) (w : sv.World) → AllRequested ids (sv.xclaim idle ids w).0

-- An entry of the `XPENDING` reply for the id, with the count, that was not delivered more often than
-- the limit and has been idle for long enough.
abbrev pub IsClaimable : Settings → ℕ × ℕ → Pending → Type 0
IsClaimable cfg p e =
    (e.message_id ≡ p.0)
    × ((delivered e ≡ p.1)
        × ((delivered e ≤ cfg.max_delivery_attempts) × (cfg.claim_min_idle ≤ e.idle_ms)))

abbrev pub HasEntry : Settings → List Pending → ℕ × ℕ → Type 0
HasEntry cfg es p = Some (IsClaimable cfg p) es

below_limit : (limit count : ℕ) → ltb limit count ≡ false → count ≤ limit
below_limit limit count h = ground arith

idle_enough : (least idle : ℕ) → leb least idle ≡ true → least ≤ idle
idle_enough least idle h = ground arith

-- What holds of each entry that passes the two tests holds of each pair that is to be claimed.
module _ (cfg : Settings) (Q : ℕ × ℕ → Type 0) where
  abbrev Passes : Pending → Type 0
  Passes e =
      delivered e ≤ cfg.max_delivery_attempts
      → cfg.claim_min_idle ≤ e.idle_ms
      → Q (e.message_id, delivered e)

  sort_one-All :
      (b b' : Bool) (p : ℕ × ℕ) (acc : Counts × Counts)
      → (b ≡ false → b' ≡ true → Q p)
      → All Q acc.1
      → All Q (sort_one b b' p acc).1
  sort_one-All true b' p acc pass h = h
  sort_one-All false true p (poison, claimable) pass h =
      All-append Q claimable (p ∷ []) h (pass refl refl, tt)
  sort_one-All false false p acc pass h = h

  classify_from-All :
      (acc : Counts × Counts) (es : List Pending)
      → All Passes es
      → All Q acc.1
      → All Q (classify_from cfg acc es).1
  unfolding classify_from
  classify_from-All acc [] pass h = h
  classify_from-All acc (e ∷ es) pass h = classify_from-All (classify_one cfg e acc) es pass.1 (
      sort_one-All (ltb cfg.max_delivery_attempts (delivered e)) (leb cfg.claim_min_idle e.idle_ms)
        (e.message_id, delivered e) acc
        (λ few idle.
          pass.0 (below_limit cfg.max_delivery_attempts (delivered e) few)
            (idle_enough cfg.claim_min_idle e.idle_ms idle))
        h)

All-later :
    (cfg : Settings) (e : Pending) (es xs : List Pending)
    → All (Passes cfg (HasEntry cfg es)) xs
    → All (Passes cfg (HasEntry cfg (e ∷ es))) xs
All-later cfg e es [] h = tt
All-later cfg e es (x ∷ xs) h = ((λ few idle. inr (h.0 few idle)), All-later cfg e es xs h.1)

All-entries : (cfg : Settings) (es : List Pending) → All (Passes cfg (HasEntry cfg es)) es
All-entries cfg [] = tt
All-entries cfg (e ∷ es) =
    ((λ few idle. inl (refl, (refl, (few, idle)))), All-later cfg e es es (All-entries cfg es))

last_of-later :
    (p : ℕ × ℕ) (counts : Counts) (i w : ℕ)
    → last_of i counts ≡ some w
    → last_of i (p ∷ counts) ≡ some w
unfolding last_of
last_of-later p counts i w e = rw e refl

last_of-first :
    (p : ℕ × ℕ) (counts : Counts) (i : ℕ)
    → last_of i counts ≡ none
    → (p.0 == i) ≡ true
    → last_of i (p ∷ counts) ≡ some p.1
unfolding last_of
last_of-first p counts i e same = rw (e, same) refl

last_of-other :
    (p : ℕ × ℕ) (counts : Counts) (i : ℕ)
    → last_of i counts ≡ none
    → (p.0 == i) ≡ false
    → last_of i (p ∷ counts) ≡ none
unfolding last_of
last_of-other p counts i e apart = rw (e, apart) refl

-- The count of an id of the list is that of one of its pairs.
module _ (Q : ℕ × ℕ → Type 0) (i : ℕ) where
  abbrev pub Counted : Option ℕ → Type 0
  Counted none = Unit
  Counted (some n) = Q (i, n)

  last_of-Counted : (counts : Counts) → All Q counts → Counted (last_of i counts)
  unfolding last_of
  last_of-Counted [] h = tt
  last_of-Counted (p ∷ counts) h = elim (Option-cases (last_of i counts)) [
    | inr (w, e) ↦
        subst Counted (sym (last_of-later p counts i w e))
          (subst Counted e (last_of-Counted counts h.1))
    | inl e ↦ elim (Bool-cases (p.0 == i)) [
      | inl same ↦
          subst Counted (sym (last_of-first p counts i e same))
            (subst (λ j. Q (j, p.1)) ((==_iff p.0 i).0 same) h.0)
      | inr apart ↦ subst Counted (sym (last_of-other p counts i e apart)) tt
    ]
  ]

  last_of-listed :
      (counts : Counts) → contains (ids_of counts) i ≡ true → (n : ℕ) × (last_of i counts ≡ some n)
  last_of-listed [] c = cc
  last_of-listed (p ∷ counts) c = elim (Option-cases (last_of i counts)) [
    | inr (w, e) ↦ (w, last_of-later p counts i w e)
    | inl e ↦ elim (Bool-cases (p.0 == i)) [
      | inl same ↦ (p.1, last_of-first p counts i e same)
      | inr apart ↦
          let rest : contains (ids_of counts) i ≡ true = ground arith in
          cc (last_of-listed counts rest).1
    ]
  ]

  last_of-All :
      (counts : Counts)
      → All Q counts
      → contains (ids_of counts) i ≡ true
      → Q (i, get_or (last_of i counts) 1)
  last_of-All counts h c =
      let (n, e) = last_of-listed counts c in rw e (subst Counted e (last_of-Counted counts h))

-- Every message stands in the reply, with its count, and passes the two tests.
abbrev pub Delivered : Settings → List Pending → Result (List StreamMessage) → Type 0
Delivered cfg es (ok ms) = All (λ m. HasEntry cfg es (m.message_id, m.delivery_count)) ms
Delivered cfg es (err _) = Unit

-- The entries of a reply; an error has none.
abbrev pub entries_of : Result (List Pending) → List Pending
entries_of (ok es) = es
entries_of (err _) = []

with_counts-All :
    (Q : ℕ × ℕ → Type 0) (counts : Counts) (es : List RawEntry)
    → All Q counts
    → All (Requested (ids_of counts)) es
    → All (λ m. Q (m.message_id, m.delivery_count)) (with_counts counts (flatten_entries es))
unfolding with_counts flatten_entries
with_counts-All Q counts [] h asked = tt
with_counts-All Q counts (malformed ∷ es) h asked = with_counts-All Q counts es h asked.1
with_counts-All Q counts (deleted _ ∷ es) h asked = with_counts-All Q counts es h asked.1
with_counts-All Q counts (entry i _ ∷ es) h asked =
    (last_of-All Q i counts h asked.0, with_counts-All Q counts es h asked.1)

module _ (sv : Services) (laws : ClaimLaws sv) (cfg : Settings) where
  claimed-Delivered :
      (all : List Pending) (counts : Counts) (r : Result (List RawEntry))
      → All (HasEntry cfg all) counts
      → AllRequested (ids_of counts) r
      → Delivered cfg all (claimed counts r)
  claimed-Delivered all counts (ok es) h asked =
      with_counts-All (HasEntry cfg all) counts es h asked
  claimed-Delivered all counts (err e) h asked = tt

  claim-Delivered :
      (all : List Pending) (counts : Counts) (s : Consumer × sv.World)
      → All (HasEntry cfg all) counts
      → Delivered cfg all (claim sv cfg counts s).0
  unfolding claim
  claim-Delivered all [] s h = tt
  claim-Delivered all (p ∷ counts) (c, w) h =
      let ids = ids_of (p ∷ counts) in
      claimed-Delivered all (p ∷ counts) (sv.xclaim cfg.claim_min_idle ids w).0 h
        (laws.xclaim_requested cfg.claim_min_idle ids w)

  ensured-Delivered : (es : List Pending) (r : Result (Unit {0})) → Delivered cfg es (ensured r)
  ensured-Delivered es (ok _) = tt
  ensured-Delivered es (err _) = tt

  sort_pending-Delivered :
      (r : Result (List Pending)) (s : Consumer × sv.World)
      → Delivered cfg (entries_of r) (sort_pending sv cfg r s).0
  unfolding sort_pending
  sort_pending-Delivered (ok []) s = tt
  sort_pending-Delivered (ok (e ∷ es)) s =
      claim-Delivered (e ∷ es) (classify cfg (e ∷ es)).1
        (drop_poison sv cfg (classify cfg (e ∷ es)).0 s)
        (classify_from-All cfg (HasEntry cfg (e ∷ es)) ([], []) (e ∷ es) (All-entries cfg (e ∷ es))
          tt)
  sort_pending-Delivered (err (no_group f)) (c, w) = ensured-Delivered [] (sv.ensure_group w).0
  sort_pending-Delivered (err (response f)) s = tt
  sort_pending-Delivered (err (permanent f)) s = tt
  sort_pending-Delivered (err (lock_conflict f)) s = tt
  sort_pending-Delivered (err (other f)) s = tt

  -- Where `XCLAIM` returns only messages that it is asked for, each message that is handed to the handler
  -- again has an entry in the `XPENDING` reply, whose delivery count it carries, was not delivered more
  -- often than the limit, and has been idle for the least time.
  pub reclaim_pending-Delivered :
      (c : Consumer) (w : sv.World)
      → Delivered cfg
          (entries_of (sv.xpending_range cfg.batch_size w).0)
          (reclaim_pending sv cfg (c, w)).0
  unfolding reclaim_pending
  reclaim_pending-Delivered c w =
      elim (Bool-cases (ltb (sv.monotonic w - c.last_claim_at) cfg.claim_interval)) [
        | inl early ↦ rw early tt
        | inr due ↦ elim (Bool-cases c.claim_supported) [
          | inl on ↦
              rw (due, on)
                (sort_pending-Delivered (sv.xpending_range cfg.batch_size w).0 (
                  record c { last_claim_at = sv.monotonic w; claim_supported = true },
                  (sv.xpending_range cfg.batch_size w).1,
                ))
          | inr off ↦ rw (due, off) tt
        ]
      ]
