-- ===== src/Retention/Removed.antt =====
-- What the purge of packages/obs-platform/src/obs_platform/jobs/retention.py removes with a trace.
use agent_lens_platform.Common.{
  ℕ, zero, suc, ◌-◌, ◌*◌, ◌≤◌, ◌≡◌, ◌⊎◌, refl, sym, ap, ◌∙◌, Bool, true, false, not, ◌||◌, List, [],
  ◌∷◌, map, length, filter, All, ltb, ◌==◌, arith, inl, inr, Bool-cases,
}
use agent_lens_platform.Retention.{
  Rows, Tables, Purged, new_report, is_in, rows_left, is_older, expired_ids, delete_batch, go_on,
  purge_batches, purge_standalone, batch_limit, purge,
}
use agent_lens_platform.Retention.Complete.{
  filter-swap, expired, purge_batches-expired, empty_of, filter-left,
}
use agent_lens_platform.Retention.Kept.{==-eq, rows_of}

-- No child of the trace is left.
abbrev pub Gone : ℕ → Tables → Type 0
Gone i t =
    (rows_of i t.spans ≡ [])
    × ((rows_of i t.guardrail_findings ≡ []) × (rows_of i t.eval_scores ≡ []))

-- The trace is old.
abbrev pub IsExpired : ℕ → ℕ → Tables → Type 0
IsExpired cutoff i t = is_in (map (λ r. r.0) (filter (is_older cutoff) t.traces)) i ≡ true

rows_of-none :
    (i : ℕ) (q : ℕ × ℕ → Bool) (rows : Rows) → rows_of i rows ≡ [] → rows_of i (filter q rows) ≡ []
rows_of-none i q rows h = filter-swap (λ r. r.0 == i) q rows ∙ ap (filter q) h

rows_of-chosen :
    (i : ℕ) (ids : List ℕ) (rows : Rows)
    → is_in ids i ≡ true
    → rows_of i (rows_left (λ r. is_in ids r.0) rows) ≡ []
rows_of-chosen i ids [] h = refl
rows_of-chosen i ids (r ∷ rows) h = elim (Bool-cases (r.0 == i)) [
  | inl same ↦
      let chosen : is_in ids r.0 ≡ true = ap (is_in ids) (==-eq r.0 i same) ∙ h in
      rw chosen (rows_of-chosen i ids rows h)
  | inr other ↦ elim (Bool-cases (is_in ids r.0)) [
    | inl chosen ↦ rw chosen (rows_of-chosen i ids rows h)
    | inr kept ↦ rw (kept, other) (rows_of-chosen i ids rows h)
  ]
]

or-later : (a b c : Bool) → b ≡ c → (a || b) ≡ (a || c)
or-later a b c h = ap (λ x. a || x) h

different : (i j : ℕ) (b c : Bool) → ((j == i) ≡ true → ⊥) → b ≡ c → b ≡ ((i == j) || c)
different i j b c apart h = ground arith

clash : (a : Bool) → a ≡ true → a ≡ false → ⊥
clash a h k = ground arith

is_in-left :
    (i : ℕ) (ids : List ℕ) (rows : Rows)
    → is_in ids i ≡ false
    → is_in (map (λ r. r.0) (rows_left (λ r. is_in ids r.0) rows)) i ≡ is_in (map (λ r. r.0) rows) i
is_in-left i ids [] h = refl
is_in-left i ids (r ∷ rows) h = elim (Bool-cases (is_in ids r.0)) [
  | inl chosen ↦ rw chosen (
      different i r.0 _ _
        (λ same. clash (is_in ids i) (sym (ap (is_in ids) (==-eq r.0 i same)) ∙ chosen) h)
        (is_in-left i ids rows h))
  | inr kept ↦ rw kept (or-later (i == r.0) _ _ (is_in-left i ids rows h))
]

-- Each round keeps that the children of an old trace are gone or the trace is still there.
abbrev Awaits : ℕ → ℕ → Tables → Type 0
Awaits cutoff i t = IsExpired cutoff i t ⊎ Gone i t

delete_batch-Awaits :
    (cutoff i : ℕ) (ids : List ℕ) (p : Purged)
    → Awaits cutoff i p.tables
    → Awaits cutoff i (delete_batch ids p).tables
unfolding delete_batch
delete_batch-Awaits cutoff i ids p (inr gone) =
    let kept : ℕ × ℕ → Bool = λ r. not (is_in ids r.0) in
    inr (
      rows_of-none i kept p.tables.spans gone.0,
      (
        rows_of-none i kept p.tables.guardrail_findings gone.1.0,
        rows_of-none i kept p.tables.eval_scores gone.1.1,
      ),
    )
delete_batch-Awaits cutoff i ids p (inl old) = elim (Bool-cases (is_in ids i)) [
  | inl chosen ↦ inr (
    rows_of-chosen i ids p.tables.spans chosen,
    (
      rows_of-chosen i ids p.tables.guardrail_findings chosen,
      rows_of-chosen i ids p.tables.eval_scores chosen,
    ),
  )
  | inr kept ↦ inl (
      ap (λ l. is_in (map (λ r. r.0) l) i)
        (filter-swap (is_older cutoff) (λ r. not (is_in ids r.0)) p.tables.traces)
      ∙ is_in-left i ids (expired cutoff p.tables) kept
      ∙ old)
]

go_on-holds :
    (P : Purged → Type 0) (n : ℕ) (ids : List ℕ) (before after rest : Purged)
    → P before
    → P after
    → P rest
    → P (go_on n ids before after rest)
go_on-holds P n [] before after rest b a r = b
go_on-holds P n (j ∷ ids) before after rest b a r = elim (Bool-cases (ltb (length (j ∷ ids)) n)) [
  | inl short ↦ rw short a
  | inr full ↦ elim (Bool-cases (ltb 1_000 after.report.batches)) [
    | inl stop ↦ rw (full, stop) a
    | inr more ↦ rw (full, more) r
  ]
]

purge_batches-Awaits :
    (cutoff n fuel i : ℕ) (p : Purged)
    → Awaits cutoff i p.tables
    → Awaits cutoff i (purge_batches cutoff n fuel p).tables
unfolding purge_batches
purge_batches-Awaits cutoff n zero i p h = h
purge_batches-Awaits cutoff n (suc fuel) i p h =
    let ids = expired_ids cutoff n p.tables in
    let after = delete_batch ids p in
    let now = delete_batch-Awaits cutoff i ids p h in
    go_on-holds (λ q. Awaits cutoff i q.tables) n ids p after (purge_batches cutoff n fuel after) h
      now (purge_batches-Awaits cutoff n fuel i after now)

none_old : (i : ℕ) (rows : Rows) → rows ≡ [] → is_in (map (λ r. r.0) rows) i ≡ true → ⊥
none_old i rows none_left h =
    clash (is_in (map (λ r. r.0) rows) i) h (ap (λ l. is_in (map (λ r. r.0) l) i) none_left)

Awaits-Gone : (cutoff i : ℕ) (t : Tables) → expired cutoff t ≡ [] → Awaits cutoff i t → Gone i t
Awaits-Gone cutoff i t none_left (inl old) = absurd (none_old i (expired cutoff t) none_left old)
Awaits-Gone cutoff i t none_left (inr gone) = gone

or-left : (a b : Bool) → a ≡ true → (a || b) ≡ true
or-left a b h = ground arith

or-right : (a b : Bool) → b ≡ true → (a || b) ≡ true
or-right a b h = ground arith

==-refl : (n : ℕ) → (n == n) ≡ true
==-refl n = ground arith

each_id :
    (P : ℕ → Type 0) (rows : Rows)
    → ((i : ℕ) → is_in (map (λ r. r.0) rows) i ≡ true → P i)
    → All (λ r. P r.0) rows
each_id P [] h = tt
each_id P (r ∷ rows) h = (
  h r.0 (or-left (r.0 == r.0) (is_in (map (λ s. s.0) rows) r.0) (==-refl r.0)),
  each_id P rows (λ i m. h i (or-right (i == r.0) (is_in (map (λ s. s.0) rows) i) m)),
)

-- With a batch size of one or more and at most 1,001 batches of expired traces, a purge leaves no trace
-- that is older than the retention window, no span, finding or score of a trace that was, no row of the
-- drift snapshots, the dead letters or the alerts that is older, and no row of the audit log that is older
-- than three windows.
pub purge_complete :
    (retention batch_size moment : ℕ) (t : Tables)
    → 1 ≤ batch_size
    → length (filter (is_older (moment - retention)) t.traces) ≤ 1_001 * batch_size
    → let left = (purge retention batch_size moment t).tables in
      (filter (is_older (moment - retention)) left.traces ≡ [])
      × All (λ r. Gone r.0 left) (filter (is_older (moment - retention)) t.traces)
      × (filter (is_older (moment - retention)) left.drift_snapshots ≡ [])
      × (filter (is_older (moment - retention)) left.dead_letters ≡ [])
      × (filter (is_older (moment - retention)) left.alerts ≡ [])
      × (filter (is_older (moment - retention * 3)) left.audit_log ≡ [])
unfolding purge purge_standalone
purge_complete retention batch_size moment t pos enough =
    let cutoff = moment - retention in
    let audit_cutoff = moment - retention * 3 in
    let begun : Purged = record { tables = t; report = new_report cutoff } in
    let batched = purge_batches cutoff batch_size batch_limit begun in
    let traces_left =
      empty_of (expired cutoff batched.tables)
        (purge_batches-expired cutoff batch_size 1_001 begun pos refl enough) in
    (
      traces_left,
      each_id (λ i. Gone i batched.tables) (expired cutoff t)
          (λ i old.
            Awaits-Gone cutoff i batched.tables traces_left
              (purge_batches-Awaits cutoff batch_size batch_limit i begun (inl old))),
      filter-left (is_older cutoff) batched.tables.drift_snapshots,
      filter-left (is_older cutoff) batched.tables.dead_letters,
      filter-left (is_older cutoff) batched.tables.alerts,
      filter-left (is_older audit_cutoff) batched.tables.audit_log,
    )
