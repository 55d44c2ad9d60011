-- ===== src/Retention/Kept.antt =====
-- What the purge of packages/obs-platform/src/obs_platform/jobs/retention.py leaves alone.
use agent_lens_platform.Common.{
  ℕ, zero, suc, ◌-◌, ◌≡◌, refl, ap, ◌∙◌, Bool, true, false, not, ◌||◌, List, [], ◌∷◌, map, length,
  take, filter, ltb, ◌==◌, arith, inl, inr, Bool-cases,
}
use agent_lens_platform.Retention.{
  Rows, Tables, Purged, new_report, is_in, rows_left, is_older, expired_ids, delete_batch, go_on,
  purge_batches, purge_standalone, batch_limit, purge,
}
use agent_lens_platform.Retention.Complete.{filter-swap}

pub ==-eq : (m n : ℕ) → (m == n) ≡ true → m ≡ n
==-eq m n h = ground arith

not-first : (a b : Bool) → (a || b) ≡ false → a ≡ false
not-first a b h = ground arith

not-second : (a b : Bool) → (a || b) ≡ false → b ≡ false
not-second a b h = ground arith

-- The rows of one trace.
abbrev pub rows_of : ℕ → Rows → Rows
rows_of i = filter (λ r. r.0 == i)

rows_of-left :
    (i : ℕ) (ids : List ℕ) (rows : Rows)
    → is_in ids i ≡ false
    → rows_of i (rows_left (λ r. is_in ids r.0) rows) ≡ rows_of i rows
rows_of-left i ids [] h = refl
rows_of-left i ids (r ∷ rows) h = elim (Bool-cases (r.0 == i)) [
  | inl same ↦
      let out : is_in ids r.0 ≡ false = ap (is_in ids) (==-eq r.0 i same) ∙ h in
      rw (out, same) (ap (λ l. r ∷ l) (rows_of-left i ids rows h))
  | inr other ↦ elim (Bool-cases (is_in ids r.0)) [
    | inl deleted ↦ rw (deleted, other) (rows_of-left i ids rows h)
    | inr kept ↦ rw (kept, other) (rows_of-left i ids rows h)
  ]
]

take-free : (i n : ℕ) (ids : List ℕ) → is_in ids i ≡ false → is_in (take n ids) i ≡ false
take-free i zero ids h = refl
take-free i (suc n) [] h = refl
take-free i (suc n) (j ∷ ids) h =
    rw (not-first (i == j) (is_in ids i) h)
      (take-free i n ids (not-second (i == j) (is_in ids i) h))

filter-free :
    (i : ℕ) (q : ℕ × ℕ → Bool) (rows : Rows)
    → is_in (map (λ r. r.0) rows) i ≡ false
    → is_in (map (λ r. r.0) (filter q rows)) i ≡ false
filter-free i q [] h = refl
filter-free i q (r ∷ rows) h = elim (Bool-cases (q r)) [
  | inl kept ↦
      rw (kept, not-first (i == r.0) (is_in (map (λ s. s.0) rows) i) h)
        (filter-free i q rows (not-second (i == r.0) (is_in (map (λ s. s.0) rows) i) h))
  | inr gone ↦
      rw gone (filter-free i q rows (not-second (i == r.0) (is_in (map (λ s. s.0) rows) i) h))
]

-- No row of the trace is older than the cutoff.
abbrev pub IsRecent : ℕ → ℕ → Tables → Type 0
IsRecent cutoff i t = is_in (map (λ r. r.0) (filter (is_older cutoff) t.traces)) i ≡ false

-- The rows of the trace and of its children are the same.
abbrev pub Kept : ℕ → Tables → Tables → Type 0
Kept i t u =
    (rows_of i u.traces ≡ rows_of i t.traces)
    × (rows_of i u.spans ≡ rows_of i t.spans)
    × (rows_of i u.guardrail_findings ≡ rows_of i t.guardrail_findings)
    × (rows_of i u.eval_scores ≡ rows_of i t.eval_scores)

Kept-trans : (i : ℕ) (t u v : Tables) → Kept i t u → Kept i u v → Kept i t v
Kept-trans i t u v (a, b, c, d) (a', b', c', d') = (a' ∙ a, b' ∙ b, c' ∙ c, d' ∙ d)

filter-left-free :
    (i : ℕ) (p q : ℕ × ℕ → Bool) (rows : Rows)
    → is_in (map (λ r. r.0) (filter p rows)) i ≡ false
    → is_in (map (λ r. r.0) (filter p (filter q rows))) i ≡ false
filter-left-free i p q rows h =
    ap (λ l. is_in (map (λ r. r.0) l) i) (filter-swap p q rows) ∙ filter-free i q (filter p rows) h

delete_batch-Kept :
    (i : ℕ) (ids : List ℕ) (p : Purged)
    → is_in ids i ≡ false
    → Kept i p.tables (delete_batch ids p).tables
unfolding delete_batch
delete_batch-Kept i ids p h =
    let t = p.tables in
    (
      rows_of-left i ids t.traces h,
      rows_of-left i ids t.spans h,
      rows_of-left i ids t.guardrail_findings h,
      rows_of-left i ids t.eval_scores h,
    )

delete_batch-IsRecent :
    (cutoff i : ℕ) (ids : List ℕ) (p : Purged)
    → IsRecent cutoff i p.tables
    → IsRecent cutoff i (delete_batch ids p).tables
unfolding delete_batch
delete_batch-IsRecent cutoff i ids p h =
    filter-left-free i (is_older cutoff) (λ r. not (is_in ids r.0)) p.tables.traces h

go_on-Kept :
    (i n : ℕ) (ids : List ℕ) (t : Tables) (before after rest : Purged)
    → Kept i t before.tables
    → Kept i t after.tables
    → Kept i t rest.tables
    → Kept i t (go_on n ids before after rest).tables
go_on-Kept i n [] t before after rest b a r = b
go_on-Kept i n (j ∷ ids) t before after rest b a r = elim (Bool-cases (ltb (length (j ∷ ids)) n)) [
  | inl short ↦ rw short a
  | inr full ↦ elim (Bool-cases (ltb 1_000 after.report.batches)) [
    | inl stop ↦ rw (full, stop) a
    | inr more ↦ rw (full, more) r
  ]
]

purge_batches-Kept :
    (cutoff n fuel i : ℕ) (p : Purged)
    → IsRecent cutoff i p.tables
    → Kept i p.tables (purge_batches cutoff n fuel p).tables
unfolding purge_batches
purge_batches-Kept cutoff n zero i p h = (refl, refl, refl, refl)
purge_batches-Kept cutoff n (suc fuel) i p h =
    let ids = expired_ids cutoff n p.tables in
    let after = delete_batch ids p in
    let rest = purge_batches cutoff n fuel after in
    let free = take-free i n (map (λ r. r.0) (filter (is_older cutoff) p.tables.traces)) h in
    let now = delete_batch-Kept i ids p free in
    let later = purge_batches-Kept cutoff n fuel i after (delete_batch-IsRecent cutoff i ids p h) in
    go_on-Kept i n ids p.tables p after rest (refl, refl, refl, refl) now
      (Kept-trans i p.tables after.tables rest.tables now later)

-- A purge changes nothing of a trace that is not older than the retention window: its row, its spans, its
-- findings and its scores stay, whatever the batch size.
pub purge_keeps :
    (retention batch_size moment i : ℕ) (t : Tables)
    → IsRecent (moment - retention) i t
    → Kept i t (purge retention batch_size moment t).tables
unfolding purge purge_standalone
purge_keeps retention batch_size moment i t h =
    purge_batches-Kept (moment - retention) batch_size batch_limit i
      (record { tables = t; report = new_report (moment - retention) }) h
