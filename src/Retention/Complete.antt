-- ===== src/Retention/Complete.antt =====
-- The batches of the purge of packages/obs-platform/src/obs_platform/jobs/retention.py leave no expired trace.
use agent_lens_platform.Common.{
  ℕ, zero, suc, ◌+◌, ◌-◌, ◌*◌, ◌≤◌, ◌≡◌, refl, ap, ◌∙◌, Bool, true, false, not, ◌||◌, List, [], ◌∷◌,
  map, length, length-take, length-map, length-filter-le, take, filter, min, ltb, ◌==◌, arith, inl,
  inr, Bool-cases,
}
use agent_lens_platform.Retention.{
  Rows, Tables, Purged, is_in, rows_left, is_older, expired_ids, delete_batch, go_on, purge_batches,
}

==-refl : (n : ℕ) → (n == n) ≡ true
==-refl n = ground arith

or-left : (a b : Bool) → a ≡ true → (a || b) ≡ true
or-left a b h = ground arith

or-right : (a b : Bool) → b ≡ true → (a || b) ≡ true
or-right a b h = ground arith

pub filter-swap :
    (p q : ℕ × ℕ → Bool) (rows : Rows) → filter p (filter q rows) ≡ filter q (filter p rows)
filter-swap p q [] = refl
filter-swap p q (r ∷ rows) = elim (Bool-cases (p r)) [
  | inl a ↦ elim (Bool-cases (q r)) [
    | inl b ↦ rw (a, b, a) (ap (λ l. r ∷ l) (filter-swap p q rows))
    | inr b ↦ rw (a, b) (filter-swap p q rows)
  ]
  | inr a ↦ elim (Bool-cases (q r)) [
    | inl b ↦ rw (a, b, a) (filter-swap p q rows)
    | inr b ↦ rw (a, b) (filter-swap p q rows)
  ]
]

-- A delete of all the first rows leaves at most the others.
length-left :
    (ids : List ℕ) (n : ℕ) (rows : Rows)
    → ((i : ℕ) → is_in (take n (map (λ r. r.0) rows)) i ≡ true → is_in ids i ≡ true)
    → length (rows_left (λ r. is_in ids r.0) rows) ≤ length rows - n
length-left ids zero rows h = omega (arith, length-filter-le (λ r. not (is_in ids r.0)) rows)
length-left ids (suc n) [] h = omega arith
length-left ids (suc n) (r ∷ rows) h =
    rw (h r.0 (or-left (r.0 == r.0) (is_in (take n (map (λ s. s.0) rows)) r.0) (==-refl r.0))) (
      omega (
        arith,
        length-left ids n rows
            (λ i m. h i (or-right (i == r.0) (is_in (take n (map (λ s. s.0) rows)) i) m)),
      ))

-- The traces that a purge may remove.
abbrev pub expired : ℕ → Tables → Rows
expired cutoff t = filter (is_older cutoff) t.traces

expired_batch :
    (cutoff n : ℕ) (p : Purged)
    → length (expired cutoff (delete_batch (expired_ids cutoff n p.tables) p).tables)
      ≤ length (expired cutoff p.tables) - n
unfolding delete_batch
expired_batch cutoff n p =
    let ids = expired_ids cutoff n p.tables in
    rw (filter-swap (is_older cutoff) (λ r. not (is_in ids r.0)) p.tables.traces)
      (length-left ids n (expired cutoff p.tables) (λ i m. m))

-- Whichever way a round goes on, no expired trace is left.
go_on-expired :
    (cutoff n : ℕ) (ids : List ℕ) (before after rest : Purged)
    → 1 ≤ n
    → length ids ≡ min n (length (expired cutoff before.tables))
    → length (expired cutoff after.tables) ≤ length (expired cutoff before.tables) - n
    → (ltb 1_000 after.report.batches ≡ true → length (expired cutoff after.tables) ≡ 0)
    → (ltb 1_000 after.report.batches ≡ false → length (expired cutoff rest.tables) ≡ 0)
    → length (expired cutoff (go_on n ids before after rest).tables) ≡ 0
go_on-expired cutoff n [] before after rest pos ids_len fewer at_limit below_limit = ground arith
go_on-expired cutoff n (i ∷ ids) before after rest pos ids_len fewer at_limit below_limit =
    elim (Bool-cases (ltb (length (i ∷ ids)) n)) [
      | inl short ↦ rw short (ground arith)
      | inr full ↦ elim (Bool-cases (ltb 1_000 after.report.batches)) [
        | inl stop ↦ rw (full, stop) (at_limit stop)
        | inr more ↦ rw (full, more) (below_limit more)
      ]
    ]

length-expired_ids :
    (cutoff n : ℕ) (t : Tables)
    → length (expired_ids cutoff n t) ≡ min n (length (expired cutoff t))
length-expired_ids cutoff n t =
    length-take n (map (λ r. r.0) (expired cutoff t))
    ∙ ap (min n) (length-map (expired cutoff t) (λ r. r.0))

none_left : (fuel n e : ℕ) → fuel ≡ 0 → e ≤ fuel * n → e ≡ 0
none_left zero n e last h = omega arith
none_left (suc fuel) n e last h = omega arith

last_round :
    (batches fuel : ℕ) → batches + suc fuel ≡ 1_001 → ltb 1_000 (batches + 1) ≡ true → fuel ≡ 0
last_round batches fuel limit stop = ground arith

pub purge_batches-expired :
    (cutoff n fuel : ℕ) (p : Purged)
    → 1 ≤ n
    → p.report.batches + fuel ≡ 1_001
    → length (expired cutoff p.tables) ≤ fuel * n
    → length (expired cutoff (purge_batches cutoff n fuel p).tables) ≡ 0
unfolding purge_batches delete_batch
purge_batches-expired cutoff n zero p pos limit h = omega (arith, h)
purge_batches-expired cutoff n (suc fuel) p pos limit h =
    let ids = expired_ids cutoff n p.tables in
    let after = delete_batch ids p in
    let fewer = expired_batch cutoff n p in
    let left : length (expired cutoff after.tables) ≤ fuel * n = omega (arith, h, fewer) in
    go_on-expired cutoff n ids p after (purge_batches cutoff n fuel after) pos
      (length-expired_ids cutoff n p.tables) fewer
      (λ stop.
        none_left fuel n (length (expired cutoff after.tables))
          (last_round p.report.batches fuel limit stop) left)
      (λ more. purge_batches-expired cutoff n fuel after pos (omega (arith, limit)) left)

no_length : (n : ℕ) → suc n ≡ 0 → ⊥
no_length n h = omega arith

pub empty_of : {A : Type 0} (xs : List A) → length xs ≡ 0 → xs ≡ []
empty_of [] h = refl
empty_of (x ∷ xs) h = absurd (no_length (length xs) h)

pub filter-left : (c : ℕ × ℕ → Bool) (rows : Rows) → filter c (rows_left c rows) ≡ []
filter-left c [] = refl
filter-left c (r ∷ rows) = elim (Bool-cases (c r)) [
  | inl gone ↦ rw gone (filter-left c rows)
  | inr kept ↦ rw (kept, kept) (filter-left c rows)
]
