-- ===== src/Retention/Rounds.antt =====
-- The loop of the purge in packages/obs-platform/src/obs_platform/jobs/retention.py comes to an end.
use agent_lens_platform.Common.{
  ℕ, zero, suc, ◌+◌, ◌≡◌, refl, ap, ◌∙◌, false, List, [], ◌∷◌, ltb, arith, inl, inr, Bool-cases,
}
use agent_lens_platform.Retention.{
  Tables, Purged, new_report, expired_ids, delete_batch, go_on, purge_batches, batch_limit,
}

go_on-same :
    (n : ℕ) (ids : List ℕ) (before after rest rest' : Purged)
    → (ltb 1_000 after.report.batches ≡ false → rest ≡ rest')
    → go_on n ids before after rest ≡ go_on n ids before after rest'
go_on-same n [] before after rest rest' h = refl
go_on-same n (i ∷ ids) before after rest rest' h =
    elim (Bool-cases (ltb 1_000 after.report.batches)) [
      | inl stop ↦ rw stop refl
      | inr more ↦ ap (λ r. go_on n (i ∷ ids) before after r) (h more)
    ]

over : (batches : ℕ) → batches + 0 ≡ 1_000 → ltb 1_000 (batches + 1) ≡ false → ⊥
over batches h more = ground arith

suc_add : (m n : ℕ) → suc m + n ≡ suc (m + n)
suc_add m n = omega arith

rounds-more :
    (cutoff n fuel more : ℕ) (p : Purged)
    → p.report.batches + fuel ≡ 1_000
    → purge_batches cutoff n (suc (fuel + more)) p ≡ purge_batches cutoff n (suc fuel) p
unfolding purge_batches delete_batch
rounds-more cutoff n zero more p h =
    let ids = expired_ids cutoff n p.tables in
    let after = delete_batch ids p in
    go_on-same n ids p after (purge_batches cutoff n (zero + more) after) after
      (λ on. absurd (over p.report.batches h on))
rounds-more cutoff n (suc fuel) more p h =
    let ids = expired_ids cutoff n p.tables in
    let after = delete_batch ids p in
    go_on-same n ids p after (purge_batches cutoff n (suc fuel + more) after)
      (purge_batches cutoff n (suc fuel) after)
      (λ on.
        ap (λ f. purge_batches cutoff n f after) (suc_add fuel more)
        ∙ rounds-more cutoff n fuel more after (omega (arith, h)))

-- The loop ends by itself: from a new report, a loop that may run any number of rounds more than the
-- 1,001 of the limit gives the same tables and the same report, whatever the batch size, zero included.
purge_batches_ends :
    (cutoff batch_size more : ℕ) (t : Tables)
    → purge_batches cutoff batch_size
        (batch_limit + more)
        (record { tables = t; report = new_report cutoff })
      ≡ purge_batches cutoff batch_size batch_limit
          (record { tables = t; report = new_report cutoff })
purge_batches_ends cutoff batch_size more t =
    ap (λ f. purge_batches cutoff batch_size f (record { tables = t; report = new_report cutoff }))
      (suc_add 1_000 more)
    ∙ rounds-more cutoff batch_size 1_000 more (record { tables = t; report = new_report cutoff })
        refl
