-- ===== src/Budget/Spend.antt =====
-- What a recorded spend adds to the totals of packages/obs-platform/src/obs_platform/evals/budget.py.
use agent_lens_platform.Common.{
  ℕ, ◌+◌, ◌≡◌, String, Option, none, some, string_eq, if◌then◌else◌, inl, inr, arith, Bool-cases,
}
use agent_lens_platform.Common.Table.{Table, updated, upsert}
use agent_lens_platform.Budget.{
  Key, key_eq, TenantUsage, key_of, cost_in, tokens_in, add_columns, increment, record_spend,
  spend_row, period_keys,
}

module _ {Moment : Type 0} (strftime : String → Moment → String)
    (table : Table (TenantUsage Moment) key_of) where
  -- What one row adds to the total of a key.
  abbrev pub added : Key → Key → ℕ → ℕ
  added j k n = if key_eq.beq j k then n else 0

  cost-updated :
      (row : TenantUsage Moment) (o : Option (TenantUsage Moment))
      → cost_in (updated add_columns row o) ≡ cost_in o + row.cost_micros
  cost-updated row none = omega arith
  cost-updated row (some old) = omega arith

  tokens-updated :
      (row : TenantUsage Moment) (o : Option (TenantUsage Moment))
      → tokens_in (updated add_columns row o) ≡ tokens_in o + row.total_tokens
  tokens-updated row none = omega arith
  tokens-updated row (some old) = omega arith

  cost-increment :
      (k : Key) (row : TenantUsage Moment) (t : table.Rows)
      → cost_in (table.find k (increment strftime table row t))
        ≡ cost_in (table.find k t) + added (key_of row) k row.cost_micros
  unfolding upsert increment
  cost-increment k row t = elim (Bool-cases (key_eq.beq (key_of row) k)) [
    | inl same ↦
        rw (table.find-upsert_row k add_columns row t, same) (cost-updated row (table.find k t))
    | inr other ↦ rw (table.find-upsert_row k add_columns row t, other) (omega arith)
  ]

  tokens-increment :
      (k : Key) (row : TenantUsage Moment) (t : table.Rows)
      → tokens_in (table.find k (increment strftime table row t))
        ≡ tokens_in (table.find k t) + added (key_of row) k row.total_tokens
  unfolding upsert increment
  tokens-increment k row t = elim (Bool-cases (key_eq.beq (key_of row) k)) [
    | inl same ↦
        rw (table.find-upsert_row k add_columns row t, same) (tokens-updated row (table.find k t))
    | inr other ↦ rw (table.find-upsert_row k add_columns row t, other) (omega arith)
  ]

  abbrev pub day_key : Moment → ℕ → String → Key
  day_key now tenant purpose = (tenant, ("day", ((period_keys strftime now).0, purpose)))

  abbrev pub month_key : Moment → ℕ → String → Key
  month_key now tenant purpose = (tenant, ("month", ((period_keys strftime now).1, purpose)))

  -- What one call of `record_spend` adds to the total of a key.
  abbrev pub spent : Moment → ℕ → String → Key → ℕ → ℕ
  spent now tenant purpose k n =
      added (day_key now tenant purpose) k n + added (month_key now tenant purpose) k n

  -- A recorded spend adds its cost and the sum of its tokens to the row of the tenant's day and to
  -- that of its month, of the same purpose, and to no other row; a missing row counts as zero.
  pub record_spend_adds :
      (now : Moment) (tenant : ℕ) (prompt completion cost calls : ℕ) (purpose : String) (k : Key)
      (t : table.Rows)
      → let after = record_spend strftime table now tenant prompt completion cost calls purpose t in
        (cost_in (table.find k after) ≡ cost_in (table.find k t) + spent now tenant purpose k cost)
        × (tokens_in (table.find k after)
            ≡ tokens_in (table.find k t) + spent now tenant purpose k (prompt + completion))
  unfolding record_spend
  record_spend_adds now tenant prompt completion cost calls purpose k t =
      let daily =
        spend_row strftime now tenant "day" (strftime "%Y-%m-%d" now) prompt completion cost calls
          purpose in
      let monthly =
        spend_row strftime now tenant "month" (strftime "%Y-%m" now) prompt completion cost calls
          purpose in
      let mid = increment strftime table daily t in
      (
        omega (arith, cost-increment k monthly mid, cost-increment k daily t),
        omega (arith, tokens-increment k monthly mid, tokens-increment k daily t),
      )

  -- Two replicas that record their spends leave the same cost and the same tokens in every row,
  -- whichever comes first, for the same tenant and period or not.
  pub record_spend_commute :
      (now now2 : Moment) (tenant tenant2 : ℕ) (prompt prompt2 completion completion2 : ℕ)
      (cost cost2 calls calls2 : ℕ) (purpose purpose2 : String) (k : Key) (t : table.Rows)
      → let first = record_spend strftime table now tenant prompt completion cost calls purpose in
        let second =
          record_spend strftime table now2 tenant2 prompt2 completion2 cost2 calls2 purpose2 in
        (cost_in (table.find k (second (first t))) ≡ cost_in (table.find k (first (second t))))
        × (tokens_in (table.find k (second (first t)))
            ≡ tokens_in (table.find k (first (second t))))
  record_spend_commute now now2 tenant tenant2 prompt prompt2 completion completion2 cost cost2
        calls calls2 purpose purpose2 k t =
      let first = record_spend_adds now tenant prompt completion cost calls purpose k in
      let second = record_spend_adds now2 tenant2 prompt2 completion2 cost2 calls2 purpose2 k in
      let run = record_spend strftime table now tenant prompt completion cost calls purpose t in
      let run2 =
        record_spend strftime table now2 tenant2 prompt2 completion2 cost2 calls2 purpose2 t in
      (
        omega (arith, (second run).0, (first t).0, (first run2).0, (second t).0),
        omega (arith, (second run).1, (first t).1, (first run2).1, (second t).1),
      )
