-- ===== src/Budget/Caps.antt =====
-- When `check_budget` of packages/obs-platform/src/obs_platform/evals/budget.py refuses.
use agent_lens_platform.Common.{
  ℕ, ◌≤◌, ◌≡◌, Bool, ◌&&◌, not, true, false, sym, ◌∙◌, String, string_eq, arith, leb,
}
use agent_lens_platform.Common.Table.{Table}
use agent_lens_platform.Budget.{
  key_eq, Key, TenantUsage, key_of, cost_in, tokens_in, record_spend, Dollars, Settings,
  check_budget, purpose_eval,
}
use agent_lens_platform.Budget.Spend.{record_spend_adds, day_key, month_key}

module _ {Moment : Type 0} (strftime : String → Moment → String)
    (table : Table (TenantUsage Moment) key_of) (usd : Dollars) where
  -- What the tenant has spent on grading in the day and in the month of a moment.
  abbrev pub daily_micros : Moment → ℕ → table.Rows → ℕ
  daily_micros now tenant t =
      cost_in (table.find (day_key strftime table now tenant purpose_eval) t)

  abbrev pub monthly_micros : Moment → ℕ → table.Rows → ℕ
  monthly_micros now tenant t =
      cost_in (table.find (month_key strftime table now tenant purpose_eval) t)

  abbrev pub daily_count : Moment → ℕ → table.Rows → ℕ
  daily_count now tenant t =
      tokens_in (table.find (day_key strftime table now tenant purpose_eval) t)

  -- The budget allows a tenant to spend exactly when its cost of the day, its cost of the month and
  -- its tokens of the day all lie below their caps.
  pub check_budget-allowed :
      (now : Moment) (tenant : ℕ) (settings : Settings usd.Usd) (t : table.Rows)
      → (check_budget strftime table usd now tenant settings t).allowed ≡ (
          not (
            usd.at_least
              (usd.micros_to_usd (daily_micros now tenant t))
              settings.budget_daily_usd_per_tenant)
          && (not (
                usd.at_least
                  (usd.micros_to_usd (monthly_micros now tenant t))
                  settings.budget_monthly_usd_per_tenant)
              && not (leb settings.budget_daily_tokens_per_tenant (daily_count now tenant t))))
  unfolding check_budget
  check_budget-allowed now tenant settings t = ground arith

  below_cap :
      (d m d2 m2 : Bool) (limit n n2 : ℕ)
      → (d ≡ true → d2 ≡ true)
      → (m ≡ true → m2 ≡ true)
      → n ≤ n2
      → (not d && (not m && not (leb limit n))) ≡ false
      → (not d2 && (not m2 && not (leb limit n2))) ≡ false
  below_cap d m d2 m2 limit n n2 f g le h = ground arith

  -- A tenant that the budget refuses stays refused, for the same day and month, whatever spends are
  -- recorded for it or for others.
  pub refused_stays :
      (now moment : Moment) (tenant who : ℕ) (settings : Settings usd.Usd)
      (prompt completion cost calls : ℕ) (purpose : String) (t : table.Rows)
      → (check_budget strftime table usd now tenant settings t).allowed ≡ false
      → (check_budget strftime table usd now tenant settings
          (record_spend strftime table moment who prompt completion cost calls purpose t)).allowed
        ≡ false
  refused_stays now moment tenant who settings prompt completion cost calls purpose t h =
      let after = record_spend strftime table moment who prompt completion cost calls purpose t in
      let grown = λ (k : Key).
        record_spend_adds strftime table moment who prompt completion cost calls purpose k t in
      let day = grown (day_key strftime table now tenant purpose_eval) in
      let month = grown (month_key strftime table now tenant purpose_eval) in
      check_budget-allowed now tenant settings after
      ∙ below_cap _ _ _ _ settings.budget_daily_tokens_per_tenant (daily_count now tenant t)
          (daily_count now tenant after)
          (usd.at_least_mono (daily_micros now tenant t) (daily_micros now tenant after)
            settings.budget_daily_usd_per_tenant (omega (arith, day.0)))
          (usd.at_least_mono (monthly_micros now tenant t) (monthly_micros now tenant after)
            settings.budget_monthly_usd_per_tenant (omega (arith, month.0)))
          (omega (arith, day.1)) (sym (check_budget-allowed now tenant settings t) ∙ h)
