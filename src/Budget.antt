-- ===== src/Budget.antt =====
-- packages/obs-platform/src/obs_platform/evals/budget.py: the spend cap of a tenant. The table
-- `tenant_usage` is a `Table`; an amount in dollars is a float of Python, of which `Dollars` keeps
-- what the module uses; a moment is formatted by `strftime`. The reason of a refusal is its numbers.
pub mod Caps
pub mod Spend
use agent_lens_platform.Common.{
  Eq, nat_eq, both_eq, ℕ, ◌+◌, ◌≤◌, ◌≡◌, String, Bool, true, false, Option, none, some, string_eq,
  if◌then◌else◌, leb,
}
use agent_lens_platform.Common.Table.{Table, upsert}

-- `micros_to_usd` of pricing.py and `>=` on its values: the division by a million and the rounding
-- to six places do not decrease.
pub record Dollars : Type 1 where
  pub Usd : Type 0
  pub micros_to_usd : ℕ → Usd
  pub at_least : Usd → Usd → Bool
  pub at_least_mono :
      (a b : ℕ) (cap : Usd)
      → a ≤ b
      → at_least (micros_to_usd a) cap ≡ true
      → at_least (micros_to_usd b) cap ≡ true

-- tenant, period kind, period and purpose: the unique constraint of `TenantUsage`
abbrev pub Key : Type 0
Key = ℕ × (String × (String × String))

instance abbrev pub key_eq : Eq Key
key_eq = both_eq nat_eq (both_eq string_eq (both_eq string_eq string_eq))

-- `TenantUsage`; `Moment` is `datetime`
pub record TenantUsage (Moment : Type 0) : Type 0 where
  pub tenant_id : ℕ
  pub period_kind : String
  pub period_key : String
  pub purpose : String
  pub prompt_tokens : ℕ
  pub completion_tokens : ℕ
  pub total_tokens : ℕ
  pub cost_micros : ℕ
  pub calls : ℕ
  pub updated_at : Moment
  pub created_at : Moment

abbrev pub key_of : {Moment : Type 0} → TenantUsage Moment → Key
key_of r = (r.tenant_id, (r.period_kind, (r.period_key, r.purpose)))

abbrev pub purpose_eval : String
purpose_eval = "eval_judge"

-- The three texts that `check_budget` formats.
pub data Reason (Usd : Type 0) : Type 0 where
  no_reason : Reason Usd
  daily_spend monthly_spend : Usd → Usd → Reason Usd
  daily_judge_tokens : ℕ → ℕ → Reason Usd

pub record BudgetStatus (Usd : Type 0) : Type 0 where
  pub allowed : Bool
  pub reason : Reason Usd
  pub daily_cost_usd : Usd
  pub monthly_cost_usd : Usd
  pub daily_tokens : ℕ
  pub daily_cap_usd : Usd
  pub monthly_cap_usd : Usd
  pub daily_token_cap : ℕ

-- The settings that the cap reads.
pub record Settings (Usd : Type 0) : Type 0 where
  pub budget_daily_usd_per_tenant : Usd
  pub budget_monthly_usd_per_tenant : Usd
  pub budget_daily_tokens_per_tenant : ℕ

-- `row.cost_micros if row else 0` and the same of the tokens
abbrev pub cost_in : {Moment : Type 0} → Option (TenantUsage Moment) → ℕ
cost_in none = 0
cost_in (some row) = row.cost_micros

abbrev pub tokens_in : {Moment : Type 0} → Option (TenantUsage Moment) → ℕ
tokens_in none = 0
tokens_in (some row) = row.total_tokens

-- `stmt.excluded` added to the columns of the row that stands
abbrev pub add_columns :
    {Moment : Type 0} → TenantUsage Moment → TenantUsage Moment → TenantUsage Moment
add_columns old new = record {
  tenant_id = old.tenant_id;
  period_kind = old.period_kind;
  period_key = old.period_key;
  purpose = old.purpose;
  prompt_tokens = old.prompt_tokens + new.prompt_tokens;
  completion_tokens = old.completion_tokens + new.completion_tokens;
  total_tokens = old.total_tokens + new.total_tokens;
  cost_micros = old.cost_micros + new.cost_micros;
  calls = old.calls + new.calls;
  updated_at = new.updated_at;
  created_at = old.created_at;
}

module _ {Moment : Type 0} (strftime : String → Moment → String) where
  abbrev pub period_keys : Moment → String × String
  period_keys now = (strftime "%Y-%m-%d" now, strftime "%Y-%m" now)

  -- The row that `record_spend` hands to `_increment` for one period.
  abbrev pub spend_row : Moment → ℕ → String → String → ℕ → ℕ → ℕ → ℕ → String → TenantUsage Moment
  spend_row now tenant kind key prompt completion cost calls purpose = record {
    tenant_id = tenant;
    period_kind = kind;
    period_key = key;
    purpose = purpose;
    prompt_tokens = prompt;
    completion_tokens = completion;
    total_tokens = prompt + completion;
    cost_micros = cost;
    calls = calls;
    updated_at = now;
    created_at = now;
  }

  module _ (table : Table (TenantUsage Moment) key_of) where
    abbrev pub usage_row : ℕ → String → String → table.Rows → Option (TenantUsage Moment)
    usage_row tenant kind key t = table.find (tenant, (kind, (key, purpose_eval))) t

    unfoldable pub increment : TenantUsage Moment → table.Rows → table.Rows
    unfolding upsert
    increment row t = upsert table add_columns row t

    unfoldable pub record_spend : Moment → ℕ → ℕ → ℕ → ℕ → ℕ → String → table.Rows → table.Rows
    record_spend now tenant prompt completion cost calls purpose t =
        let (day, month) = period_keys now in
        let daily = spend_row now tenant "day" day prompt completion cost calls purpose in
        let monthly = spend_row now tenant "month" month prompt completion cost calls purpose in
        increment monthly (increment daily t)

    module _ (usd : Dollars) where
      abbrev pub checked : Settings usd.Usd → usd.Usd → usd.Usd → ℕ → Bool × Reason usd.Usd
      checked settings daily_cost monthly_cost daily_tokens =
          if usd.at_least daily_cost settings.budget_daily_usd_per_tenant
          then (false, daily_spend daily_cost settings.budget_daily_usd_per_tenant)
          else if usd.at_least monthly_cost settings.budget_monthly_usd_per_tenant
          then (false, monthly_spend monthly_cost settings.budget_monthly_usd_per_tenant)
          else if leb settings.budget_daily_tokens_per_tenant daily_tokens
          then (false, daily_judge_tokens daily_tokens settings.budget_daily_tokens_per_tenant)
          else (true, no_reason)

      unfoldable pub check_budget :
          Moment → ℕ → Settings usd.Usd → table.Rows → BudgetStatus usd.Usd
      check_budget now tenant settings t =
          let (day, month) = period_keys now in
          let daily = usage_row tenant "day" day t in
          let monthly = usage_row tenant "month" month t in
          let daily_cost = usd.micros_to_usd (cost_in daily) in
          let monthly_cost = usd.micros_to_usd (cost_in monthly) in
          let (allowed, reason) = checked settings daily_cost monthly_cost (tokens_in daily) in
          record {
            allowed = allowed;
            reason = reason;
            daily_cost_usd = daily_cost;
            monthly_cost_usd = monthly_cost;
            daily_tokens = tokens_in daily;
            daily_cap_usd = settings.budget_daily_usd_per_tenant;
            monthly_cap_usd = settings.budget_monthly_usd_per_tenant;
            daily_token_cap = settings.budget_daily_tokens_per_tenant;
          }
