-- ===== src/Pricing/Cost.antt =====
-- The cost of a call, `cost_micros` of packages/obs-platform/src/obs_platform/pricing.py.
use agent_lens_platform.Common.{ℕ, ◌+◌, ◌*◌, ◌≤◌, ◌≡◌, String, Option, none, some, arith}
use agent_lens_platform.Pricing.{
  ModelPrice, Prices, Unknown, ℤ, clamp, round_thousandth, lookup, cost_of, cost_micros,
}

round_thousandth_near :
    (n : ℕ) → (1000 * round_thousandth n ≤ n + 500) × (n ≤ 1000 * round_thousandth n + 500)
unfolding round_thousandth
round_thousandth_near n = ground arith

round_thousandth_mono : (m n : ℕ) → m ≤ n → round_thousandth m ≤ round_thousandth n
unfolding round_thousandth
round_thousandth_mono m n h = ground arith

-- The exact cost, in thousandths of a micro-dollar.
abbrev pub exact_cost : ModelPrice → ℤ → ℤ → ℕ
exact_cost price prompt completion =
    clamp prompt * price.input_per_mtok + clamp completion * price.output_per_mtok

exact_mono : (p q a b c d : ℕ) → a ≤ b → c ≤ d → a * p + c * q ≤ b * p + d * q
exact_mono p q a b c d h k = grind arith

module _ (clean : String → String) (prices : Prices) (model : Option String)
    (unknown : Unknown) where
  -- The cost is within half a micro-dollar of the exact one, at the model's price.
  pub cost_micros_near :
      (price : ModelPrice) (prompt completion : ℤ)
      → lookup clean prices model ≡ some price
      → let cost = (cost_micros clean prices model prompt completion unknown).0 in
        (1000 * cost ≤ exact_cost price prompt completion + 500)
        × (exact_cost price prompt completion ≤ 1000 * cost + 500)
  unfolding cost_micros
  cost_micros_near price prompt completion h =
      rw h (round_thousandth_near (exact_cost price prompt completion))

  -- More tokens never cost less, and a negative count costs as much as zero: no call can reduce what
  -- a tenant has spent.
  pub cost_micros_mono :
      (p p' c c' : ℤ)
      → clamp p ≤ clamp p'
      → clamp c ≤ clamp c'
      → (cost_micros clean prices model p c unknown).0
        ≤ (cost_micros clean prices model p' c' unknown).0
  unfolding cost_micros
  cost_micros_mono p p' c c' h k = go (lookup clean prices model)
    where
      go : (price : Option ModelPrice) → cost_of price p c ≤ cost_of price p' c'
      go none = omega arith
      go (some price) = round_thousandth_mono _ _ (
          exact_mono price.input_per_mtok price.output_per_mtok (clamp p) (clamp p') (clamp c)
            (clamp c') h k)
