-- ===== src/Pricing.antt =====
-- packages/obs-platform/src/obs_platform/pricing.py: the price of a model id and the cost of a call.
-- A price is in thousandths of a dollar per million tokens, which every entry of `DEFAULT_PRICES` is a
-- whole number of; the source computes with floats. `model.strip().lower()` is the argument `clean`.
pub mod Lookup
pub mod Cost
use agent_lens_platform.Common.{
  ℕ, ◌+◌, ◌*◌, ◌/◌, ◌%◌, String, Bool, true, ◌&&◌, ◌||◌, Option, none, some, List, [], ◌∷◌, ltb,
  string_eq, if◌then◌else◌,
}
use agent_lens_platform.Common.Text.{chars, is_text, starts_with}

-- `ModelPrice`
pub record ModelPrice : Type 0 where
  pub input_per_mtok : ℕ
  pub output_per_mtok : ℕ

abbrev pub Prices : Type 0
Prices = List (String × ModelPrice)

-- `part in text`
unfoldable pub occurs : String → String → Bool
unfolding starts_with
occurs part String.[] = starts_with part String.[]
occurs part (String.◌∷◌ c s) = starts_with part (String.◌∷◌ c s) || occurs part s

-- The best entry so far: its price and the length of its key.
abbrev pub Best : Type 0
Best = Option (ModelPrice × ℕ)

abbrev pub is_longer : ℕ → Best → Bool
is_longer n none = true
is_longer n (some (_, best_len)) = ltb best_len n

abbrev pub better : String → String × ModelPrice → Best → Best
better needle (key, price) best =
    if occurs key needle && is_longer (chars key) best then some (price, chars key) else best

-- The loop of `lookup`.
unfoldable pub search_prices : String → Prices → Best → Best
unfolding occurs
search_prices needle [] best = best
search_prices needle (entry ∷ prices) best = search_prices needle prices (better needle entry best)

abbrev pub price_of : Best → Option ModelPrice
price_of none = none
price_of (some (price, _)) = some price

module _ (clean : String → String) where
  unfoldable pub lookup : Prices → Option String → Option ModelPrice
  unfolding search_prices
  lookup prices none = none
  lookup prices (some model) =
      if is_text model then price_of (search_prices (clean model) prices none) else none

-- Python's integers, for the token counts.
pub data ℤ : Type 0 where
  pos : ℕ → ℤ
  negsuc : ℕ → ℤ

-- `max(0, n)`
abbrev pub clamp : ℤ → ℕ
clamp (pos n) = n
clamp (negsuc _) = 0

-- `round(n / 1000)`: to the nearest, and from the middle to the even neighbour
unfoldable pub round_thousandth : ℕ → ℕ
round_thousandth n =
    let q = n / 1000 in
    let r = n % 1000 in if ltb r 500 then q else if ltb 500 r then q + 1 else q + q % 2

unfoldable pub cost_of : Option ModelPrice → ℤ → ℤ → ℕ
unfolding round_thousandth
cost_of none prompt completion = 0
cost_of (some price) prompt completion =
    round_thousandth
      (clamp prompt * price.input_per_mtok + clamp completion * price.output_per_mtok)

-- `_unknown`: how often each model without a price was met.
abbrev pub Unknown : Type 0
Unknown = List (String × ℕ)

unfoldable pub note_unknown : String → Unknown → Unknown
note_unknown model [] = (model, 1) ∷ []
note_unknown model ((m, n) ∷ rest) =
    if string_eq.beq m model then (m, n + 1) ∷ rest else (m, n) ∷ note_unknown model rest

abbrev pub noted : Option ModelPrice → Option String → Unknown → Unknown
noted (some _) model unknown = unknown
noted none none unknown = unknown
noted none (some model) unknown = if is_text model then note_unknown model unknown else unknown

unfoldable pub cost_micros :
    (String → String) → Prices → Option String → ℤ → ℤ → Unknown → ℕ × Unknown
unfolding lookup cost_of note_unknown
cost_micros clean prices model prompt completion unknown =
    let price = lookup clean prices model in
    (cost_of price prompt completion, noted price model unknown)
