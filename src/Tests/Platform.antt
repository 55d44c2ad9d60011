-- ===== src/Tests/Platform.antt =====
-- Witnesses for the smaller components.
use agent_lens_platform.Common.{◌≡◌, refl, String, some, List, [], ◌∷◌}
use agent_lens_platform.Severity.{critical, max_of, of_text}
use agent_lens_platform.Pricing.{Prices, lookup, price_of, Best}
use agent_lens_platform.Pricing.Lookup.{IsLongestMatch, lookup-IsLongestMatch}

abbrev texts : List String
texts = "low" ∷ "unheard-of" ∷ "critical" ∷ "high" ∷ []

worst : max_of texts ≡ critical
unfolding max_of of_text
worst = refl

abbrev prices : Prices
prices =
    ("gpt-4o", record { input_per_mtok = 2_500; output_per_mtok = 10_000 })
    ∷ ("gpt-4o-mini", record { input_per_mtok = 150; output_per_mtok = 600 })
    ∷ []

lookup-IsLongestMatch_example :
    (best : Best) × (lookup (λ s. s) prices (some "openai/gpt-4o-mini") ≡ price_of best)
    × IsLongestMatch "openai/gpt-4o-mini" prices best
lookup-IsLongestMatch_example = lookup-IsLongestMatch (λ s. s) prices "openai/gpt-4o-mini" refl
