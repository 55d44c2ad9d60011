-- ===== src/Pricing/Lookup.antt =====
-- `lookup` of packages/obs-platform/src/obs_platform/pricing.py: the longest key that occurs in the id.
use agent_lens_platform.Common.{
  ℕ, ◌≤◌, ◌≡◌, refl, ◌∙◌, String, true, false, none, some, [], ◌∷◌, ◌⊎◌, inl, inr, All, Some, arith,
}
use agent_lens_platform.Common.Text.{chars, is_text}
use agent_lens_platform.Pricing.{
  ModelPrice, Prices, Best, occurs, better, search_prices, price_of, lookup,
}

-- The best entry is at least as long as the key, if the key occurs in the id.
abbrev pub Dominates : String → Best → String × ModelPrice → Type 0
Dominates needle none (key, _) = occurs key needle ≡ false
Dominates needle (some (_, n)) (key, _) = (occurs key needle ≡ false) ⊎ (chars key ≤ n)

-- The entry has this price, and its key has this length and occurs in the id.
abbrev pub Provides : String → ModelPrice → ℕ → String × ModelPrice → Type 0
Provides needle p n (key, price) = (price ≡ p) × (chars key ≡ n) × (occurs key needle ≡ true)

abbrev pub Found : String → Best → Prices → Type 0
Found needle none prices = Unit
Found needle (some (p, n)) prices = Some (Provides needle p n) prices

-- What an earlier best entry dominates, a later one does.
abbrev Grows : Best → Best → Type 0
Grows none b = Unit
Grows (some (_, m)) none = ⊥
Grows (some (_, m)) (some (_, n)) = m ≤ n

better-Grows : (needle : String) (e : String × ModelPrice) (b : Best) → Grows b (better needle e b)
better-Grows needle (key, p) none = tt
better-Grows needle (key, p) (some (q, n)) = ground arith

better-Dominates :
    (needle : String) (e : String × ModelPrice) (b : Best) → Dominates needle (better needle e b) e
better-Dominates needle (key, p) none = ground arith
better-Dominates needle (key, p) (some (q, n)) = ground arith

Dominates-Grows :
    (needle : String) (a b : Best) (e : String × ModelPrice)
    → Grows a b
    → Dominates needle a e
    → Dominates needle b e
Dominates-Grows needle none none (key, p) g h = h
Dominates-Grows needle none (some (q, n)) (key, p) g h = inl h
Dominates-Grows needle (some (r, m)) none (key, p) g h = absurd g
Dominates-Grows needle (some (r, m)) (some (q, n)) (key, p) g h = ground arith

Grows-trans : (a b c : Best) → Grows a b → Grows b c → Grows a c
Grows-trans none b c g h = tt
Grows-trans (some (r, m)) none c g h = absurd g
Grows-trans (some (r, m)) (some (q, n)) none g h = absurd h
Grows-trans (some (r, m)) (some (q, n)) (some (p, k)) g h = omega arith

Grows-refl : (a : Best) → Grows a a
Grows-refl none = tt
Grows-refl (some (r, m)) = omega arith

search-Grows :
    (needle : String) (prices : Prices) (b : Best) → Grows b (search_prices needle prices b)
unfolding search_prices
search-Grows needle [] b = Grows-refl b
search-Grows needle (e ∷ prices) b =
    Grows-trans b (better needle e b) _ (better-Grows needle e b)
      (search-Grows needle prices (better needle e b))

search-Dominates :
    (needle : String) (prices : Prices) (b : Best)
    → All (Dominates needle (search_prices needle prices b)) prices
unfolding search_prices
search-Dominates needle [] b = tt
search-Dominates needle (e ∷ prices) b = (
  Dominates-Grows needle (better needle e b) _ e (search-Grows needle prices (better needle e b))
      (better-Dominates needle e b),
  search-Dominates needle prices (better needle e b),
)

-- The entry that is best came from the list, or was the best before.
better-cases :
    (needle key : String) (p : ModelPrice) (b : Best)
    → (better needle (key, p) b ≡ b)
      ⊎ ((better needle (key, p) b ≡ some (p, chars key)) × (occurs key needle ≡ true))
better-cases needle key p none = ground arith
better-cases needle key p (some (q, n)) = ground arith

abbrev Comes : String → Best → Prices → Best → Type 0
Comes needle b prices r = (r ≡ b) ⊎ Found needle r prices

Found-here :
    (needle key : String) (p : ModelPrice) (prices : Prices) (r : Best)
    → r ≡ some (p, chars key)
    → occurs key needle ≡ true
    → Found needle r ((key, p) ∷ prices)
Found-here needle key p prices r e h = rw e (inl (refl, refl, h))

Found-there :
    (needle : String) (e : String × ModelPrice) (prices : Prices) (r : Best)
    → Found needle r prices
    → Found needle r (e ∷ prices)
Found-there needle e prices none h = tt
Found-there needle e prices (some (p, n)) h = inr h

search-Comes :
    (needle : String) (prices : Prices) (b : Best)
    → Comes needle b prices (search_prices needle prices b)
unfolding search_prices
search-Comes needle [] b = inl refl
search-Comes needle ((key, p) ∷ prices) b =
    let r = search_prices needle prices (better needle (key, p) b) in
    elim (search-Comes needle prices (better needle (key, p) b)) [
      | inr there ↦ inr (Found-there needle (key, p) prices r there)
      | inl same ↦ elim (better-cases needle key p b) [
        | inl old ↦ inl (same ∙ old)
        | inr (new, h) ↦ inr (Found-here needle key p prices r (same ∙ new) h)
      ]
    ]

-- What `lookup` returns, for an id that is not empty: no price when no key occurs in the id, and
-- otherwise the price of a key that occurs in it, than which no key that occurs in it is longer.
pub record IsLongestMatch (needle : String) (prices : Prices) (best : Best) : Type 0 where
  pub found : Found needle best prices
  pub dominates : All (Dominates needle best) prices

Found-nothing :
    (needle : String) (prices : Prices) (r : Best)
    → Comes needle none prices r
    → Found needle r prices
Found-nothing needle prices none h = tt
Found-nothing needle prices (some (p, n)) (inl h) = cc
Found-nothing needle prices (some (p, n)) (inr h) = h

-- The price that `lookup` returns for a model id that is not empty is that of the longest key that
-- occurs anywhere in the cleaned id; there is no price exactly when no key occurs in it.
pub lookup-IsLongestMatch :
    (clean : String → String) (prices : Prices) (model : String)
    → is_text model ≡ true
    → (best : Best) × (lookup clean prices (some model) ≡ price_of best)
      × IsLongestMatch (clean model) prices best
unfolding lookup
lookup-IsLongestMatch clean prices model h =
    let best = search_prices (clean model) prices none in
    (
      best,
      rw h,
      record {
        found = Found-nothing (clean model) prices best (search-Comes (clean model) prices none);
        dominates = search-Dominates (clean model) prices none;
      },
    )
