-- ===== src/Common/Keys.antt =====
-- Equality of keys as an interface. Ids (message, trace, span, tenant) are opaque texts that the
-- platform compares and, where it locks rows, sorts: numbers stand for them.
use Prim.Native.Nat.{ℕ}
use Prim.Native.String.{String}
use mathlib.Core.Path.{◌≡◌, ap}
use mathlib.Core.Logic.{◌↔◌}
use mathlib.Core.Bool.{Bool, true, false, ◌&&◌, ◌||◌}
use mathlib.Core.List.{List, [], ◌∷◌}
use native.Mathlib.Omega.{arith}
use text.Mathlib.Text.{◌==◌ as string_beq}
use text.Mathlib.TextEquality.{eq_iff}
use agent_lens_platform.Common.Tests.{◌==◌, ==_iff}

pub record Eq {ℓ} (A : Type ℓ) : Type ℓ where
  pub beq : A → A → Bool
  pub beq_iff : (a b : A) → (beq a b ≡ true) ↔ (a ≡ b)

instance abbrev pub nat_eq : Eq ℕ
nat_eq = record { beq = ◌==◌; beq_iff = ==_iff }

instance abbrev pub string_eq : Eq String
string_eq = record { beq = string_beq; beq_iff = eq_iff }

pub pair_beq_iff : (a b : ℕ × ℕ) → ((a.0 == b.0 && a.1 == b.1) ≡ true) ↔ (a ≡ b)
pair_beq_iff (a, b) (c, d) = ground arith

instance abbrev pub pair_eq : Eq (ℕ × ℕ)
pair_eq = record { beq = λ a b. a.0 == b.0 && a.1 == b.1; beq_iff = pair_beq_iff }

and_true : (a b : Bool) → (a && b) ≡ true → (a ≡ true) × (b ≡ true)
and_true a b h = ground arith

module _ {A B : Type 0} (e : Eq A) (f : Eq B) where
  pub both_iff : (p q : A × B) → ((e.beq p.0 q.0 && f.beq p.1 q.1) ≡ true) ↔ (p ≡ q)
  both_iff (x, y) (z, w) = (
    λ h.
        (let parts = and_true (e.beq x z) (f.beq y w) h in
          rw ((e.beq_iff x z).0 parts.0, (f.beq_iff y w).0 parts.1)),
    λ h. rw ((e.beq_iff x z).1 (ap (λ p. p.0) h), (f.beq_iff y w).1 (ap (λ p. p.1) h)),
  )

  -- A composite key
  abbrev pub both_eq : Eq (A × B)
  both_eq = record { beq = λ p q. e.beq p.0 q.0 && f.beq p.1 q.1; beq_iff = both_iff }

-- `x in xs`
module _ {ℓ} {A : Type ℓ} ⦃e : Eq A⦄ where
  abbrev pub contains : List A → A → Bool
  contains [] a = false
  contains (x ∷ xs) a = e.beq x a || contains xs a
