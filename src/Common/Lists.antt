-- ===== src/Common/Lists.antt =====
-- Lists over the native numbers, under the library's names, and predicates by recursion.
use Prim.Native.Nat.{ℕ, zero, suc, ◌+◌, ◌≤◌, min}
use mathlib.Core.Path.{◌≡◌, refl, ap}
use mathlib.Core.Logic.{◌⊎◌}
use mathlib.Core.Bool.{Bool, true, false, ◌||◌}
use mathlib.Core.List.{List, [], ◌∷◌, ◌++◌, map}
use native.Mathlib.Omega.{arith}
use agent_lens_platform.Common.Tests.{if◌then◌else◌}

module _ {ℓ} {A : Type ℓ} where
  abbrev pub length : List A → ℕ
  length [] = 0
  length (x ∷ xs) = suc (length xs)

  abbrev pub take : ℕ → List A → List A
  take zero xs = []
  take (suc n) [] = []
  take (suc n) (x ∷ xs) = x ∷ take n xs

  abbrev pub drop : ℕ → List A → List A
  drop zero xs = xs
  drop (suc n) [] = []
  drop (suc n) (x ∷ xs) = drop n xs

  abbrev pub replicate : ℕ → A → List A
  replicate zero a = []
  replicate (suc n) a = a ∷ replicate n a

  -- `[x for x in xs if p(x)]`
  abbrev pub filter : (A → Bool) → List A → List A
  filter p [] = []
  filter p (x ∷ xs) = if p x then x ∷ filter p xs else filter p xs

  abbrev pub any : (A → Bool) → List A → Bool
  any p [] = false
  any p (x ∷ xs) = p x || any p xs

  abbrev pub is_empty : List A → Bool
  is_empty [] = true
  is_empty (_ ∷ _) = false

module _ {ℓ} {A : Type ℓ} where
  pub length-append : (xs ys : List A) → length (xs ++ ys) ≡ length xs + length ys
  length-append [] ys = omega arith
  length-append (x ∷ xs) ys = omega (arith, length-append xs ys)

  pub length-take : (n : ℕ) (xs : List A) → length (take n xs) ≡ min n (length xs)
  length-take zero xs = omega arith
  length-take (suc n) [] = omega arith
  length-take (suc n) (x ∷ xs) = omega (arith, length-take n xs)

  pub length-map {κ} : {B : Type κ} (xs : List A) (f : A → B) → length (map f xs) ≡ length xs
  length-map [] f = refl
  length-map (x ∷ xs) f = ap suc (length-map xs f)

  pub length-filter-le : (p : A → Bool) (xs : List A) → length (filter p xs) ≤ length xs
  length-filter-le p [] = omega arith
  length-filter-le p (x ∷ xs) = ground (arith, length-filter-le p xs)

abbrev pub All {ℓ κ} : {A : Type ℓ} → (A → Type κ) → List A → Type κ
All P [] = Unit
All P (x ∷ xs) = P x × All P xs

module _ {ℓ κ} {A : Type ℓ} (P : A → Type κ) where
  pub All-append : (xs ys : List A) → All P xs → All P ys → All P (xs ++ ys)
  All-append [] ys h k = k
  All-append (x ∷ xs) ys h k = (h.0, All-append xs ys h.1 k)

-- Some element of the list has the property.
abbrev pub Some {ℓ} : {A : Type ℓ} → (A → Type 0) → List A → Type 0
Some P [] = ⊥
Some P (x ∷ xs) = P x ⊎ Some P xs

or_false_left : (a b : Bool) → (a || b) ≡ false → a ≡ false
or_false_left a b h = ground arith

or_false_right : (a b : Bool) → (a || b) ≡ false → b ≡ false
or_false_right a b h = ground arith

pub All-any-false {ℓ} :
    {A : Type ℓ} (X : Type 0) (p : A → Bool) (xs : List A)
    → (X → any p xs ≡ false)
    → All (λ x. X → p x ≡ false) xs
All-any-false X p [] h = tt
All-any-false X p (x ∷ xs) h = (
  λ k. or_false_left (p x) (any p xs) (h k),
  All-any-false X p xs (λ k. or_false_right (p x) (any p xs) (h k)),
)

pub All-zip {ℓ} :
    {A : Type ℓ} (P Q R : A → Type 0) (xs : List A)
    → ((x : A) → P x → Q x → R x)
    → All P xs
    → All Q xs
    → All R xs
All-zip P Q R [] f h k = tt
All-zip P Q R (x ∷ xs) f h k = (f x h.0 k.0, All-zip P Q R xs f h.1 k.1)
