-- ===== src/Common/Text.antt =====
-- Python's slices and truth values of texts, and JSON values.
use Prim.Native.Nat.{ℕ, zero, suc, ◌-◌, ◌≤◌}
use Prim.Native.Char.{code}
use Prim.Native.String.{String}
use mathlib.Core.Bool.{Bool, true, false, ◌&&◌}
use mathlib.Core.Path.{◌≡◌, refl, ap, ◌∙◌, sym}
use mathlib.Core.Logic.{inl, inr}
use mathlib.Core.Option.{Option, none, some}
use native.Mathlib.Omega.{arith}
use agent_lens_platform.Common.Tests.{if◌then◌else◌, ◌==◌, Bool-cases}
use agent_lens_platform.Common.Keys.{string_eq}

-- `text[:n]`
unfoldable pub prefix : ℕ → String → String
prefix zero s = String.[]
prefix (suc n) String.[] = String.[]
prefix (suc n) (String.◌∷◌ c s) = String.◌∷◌ c (prefix n s)

-- `len(text)`
abbrev pub chars : String → ℕ
chars String.[] = 0
chars (String.◌∷◌ c s) = suc (chars s)

pub chars-prefix-le : (n : ℕ) (s : String) → chars (prefix n s) ≤ n
unfolding prefix
chars-prefix-le zero s = omega arith
chars-prefix-le (suc n) String.[] = omega arith
chars-prefix-le (suc n) (String.◌∷◌ c s) = omega (arith, chars-prefix-le n s)

-- `text[n:]`
unfoldable pub suffix : ℕ → String → String
suffix zero s = s
suffix (suc n) String.[] = String.[]
suffix (suc n) (String.◌∷◌ c s) = suffix n s

-- `s + t`
unfoldable pub join : String → String → String
join String.[] t = t
join (String.◌∷◌ c s) t = String.◌∷◌ c (join s t)

pub join-empty : (s : String) → join s "" ≡ s
unfolding join
join-empty String.[] = refl
join-empty (String.◌∷◌ c s) = ap (λ t. String.◌∷◌ c t) (join-empty s)

pub join-prefix : (n : ℕ) (s : String) → join (prefix n s) (suffix n s) ≡ s
unfolding prefix suffix join
join-prefix zero s = refl
join-prefix (suc n) String.[] = refl
join-prefix (suc n) (String.◌∷◌ c s) = ap (λ t. String.◌∷◌ c t) (join-prefix n s)

minus_zero : (j : ℕ) → j - 0 ≡ j
minus_zero j = omega arith

minus_suc : (i j : ℕ) → suc j - suc i ≡ j - i
minus_suc i j = omega arith

suc-le : (i : ℕ) → suc i ≤ 0 → ⊥
suc-le i h = omega arith

-- `text[i:j]`
unfoldable pub slice : ℕ → ℕ → String → String
unfolding prefix suffix
slice i j s = prefix (j - i) (suffix i s)

prefix-empty : (n : ℕ) → prefix n String.[] ≡ String.[]
unfolding prefix
prefix-empty zero = refl
prefix-empty (suc n) = refl

pub join-slice : (i j : ℕ) (s : String) → i ≤ j → join (slice i j s) (suffix j s) ≡ suffix i s
unfolding slice suffix join
join-slice zero j s h = rw (minus_zero j) (join-prefix j s)
join-slice (suc i) zero s h = absurd (suc-le i h)
join-slice (suc i) (suc j) String.[] h = rw (prefix-empty (suc j - suc i)) refl
join-slice (suc i) (suc j) (String.◌∷◌ c s) h = rw (minus_suc i j) (join-slice i j s (omega arith))

-- `bool(text)`
abbrev pub is_text : String → Bool
is_text String.[] = false
is_text (String.◌∷◌ _ _) = true

-- `text.startswith(part)`
unfoldable pub starts_with : String → String → Bool
starts_with String.[] s = true
starts_with (String.◌∷◌ c p) String.[] = false
starts_with (String.◌∷◌ c p) (String.◌∷◌ d s) = code c == code d && starts_with p s

-- A value that `json.loads` returns. A float is whether it differs from zero, and its text.
mutual
  pub data Json : Type 0 where
    null : Json
    bool : Bool → Json
    int : Bool → ℕ → Json
    float : Bool → String → Json
    text : String → Json
    arr : Items → Json
    obj : Fields → Json

  pub data Items : Type 0 where
    nil : Items
    cons : Json → Items → Items

  pub data Fields : Type 0 where
    end : Fields
    field : String → Json → Fields → Fields

-- `bool(value)`
abbrev pub truthy : Json → Bool
truthy null = false
truthy (bool b) = b
truthy (int _ zero) = false
truthy (int _ (suc _)) = true
truthy (float b _) = b
truthy (text s) = is_text s
truthy (arr nil) = false
truthy (arr (cons _ _)) = true
truthy (obj end) = false
truthy (obj (field _ _ _)) = true

-- `d.get(k)`
unfoldable pub get : String → Fields → Option Json
get k end = none
get k (field j v d) = if string_eq.beq j k then some v else get k d

-- `k in d`
abbrev pub has : String → Fields → Bool
has k end = false
has k (field j v d) = if string_eq.beq j k then true else has k d

-- `d[k] = v`
unfoldable pub put : String → Json → Fields → Fields
put k v end = field k v end
put k v (field j w d) = if string_eq.beq j k then field j v d else field j w (put k v d)

-- `d.pop(k)`, on a key that is there or not
unfoldable pub remove : String → Fields → Fields
remove k end = end
remove k (field j w d) = if string_eq.beq j k then d else field j w (remove k d)

-- `d.update(e)`
unfoldable pub update_fields : Fields → Fields → Fields
unfolding put
update_fields d end = d
update_fields d (field k v e) = update_fields (put k v d) e

false-true : false ≡ true → ⊥
false-true h = cc

put_kept :
    (i j k : String) (v w : Json) (o : Option Json)
    → string_eq.beq i j ≡ true
    → (if string_eq.beq i k then some v else o)
      ≡ (if string_eq.beq j k then some v else if string_eq.beq i k then some w else o)
put_kept i j k v w o same =
    rw ((string_eq.beq_iff i j).0 same) (elim (Bool-cases (string_eq.beq j k)) [
      | inl key ↦ rw key refl
      | inr elsewhere ↦ rw elsewhere refl
    ])

put_other :
    (i j k : String) (v w : Json) (o : Option Json)
    → string_eq.beq i j ≡ false
    → (if string_eq.beq i k then some w else if string_eq.beq j k then some v else o)
      ≡ (if string_eq.beq j k then some v else if string_eq.beq i k then some w else o)
put_other i j k v w o different = elim (Bool-cases (string_eq.beq i k)) [
  | inl here ↦ elim (Bool-cases (string_eq.beq j k)) [
    | inl there ↦ absurd (
        false-true (
          sym different
          ∙ (string_eq.beq_iff i j).1
              ((string_eq.beq_iff i k).0 here ∙ sym ((string_eq.beq_iff j k).0 there))))
    | inr there ↦ rw (here, there) refl
  ]
  | inr elsewhere ↦ rw elsewhere refl
]

pub get-put :
    (j k : String) (v : Json) (d : Fields)
    → get k (put j v d) ≡ (if string_eq.beq j k then some v else get k d)
unfolding get put
get-put j k v end = refl
get-put j k v (field i w d) = elim (Bool-cases (string_eq.beq i j)) [
  | inl same ↦ rw same (put_kept i j k v w (get k d) same)
  | inr different ↦ rw (different, get-put j k v d) (put_other i j k v w (get k d) different)
]
