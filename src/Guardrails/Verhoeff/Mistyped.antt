-- ===== src/Guardrails/Verhoeff/Mistyped.antt =====
-- The Verhoeff checksum of packages/obs-platform/src/obs_platform/guardrails/patterns.py and one
-- digit that changes.
use agent_lens_platform.Common.{
  nat_eq, ℕ, suc, ◌%◌, ◌<◌, ◌≡◌, ◌≢◌, refl, sym, ap, ◌∙◌, String, Bool, true, false, not, ◌&&◌,
  ◌||◌, List, [], ◌∷◌, ◌++◌, inl, inr, arith, Bool-cases, ltb, ◌==◌, length, length-append, All,
  zero,
}
use agent_lens_platform.Guardrails.Verhoeff.{times, permuted, checksum, aadhaar_valid}

-- A test on every number below a bound.
abbrev below : ℕ → (ℕ → Bool) → Bool
below zero p = true
below (suc n) p = p n && below n p

and_left : (a b : Bool) → (a && b) ≡ true → a ≡ true
and_left a b h = ground arith

and_right : (a b : Bool) → (a && b) ≡ true → b ≡ true
and_right a b h = ground arith

below_holds : (n i : ℕ) (p : ℕ → Bool) → below n p ≡ true → i < n → p i ≡ true
below_holds zero i p h lt = absurd (omega arith)
below_holds (suc n) i p h lt = elim (Bool-cases (i == n)) [
  | inl same ↦ ap p ((nat_eq.beq_iff i n).0 same) ∙ and_left (p n) (below n p) h
  | inr other ↦ below_holds n i p (and_right (p n) (below n p) h) (ground arith)
]

-- Whether equal results stand for equal arguments.
abbrev tells : ℕ → ℕ → ℕ → ℕ → Bool
tells x y a b = not (a == b) || x == y

-- A row of a table has digits, and no digit twice.
abbrev is_told : (ℕ → ℕ) → ℕ → Bool
is_told row x = ltb (row x) 10 && below 10 (λ y. tells x y (row x) (row y))

abbrev is_permutation : (ℕ → ℕ) → Bool
is_permutation row = below 10 (is_told row)

left_table : below 10 (λ c. is_permutation (times c)) ≡ true
unfolding times
left_table = refl

right_table : below 10 (λ x. is_permutation (λ c. times c x)) ≡ true
unfolding times
right_table = refl

permuted_table : below 8 (λ i. is_permutation (permuted i)) ≡ true
unfolding permuted
permuted_table = refl

told : (x y a b : ℕ) → tells x y a b ≡ true → a ≡ b → x ≡ y
told x y a b h e = ground arith

below_ten : (n : ℕ) → ltb n 10 ≡ true → n < 10
below_ten n h = ground arith

row_range : (row : ℕ → ℕ) (x : ℕ) → is_permutation row ≡ true → x < 10 → row x < 10
row_range row x h hx = below_ten (row x) (
    and_left (ltb (row x) 10) (below 10 (λ y. tells x y (row x) (row y)))
      (below_holds 10 x (is_told row) h hx))

row_cancel :
    (row : ℕ → ℕ) (x y : ℕ) → is_permutation row ≡ true → x < 10 → y < 10 → row x ≡ row y → x ≡ y
row_cancel row x y h hx hy =
    let others =
      and_right (ltb (row x) 10) (below 10 (λ y. tells x y (row x) (row y)))
        (below_holds 10 x (is_told row) h hx) in
    told x y (row x) (row y) (below_holds 10 y (λ y. tells x y (row x) (row y)) others hy)

left_row : (c : ℕ) → c < 10 → is_permutation (times c) ≡ true
left_row c hc = below_holds 10 c (λ c. is_permutation (times c)) left_table hc

right_row : (x : ℕ) → x < 10 → is_permutation (λ c. times c x) ≡ true
right_row x hx = below_holds 10 x (λ x. is_permutation (λ c. times c x)) right_table hx

permuted_row : (n : ℕ) → is_permutation (permuted (n % 8)) ≡ true
permuted_row n =
    let small : n % 8 < 8 = omega arith in
    below_holds 8 (n % 8) (λ i. is_permutation (permuted i)) permuted_table small

abbrev pub AreDigits : List ℕ → Type 0
AreDigits = All (λ d. d < 10)

checksum_range : (ds : List ℕ) → AreDigits ds → checksum ds < 10
unfolding checksum
checksum_range [] h = omega arith
checksum_range (d ∷ ds) h =
    row_range (times (checksum ds)) _ (left_row (checksum ds) (checksum_range ds h.1))
      (row_range (permuted (length ds % 8)) d (permuted_row (length ds)) h.0)

-- Two numbers that differ in one digit.
checksum-differs :
    (pre post : List ℕ) (a b : ℕ)
    → AreDigits (pre ++ a ∷ post)
    → AreDigits (pre ++ b ∷ post)
    → checksum (pre ++ a ∷ post) ≡ checksum (pre ++ b ∷ post)
    → a ≡ b
unfolding checksum
checksum-differs [] post a b ha hb e =
    let row = permuted_row (length post) in
    let swap = permuted (length post % 8) in
    row_cancel swap a b row ha.0 hb.0 (
      row_cancel (times (checksum post)) (swap a) (swap b)
        (left_row (checksum post) (checksum_range post ha.1)) (row_range swap a row ha.0)
        (row_range swap b row hb.0) e)
checksum-differs (d ∷ pre) post a b ha hb e =
    let n = length (pre ++ a ∷ post) in
    let same : length (pre ++ b ∷ post) ≡ n =
      omega (arith, length-append pre (a ∷ post), length-append pre (b ∷ post)) in
    let x = permuted (n % 8) d in
    let small = row_range (permuted (n % 8)) d (permuted_row n) ha.0 in
    checksum-differs pre post a b ha.1 hb.1 (
      row_cancel (λ c. times c x) (checksum (pre ++ a ∷ post)) (checksum (pre ++ b ∷ post))
        (right_row x small) (checksum_range _ ha.1) (checksum_range _ hb.1)
        (e ∙ ap (λ m. times (checksum (pre ++ b ∷ post)) (permuted (m % 8) d)) same))

valid-checksum :
    (digits_of : String → List ℕ) (v : String)
    → aadhaar_valid digits_of v ≡ true
    → checksum (digits_of v) ≡ 0
unfolding aadhaar_valid
valid-checksum digits_of v h = ground arith

-- A text whose digits, each below ten, differ from those of a valid Aadhaar number in exactly one
-- place is not valid.
pub aadhaar_valid-mistyped :
    (digits_of : String → List ℕ) (v v' : String) (pre post : List ℕ) (a b : ℕ)
    → AreDigits (digits_of v)
    → AreDigits (digits_of v')
    → digits_of v ≡ pre ++ a ∷ post
    → digits_of v' ≡ pre ++ b ∷ post
    → a ≢ b
    → aadhaar_valid digits_of v ≡ true
    → aadhaar_valid digits_of v' ≡ false
aadhaar_valid-mistyped digits_of v v' pre post a b hv hv' ev ev' differ h =
    elim (Bool-cases (aadhaar_valid digits_of v')) [
      | inl both ↦
          let equal : checksum (pre ++ a ∷ post) ≡ checksum (pre ++ b ∷ post) =
            sym (ap checksum ev)
            ∙ valid-checksum digits_of v h
            ∙ sym (valid-checksum digits_of v' both)
            ∙ ap checksum ev' in
          absurd (differ (checksum-differs pre post a b (rw ev at hv) (rw ev' at hv') equal))
      | inr refused ↦ refused
    ]
