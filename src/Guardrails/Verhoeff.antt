-- ===== src/Guardrails/Verhoeff.antt =====
-- `aadhaar_valid` of packages/obs-platform/src/obs_platform/guardrails/patterns.py: the Verhoeff
-- checksum. `digits_of` is the list of the decimal digits of a text, by a regular expression and `int`.
pub mod Mistyped
use agent_lens_platform.Common.{
  nat_eq, ℕ, suc, ◌%◌, String, Bool, false, not, ◌||◌, List, [], ◌∷◌, ltb, ◌==◌, if◌then◌else◌,
  length, zero,
}

-- `table[i]`, for an index in range
abbrev pub at {ℓ} : {A : Type ℓ} → A → ℕ → List A → A
at d i [] = d
at d zero (x ∷ xs) = x
at d (suc i) (x ∷ xs) = at d i xs

-- `_VERHOEFF_D`
abbrev pub verhoeff_d : List (List ℕ)
verhoeff_d =
    (0 ∷ 1 ∷ 2 ∷ 3 ∷ 4 ∷ 5 ∷ 6 ∷ 7 ∷ 8 ∷ 9 ∷ [])
    ∷ (1 ∷ 2 ∷ 3 ∷ 4 ∷ 0 ∷ 6 ∷ 7 ∷ 8 ∷ 9 ∷ 5 ∷ [])
    ∷ (2 ∷ 3 ∷ 4 ∷ 0 ∷ 1 ∷ 7 ∷ 8 ∷ 9 ∷ 5 ∷ 6 ∷ [])
    ∷ (3 ∷ 4 ∷ 0 ∷ 1 ∷ 2 ∷ 8 ∷ 9 ∷ 5 ∷ 6 ∷ 7 ∷ [])
    ∷ (4 ∷ 0 ∷ 1 ∷ 2 ∷ 3 ∷ 9 ∷ 5 ∷ 6 ∷ 7 ∷ 8 ∷ [])
    ∷ (5 ∷ 9 ∷ 8 ∷ 7 ∷ 6 ∷ 0 ∷ 4 ∷ 3 ∷ 2 ∷ 1 ∷ [])
    ∷ (6 ∷ 5 ∷ 9 ∷ 8 ∷ 7 ∷ 1 ∷ 0 ∷ 4 ∷ 3 ∷ 2 ∷ [])
    ∷ (7 ∷ 6 ∷ 5 ∷ 9 ∷ 8 ∷ 2 ∷ 1 ∷ 0 ∷ 4 ∷ 3 ∷ [])
    ∷ (8 ∷ 7 ∷ 6 ∷ 5 ∷ 9 ∷ 3 ∷ 2 ∷ 1 ∷ 0 ∷ 4 ∷ [])
    ∷ (9 ∷ 8 ∷ 7 ∷ 6 ∷ 5 ∷ 4 ∷ 3 ∷ 2 ∷ 1 ∷ 0 ∷ [])
    ∷ []

-- `_VERHOEFF_P`
abbrev pub verhoeff_p : List (List ℕ)
verhoeff_p =
    (0 ∷ 1 ∷ 2 ∷ 3 ∷ 4 ∷ 5 ∷ 6 ∷ 7 ∷ 8 ∷ 9 ∷ [])
    ∷ (1 ∷ 5 ∷ 7 ∷ 6 ∷ 2 ∷ 8 ∷ 3 ∷ 0 ∷ 9 ∷ 4 ∷ [])
    ∷ (5 ∷ 8 ∷ 0 ∷ 3 ∷ 7 ∷ 9 ∷ 6 ∷ 1 ∷ 4 ∷ 2 ∷ [])
    ∷ (8 ∷ 9 ∷ 1 ∷ 6 ∷ 0 ∷ 4 ∷ 3 ∷ 5 ∷ 2 ∷ 7 ∷ [])
    ∷ (9 ∷ 4 ∷ 5 ∷ 3 ∷ 1 ∷ 2 ∷ 6 ∷ 8 ∷ 7 ∷ 0 ∷ [])
    ∷ (4 ∷ 2 ∷ 8 ∷ 6 ∷ 5 ∷ 7 ∷ 3 ∷ 9 ∷ 0 ∷ 1 ∷ [])
    ∷ (2 ∷ 7 ∷ 9 ∷ 3 ∷ 8 ∷ 0 ∷ 6 ∷ 4 ∷ 1 ∷ 5 ∷ [])
    ∷ (7 ∷ 0 ∷ 4 ∷ 6 ∷ 9 ∷ 1 ∷ 3 ∷ 2 ∷ 5 ∷ 8 ∷ [])
    ∷ []

unfoldable pub times : ℕ → ℕ → ℕ
times c d = at 0 d (at [] c verhoeff_d)

unfoldable pub permuted : ℕ → ℕ → ℕ
permuted i d = at 0 d (at [] i verhoeff_p)

-- The loop over `enumerate(reversed(digits))`: a digit's index is the number of those behind it.
unfoldable pub checksum : List ℕ → ℕ
checksum [] = 0
checksum (d ∷ digits) = times (checksum digits) (permuted (length digits % 8) d)

-- `digits[0] in "01"`, of ASCII digits: a digit of another script, which the source compares as a
-- character and counts by its value, is outside of the model.
abbrev pub starts_low : List ℕ → Bool
starts_low [] = false
starts_low (d ∷ digits) = ltb d 2

unfoldable pub aadhaar_valid : (String → List ℕ) → String → Bool
unfolding checksum
aadhaar_valid digits_of value =
    let digits = digits_of value in
    if not (length digits == 12) || starts_low digits then false else checksum digits == 0
