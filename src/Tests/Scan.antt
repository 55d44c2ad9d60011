-- ===== src/Tests/Scan.antt =====
-- Runs of the overlap resolution, of a scan and of a checksum at concrete inputs.
use agent_lens_platform.Common.{
  ◌≡◌, refl, true, List, [], ◌∷◌, arith, All, Some, length, string_eq, if◌then◌else◌, false, ◌<◌,
  ◌++◌, ℕ, String,
}
use agent_lens_platform.Guardrails.Verhoeff.{times, permuted, aadhaar_valid}
use agent_lens_platform.Guardrails.Verhoeff.Mistyped.{AreDigits, aadhaar_valid-mistyped}
use agent_lens_platform.Severity.{medium, critical}
use agent_lens_platform.Guardrails.{Match, Pattern, resolve_overlaps, scan_patterns}
use agent_lens_platform.Guardrails.Overlaps.{IsChain, resolve_overlaps-IsChain}
use agent_lens_platform.Guardrails.Strength.{Covers, resolve_overlaps-Covers}

-- A card number that also looks like a telephone number, and an address after it.
abbrev found : List Match
found =
    record {
      pattern = "PHONE_NUMBER";
      severity = medium;
      score = 600;
      start = 3;
      end = 15;
      value = "4111 1111 11";
      masked = "*********111";
    }
    ∷ record {
      pattern = "CREDIT_CARD";
      severity = critical;
      score = 990;
      start = 3;
      end = 22;
      value = "4111 1111 1111 1111";
      masked = "***************1111";
    }
    ∷ record {
      pattern = "EMAIL_ADDRESS";
      severity = medium;
      score = 950;
      start = 30;
      end = 35;
      value = "a@b.c";
      masked = "a***@b.c";
    }
    ∷ []

two_kept : length (resolve_overlaps found) ≡ 2
unfolding resolve_overlaps
two_kept = refl

resolve_overlaps-IsChain_example : IsChain (resolve_overlaps found)
resolve_overlaps-IsChain_example =
    resolve_overlaps-IsChain found (omega arith, (omega arith, (omega arith, tt)))

resolve_overlaps-Covers_example : All (λ m. Some (Covers m) (resolve_overlaps found)) found
resolve_overlaps-Covers_example = resolve_overlaps-Covers found

abbrev digits : Pattern
digits = record {
  name = "PHONE_NUMBER";
  severity = medium;
  score = 600;
  spans = λ text. (0, (2, "12")) ∷ (3, (5, "34")) ∷ [];
  validator = λ value. true;
  mask = λ value. "**";
}

-- With a limit of one match, two patterns find one each.
over_the_limit : length (scan_patterns 1 "12 34" (digits ∷ digits ∷ []) []) ≡ 2
unfolding scan_patterns
over_the_limit = refl

abbrev stem : List ℕ
stem = 2 ∷ 3 ∷ 4 ∷ 1 ∷ 2 ∷ 3 ∷ 4 ∷ 1 ∷ 2 ∷ 3 ∷ 4 ∷ []

abbrev read_digits : String → List ℕ
read_digits text = if string_eq.beq text "2341 2341 2346" then stem ++ 6 ∷ [] else stem ++ 7 ∷ []

are_digits : (n : ℕ) → n < 10 → AreDigits (stem ++ n ∷ [])
are_digits n h = ground arith

aadhaar_valid-mistyped_example : aadhaar_valid read_digits "2341 2341 2347" ≡ false
unfolding aadhaar_valid times permuted
aadhaar_valid-mistyped_example =
    aadhaar_valid-mistyped read_digits "2341 2341 2346" "2341 2341 2347" stem [] 6 7
      (are_digits 6 (omega arith)) (are_digits 7 (omega arith)) refl refl (λ e. omega arith) refl
