-- ===== src/Tests/Detection.antt =====
-- A verdict of the injection detector.
use agent_lens_platform.Common.{◌≡◌, not, ◌&&◌, ◌||◌, none, [], ◌∷◌, leb, arith}
use agent_lens_platform.Common.Text.{prefix, is_text}
use agent_lens_platform.Severity.{high}
use agent_lens_platform.Injection.{Rule, max_scan_chars, scan}
use agent_lens_platform.Injection.Detects.{reaches, scan-detected}

abbrev any_text : Rule
any_text = record {
  name = "any_text";
  search = is_text;
  category = "override";
  severity = high;
  score = 80;
}

scan-detected_example :
    (scan 61 "lexical"
      (any_text ∷ [])
      (λ s. not (is_text s))
      (λ s. s)
      (λ s. (30, none))
      "ignore").detected
    ≡ (not (not (is_text "ignore"))
        && (reaches 61
              (prefix max_scan_chars "ignore")
              (prefix max_scan_chars "ignore")
              (any_text ∷ [])
            || leb 61 30))
scan-detected_example =
    scan-detected 61 "lexical" (any_text ∷ []) (λ s. not (is_text s)) (λ s. s) (λ s. (30, none))
      "ignore" (omega arith)
