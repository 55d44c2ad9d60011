-- ===== src/Severity.antt =====
-- `Severity` of packages/obs-sdk/src/obs_sdk/schema.py: the ladder that findings, alerts and drift
-- signals share. A value of `list[Severity | str]` is its text.
pub mod Max
use agent_lens_platform.Common.{
  ℕ, String, Bool, Option, none, some, List, [], ◌∷◌, leb, ltb, string_eq, if◌then◌else◌,
}

pub data Severity : Type 0 where
  info low medium high critical : Severity

-- `SEVERITY_RANK`, read through `Severity.rank`
abbrev pub rank : Severity → ℕ
rank info = 0
rank low = 1
rank medium = 2
rank high = 3
rank critical = 4

-- `severity.value`
abbrev pub text : Severity → String
text info = "info"
text low = "low"
text medium = "medium"
text high = "high"
text critical = "critical"

-- `Severity(value)`; `none` is the `ValueError`
unfoldable pub of_text : String → Option Severity
of_text s =
    if string_eq.beq s "info"
    then some info
    else if string_eq.beq s "low"
    then some low
    else if string_eq.beq s "medium"
    then some medium
    else if string_eq.beq s "high"
    then some high
    else if string_eq.beq s "critical"
    then some critical
    else none

-- `Severity.at_least` on two members
unfoldable pub at_least : Severity → Severity → Bool
at_least value floor = leb (rank floor) (rank value)

-- one round of the loop of `max_of`: an unknown text is skipped
unfoldable pub raise_to : Severity → Option Severity → Severity
raise_to best none = best
raise_to best (some candidate) = if ltb (rank best) (rank candidate) then candidate else best

unfoldable pub max_from : Severity → List String → Severity
unfolding raise_to
max_from best [] = best
max_from best (value ∷ values) = max_from (raise_to best (of_text value)) values

-- `Severity.max_of`
unfoldable pub max_of : List String → Severity
unfolding max_from
max_of values = max_from info values
