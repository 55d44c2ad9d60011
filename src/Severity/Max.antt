-- ===== src/Severity/Max.antt =====
-- `Severity.max_of` of packages/obs-sdk/src/obs_sdk/schema.py against its description: the highest
-- member that the list names, texts that name none left out.
use agent_lens_platform.Common.{
  ◌≤◌, String, ◌≡◌, refl, Option, none, some, List, [], ◌∷◌, ◌⊎◌, inl, arith, All,
}
use agent_lens_platform.Severity.{Severity, info, rank, of_text, raise_to, max_from, max_of}

-- `b` ranks at least as high as what the text names, if it names anything.
abbrev pub Covers : Severity → String → Type 0
Covers b v = (s : Severity) → of_text v ≡ some s → rank s ≤ rank b

-- Some text of the list names `b`.
abbrev pub Named : Severity → List String → Type 0
Named b [] = ⊥
Named b (v ∷ vs) = (of_text v ≡ some b) ⊎ Named b vs

raise_to-ge : (b : Severity) (o : Option Severity) → rank b ≤ rank (raise_to b o)
unfolding raise_to
raise_to-ge b none = omega arith
raise_to-ge b (some c) = ground arith

raise_to-Covers : (b : Severity) (v : String) → Covers (raise_to b (of_text v)) v
unfolding raise_to
raise_to-Covers b v s e = ground arith

raise_to-cases :
    (b : Severity) (o : Option Severity) → (raise_to b o ≡ b) ⊎ (o ≡ some (raise_to b o))
unfolding raise_to
raise_to-cases b none = inl refl
raise_to-cases b (some c) = ground arith

max_from-ge : (b : Severity) (vs : List String) → rank b ≤ rank (max_from b vs)
unfolding max_from
max_from-ge b [] = omega arith
max_from-ge b (v ∷ vs) =
    omega (arith, raise_to-ge b (of_text v), max_from-ge (raise_to b (of_text v)) vs)

max_from-Covers : (b : Severity) (vs : List String) → All (Covers (max_from b vs)) vs
unfolding max_from
max_from-Covers b [] = tt
max_from-Covers b (v ∷ vs) = (
  λ s e. omega (arith, raise_to-Covers b v s e, max_from-ge (raise_to b (of_text v)) vs),
  max_from-Covers (raise_to b (of_text v)) vs,
)

max_from-Named : (b : Severity) (vs : List String) → (max_from b vs ≡ b) ⊎ Named (max_from b vs) vs
unfolding max_from
max_from-Named b [] = inl refl
max_from-Named b (v ∷ vs) =
    ground (arith, max_from-Named (raise_to b (of_text v)) vs, raise_to-cases b (of_text v))

-- `max_of` returns a severity that no text of the list exceeds, and which is named in the list
-- itself unless it is `info`; texts that name no severity have no effect.
pub max_of_highest :
    (vs : List String) → All (Covers (max_of vs)) vs × ((max_of vs ≡ info) ⊎ Named (max_of vs) vs)
unfolding max_of
max_of_highest vs = (max_from-Covers info vs, max_from-Named info vs)
