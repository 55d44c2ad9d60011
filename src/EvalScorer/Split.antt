-- ===== src/EvalScorer/Split.antt =====
-- How `_score_tenant` of packages/obs-platform/src/obs_platform/workers/eval_scorer.py splits the
-- messages of a batch into those that are acked and those that wait.
use agent_lens_platform.Common.{
  nat_eq, ℕ, suc, ◌+◌, ◌≤◌, ◌≡◌, refl, ap, ◌∙◌, Bool, true, false, List, [], ◌∷◌, ◌++◌, filter, inl,
  inr, arith, Bool-cases, ◌==◌, if◌then◌else◌, contains,
}
use agent_lens_platform.Worker.{Result, ok, err}
use agent_lens_platform.EvalScorer.{
  Act, on_result, ◌>>=◌, Buffered, ids, TraceRow, SpanRow, EvalSample, Readiness, Settings,
  Services, without, is_deferred, grade, score_checked, score_tenant,
}

-- How often an id stands in a list.
abbrev pub count : ℕ → List ℕ → ℕ
count i [] = 0
count i (j ∷ js) = if j == i then suc (count i js) else count i js

pub count-append : (i : ℕ) (xs ys : List ℕ) → count i (xs ++ ys) ≡ count i xs + count i ys
count-append i [] ys = omega arith
count-append i (x ∷ xs) ys = ground (arith, count-append i xs ys)

pub count-ids-append :
    (i : ℕ) (xs ys : List Buffered) → count i (ids (xs ++ ys)) ≡ count i (ids xs) + count i (ids ys)
count-ids-append i [] ys = omega arith
count-ids-append i (x ∷ xs) ys = ground (arith, count-ids-append i xs ys)

-- 1 for a member, 0 for any other number.
abbrev pub member : ℕ → List ℕ → ℕ
member i xs = if contains xs i then 1 else 0

pub member-count-le : (i : ℕ) (xs : List ℕ) → member i xs ≤ count i xs
member-count-le i [] = omega arith
member-count-le i (x ∷ xs) = ground (arith, member-count-le i xs)

present : (i : ℕ) (xs : List ℕ) → contains xs i ≡ true → 1 ≤ count i xs
present i xs h = omega (arith, member-count-le i xs, ap {B = ℕ} (λ b. if b then 1 else 0) h)

pub count-member : (i : ℕ) (xs : List ℕ) → contains xs i ≡ false → count i xs ≡ 0
count-member i [] h = refl
count-member i (x ∷ xs) h = ground (arith, count-member i xs)

count-filter-le :
    (p : Buffered → Bool) (i : ℕ) (es : List Buffered)
    → count i (ids (filter p es)) ≤ count i (ids es)
count-filter-le p i [] = omega arith
count-filter-le p i (e ∷ es) = ground (arith, count-filter-le p i es)

count-without-in : (i : ℕ) (ds xs : List ℕ) → contains ds i ≡ true → count i (without ds xs) ≡ 0
unfolding without
count-without-in i ds [] h = refl
count-without-in i ds (x ∷ xs) h = elim (Bool-cases (x == i)) [
  | inl same ↦
      let there = ap (contains ds) ((nat_eq.beq_iff x i).0 same) ∙ h in
      ground (arith, there, count-without-in i ds xs h)
  | inr other ↦ ground (arith, count-without-in i ds xs h)
]

count-without-out :
    (i : ℕ) (ds xs : List ℕ) → contains ds i ≡ false → count i (without ds xs) ≡ count i xs
unfolding without
count-without-out i ds [] h = refl
count-without-out i ds (x ∷ xs) h = elim (Bool-cases (x == i)) [
  | inl same ↦
      let gone = ap (contains ds) ((nat_eq.beq_iff x i).0 same) ∙ h in
      ground (arith, gone, count-without-out i ds xs h)
  | inr other ↦ ground (arith, count-without-out i ds xs h)
]

-- Of ids that stand once, the deferred entries and the others have each in one place.
count-split :
    (p : Buffered → Bool) (i : ℕ) (es : List Buffered)
    → count i (ids es) ≤ 1
    → let waits = ids (filter p es) in
      count i (ids es) ≡ count i (without waits (ids es)) + count i waits
count-split p i es h =
    let waits = ids (filter p es) in
    elim (Bool-cases (contains waits i)) [
      | inl there ↦ omega (
        arith,
        count-filter-le p i es,
        count-without-in i waits (ids es) there,
        present i waits there,
      )
      | inr gone ↦ omega (arith, count-member i waits gone, count-without-out i waits (ids es) gone)
    ]

-- What holds of a result if the action returns one.
abbrev pub Returns : {A : Type 0} → (A → Type 0) → Result A → Type 0
Returns P (ok a) = P a
Returns P (err e) = Unit

module _ {W A B : Type 0} (P : B → Type 0) where
  returned :
      (f : A → Act W B) (r : Result A × W)
      → ((a : A) (w : W) → Returns P (f a w).0)
      → Returns P (on_result f r).0
  returned f (ok a, w) h = h a w
  returned f (err e, w) h = tt

  bound :
      (m : Act W A) (f : A → Act W B) (w : W)
      → ((a : A) (w : W) → Returns P (f a w).0)
      → Returns P ((m >>= f) w).0
  unfolding ◌>>=◌
  bound m f w h = returned f (m w) h

-- Every message of the slice that stands in it once is returned once: to be acked, or to wait.
abbrev pub Splits : ℕ → List Buffered → List ℕ × List Buffered → Type 0
Splits i entries r = count i (ids entries) ≡ count i r.0 + count i (ids r.1)

module _ {Trace Span Texts Run : Type 0} (sv : Services Trace Span Texts Run)
    (build_sample : TraceRow Trace → List (SpanRow Span) → EvalSample Texts) (cfg : Settings) where
  grade-Splits :
      (i tenant : ℕ) (entries : List Buffered) (ready : Readiness Texts) (w : sv.World)
      → count i (ids entries) ≤ 1
      → Returns (Splits i entries) (grade sv build_sample cfg tenant entries ready w).0
  unfolding grade
  grade-Splits i tenant entries ready w h = bound (Splits i entries) _ _ w (λ _ w1.
      bound (Splits i entries) _ _ w1 (λ _ _.
        count-split (is_deferred (sv.monotonic w) cfg.eval_ready_timeout ready.waiting) i entries
          h))

  score_checked-Splits :
      (i tenant : ℕ) (entries : List Buffered) (allowed : Bool) (w : sv.World)
      → count i (ids entries) ≤ 1
      → Returns (Splits i entries) (score_checked sv build_sample cfg tenant entries allowed w).0
  unfolding score_checked
  score_checked-Splits i tenant entries false w h =
      bound (Splits i entries) _ _ w (λ _ _. omega arith)
  score_checked-Splits i tenant entries true w h =
      bound (Splits i entries) _ _ w (λ rows w1. grade-Splits i tenant entries _ w1 h)

  pub score_tenant-Splits :
      (i tenant : ℕ) (entries : List Buffered) (w : sv.World)
      → count i (ids entries) ≤ 1
      → Returns (Splits i entries) (score_tenant sv build_sample cfg tenant entries w).0
  unfolding score_tenant
  score_tenant-Splits i tenant entries w h =
      bound (Splits i entries) _ _ w
        (λ allowed w1. score_checked-Splits i tenant entries allowed w1 h)
