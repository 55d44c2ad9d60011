-- ===== src/EvalScorer/Persist.antt =====
-- `_persist` of packages/obs-platform/src/obs_platform/workers/eval_scorer.py: the rows that it
-- upserts for a run of the judge, and how it shares the run's cost among them.
use agent_lens_platform.Common.{
  ℕ, zero, suc, ◌+◌, ◌*◌, ◌/◌, ◌≤◌, ◌≡◌, refl, ◌∙◌, String, Bool, true, false, not, ◌||◌, List, [],
  ◌∷◌, ◌++◌, map, inl, inr, arith, Bool-cases, if◌then◌else◌, length, is_empty, max, filter,
}
use mathlib.Core.List.{append_assoc, append-nil}
use native.Mathlib.Nat.{mul-div-le, mul-le-mul_right, suc-mul}
use agent_lens_platform.Common.Text.{is_text, prefix}

-- `MetricScore`, `JudgeVerdict` and `JudgeRun` of evals/judge.py; a score is a float.
pub record MetricScore (Float : Type 0) : Type 0 where
  pub metric : String
  pub score : Float
  pub reason : String

pub record JudgeVerdict (Float : Type 0) : Type 0 where
  pub trace_id : ℕ
  pub scores : List (MetricScore Float)
  pub error : String

pub record JudgeRun (Float : Type 0) : Type 0 where
  pub verdicts : List (JudgeVerdict Float)
  pub prompt_tokens : ℕ
  pub completion_tokens : ℕ
  pub cost_micros : ℕ
  pub model : String
  pub backend : String
  pub calls : ℕ

-- A row of `eval_scores`.
pub record EvalScore (Float : Type 0) : Type 0 where
  pub trace_id : ℕ
  pub tenant_id : ℕ
  pub metric : String
  pub score : Float
  pub reason : String
  pub backend : String
  pub judge_model : String
  pub prompt_tokens : ℕ
  pub completion_tokens : ℕ
  pub cost_micros : ℕ
  pub created_at : ℕ

-- What `_persist` writes: the rows, the traces that become "scored" and "error", and whether it
-- records a spend.
pub record Writes (Float : Type 0) : Type 0 where
  pub rows : List (EvalScore Float)
  pub scored : List ℕ
  pub failed : List ℕ
  pub records_spend : Bool

abbrev pub is_nonzero : ℕ → Bool
is_nonzero zero = false
is_nonzero (suc _) = true

part_le : (n share : ℕ) → n * (share / max 1 n) ≤ share
part_le n share =
    let low : n ≤ max 1 n = omega arith in
    omega (arith, mul-div-le share (max 1 n), mul-le-mul_right (share / max 1 n) low)

module _ {Float : Type 0} where
  abbrev pub share_of : ℕ → List (JudgeVerdict Float) → ℕ
  share_of n verdicts = n / max 1 (length verdicts)

  abbrev pub score_row :
      ℕ → ℕ → JudgeRun Float → JudgeVerdict Float → MetricScore Float → EvalScore Float
  score_row now tenant run verdict score = record {
    trace_id = verdict.trace_id;
    tenant_id = tenant;
    metric = score.metric;
    score = score.score;
    reason = prefix 2000 score.reason;
    backend = run.backend;
    judge_model = prefix 120 run.model;
    prompt_tokens = share_of run.prompt_tokens run.verdicts;
    completion_tokens = share_of run.completion_tokens run.verdicts;
    cost_micros = share_of run.cost_micros run.verdicts / max 1 (length verdict.scores);
    created_at = now;
  }

  abbrev pub is_failed : JudgeVerdict Float → Bool
  is_failed verdict = is_text verdict.error || is_empty verdict.scores

  unfoldable pub persist_one :
      ℕ → ℕ → JudgeRun Float → JudgeVerdict Float → Writes Float → Writes Float
  persist_one now tenant run verdict done =
      if is_failed verdict
      then record done { failed = done.failed ++ verdict.trace_id ∷ [] }
      else record done {
        rows = done.rows ++ map (score_row now tenant run verdict) verdict.scores;
        scored = done.scored ++ verdict.trace_id ∷ [];
      }

  -- The loop over the verdicts.
  unfoldable pub persist_from :
      ℕ → ℕ → JudgeRun Float → List (JudgeVerdict Float) → Writes Float → Writes Float
  unfolding persist_one
  persist_from now tenant run [] done = done
  persist_from now tenant run (verdict ∷ verdicts) done =
      persist_from now tenant run verdicts (persist_one now tenant run verdict done)

  abbrev pub start : JudgeRun Float → Writes Float
  start run = record {
    rows = [];
    scored = [];
    failed = [];
    records_spend =
        is_nonzero run.prompt_tokens
        || (is_nonzero run.completion_tokens || is_nonzero run.cost_micros);
  }

  unfoldable pub persist : ℕ → ℕ → JudgeRun Float → Writes Float
  unfolding persist_from
  persist now tenant run = persist_from now tenant run run.verdicts (start run)

  abbrev pub total_cost : List (EvalScore Float) → ℕ
  total_cost [] = 0
  total_cost (row ∷ rows) = row.cost_micros + total_cost rows

  total_cost-append :
      (xs ys : List (EvalScore Float)) → total_cost (xs ++ ys) ≡ total_cost xs + total_cost ys
  total_cost-append [] ys = omega arith
  total_cost-append (x ∷ xs) ys = omega (arith, total_cost-append xs ys)

  total_cost-rows :
      (now tenant : ℕ) (run : JudgeRun Float) (verdict : JudgeVerdict Float)
      (scores : List (MetricScore Float))
      → let each = share_of run.cost_micros run.verdicts / max 1 (length verdict.scores) in
        total_cost (map (score_row now tenant run verdict) scores) ≡ length scores * each
  total_cost-rows now tenant run verdict [] = omega arith
  total_cost-rows now tenant run verdict (s ∷ scores) =
      let each = share_of run.cost_micros run.verdicts / max 1 (length verdict.scores) in
      omega (arith, total_cost-rows now tenant run verdict scores, suc-mul (length scores) each)

  -- What one more verdict, or several, may add.
  abbrev Grows : Writes Float → Writes Float → ℕ → ℕ → Type 0
  Grows before after n share = total_cost after.rows ≤ total_cost before.rows + n * share

  persist_one-Grows :
      (now tenant : ℕ) (run : JudgeRun Float) (verdict : JudgeVerdict Float) (done : Writes Float)
      → Grows done
          (persist_one now tenant run verdict done)
          1
          (share_of run.cost_micros run.verdicts)
  unfolding persist_one
  persist_one-Grows now tenant run verdict done = elim (Bool-cases (is_failed verdict)) [
    | inl failed ↦ rw failed (omega arith)
    | inr scored ↦ rw scored (
        omega (
          arith,
          total_cost-append done.rows (map (score_row now tenant run verdict) verdict.scores),
          total_cost-rows now tenant run verdict verdict.scores,
          part_le (length verdict.scores) (share_of run.cost_micros run.verdicts),
        ))
  ]

  persist_from-Grows :
      (now tenant : ℕ) (run : JudgeRun Float) (verdicts : List (JudgeVerdict Float))
      (done : Writes Float)
      → Grows done
          (persist_from now tenant run verdicts done)
          (length verdicts)
          (share_of run.cost_micros run.verdicts)
  unfolding persist_from
  persist_from-Grows now tenant run [] done = omega arith
  persist_from-Grows now tenant run (verdict ∷ verdicts) done =
      let one = persist_one-Grows now tenant run verdict done in
      let rest =
        persist_from-Grows now tenant run verdicts (persist_one now tenant run verdict done) in
      let share = share_of run.cost_micros run.verdicts in
      omega (arith, one, rest, suc-mul (length verdicts) share)

  -- The traces of the verdicts that satisfy the test, in order.
  abbrev pub traces_where : (JudgeVerdict Float → Bool) → List (JudgeVerdict Float) → List ℕ
  traces_where p verdicts = map (λ v. v.trace_id) (filter p verdicts)

  persist_from-marks :
      (now tenant : ℕ) (run : JudgeRun Float) (verdicts : List (JudgeVerdict Float))
      (done : Writes Float)
      → let after = persist_from now tenant run verdicts done in
        (after.failed ≡ done.failed ++ traces_where is_failed verdicts)
        × (after.scored ≡ done.scored ++ traces_where (λ v. not (is_failed v)) verdicts)
  unfolding persist_from persist_one
  persist_from-marks now tenant run [] done = (simp append-nil, simp append-nil)
  persist_from-marks now tenant run (verdict ∷ verdicts) done =
      let rest =
        persist_from-marks now tenant run verdicts (persist_one now tenant run verdict done) in
      elim (Bool-cases (is_failed verdict)) [
        | inl failed ↦ rw failed (rest.0 ∙ rw failed (simp append_assoc), rest.1 ∙ rw failed refl)
        | inr scored ↦ rw scored (rest.0 ∙ rw scored refl, rest.1 ∙ rw scored (simp append_assoc))
      ]

  -- The rows that a run of the judge writes cost together at most what the run cost; the traces that
  -- become "error" are those of the verdicts with an error or without a score, and those that become
  -- "scored" are those of the others, each in the order of the verdicts and once per verdict.
  pub persist_shares :
      (now tenant : ℕ) (run : JudgeRun Float)
      → let done = persist now tenant run in
        (total_cost done.rows ≤ run.cost_micros)
        × ((done.failed ≡ traces_where (λ v. is_text v.error || is_empty v.scores) run.verdicts)
            × (done.scored
                ≡ traces_where (λ v. not (is_text v.error || is_empty v.scores)) run.verdicts))
  unfolding persist
  persist_shares now tenant run =
      let all = persist_from-Grows now tenant run run.verdicts (start run) in
      (
        omega (arith, all, part_le (length run.verdicts) run.cost_micros),
        persist_from-marks now tenant run run.verdicts (start run),
      )
