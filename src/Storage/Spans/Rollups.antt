-- ===== src/Storage/Spans/Rollups.antt =====
-- `_recompute_rollups` of packages/obs-platform/src/obs_platform/workers/storage_writer.py: what its
-- `SELECT` computes from the span rows of one trace, and the columns of its `UPDATE`.
use mathlib.Core.List.{Perm, Permᴰ}
use mathlib.Core.Path.{ap₂}
use mathlib.Core.Logic.{∥∥₁_elim}
use agent_lens_platform.Common.{ℕ, ◌+◌, ◌≡◌, refl, ◌∙◌, List, [], ◌∷◌, arith, ap}
use agent_lens_platform.Event.{SpanKind, llm, tool, SpanStatus, error}
use agent_lens_platform.Storage.Spans.{SpanRow}

pub record Rollup : Type 0 where
  pub prompt_tokens : ℕ
  pub completion_tokens : ℕ
  pub total_tokens : ℕ
  pub cost_micros : ℕ
  pub span_count : ℕ
  pub llm_calls : ℕ
  pub tool_calls : ℕ
  pub error_count : ℕ

abbrev no_spans : Rollup
no_spans = record {
  prompt_tokens = 0;
  completion_tokens = 0;
  total_tokens = 0;
  cost_micros = 0;
  span_count = 0;
  llm_calls = 0;
  tool_calls = 0;
  error_count = 0;
}

-- `_case_when(condition)`
abbrev is_llm : SpanKind → ℕ
is_llm llm = 1
is_llm _ = 0

abbrev is_tool : SpanKind → ℕ
is_tool tool = 1
is_tool _ = 0

abbrev is_failed : SpanStatus → ℕ
is_failed error = 1
is_failed _ = 0

abbrev add_span : SpanRow → Rollup → Rollup
add_span s r = record {
  prompt_tokens = s.prompt_tokens + r.prompt_tokens;
  completion_tokens = s.completion_tokens + r.completion_tokens;
  total_tokens = s.total_tokens + r.total_tokens;
  cost_micros = s.cost_micros + r.cost_micros;
  span_count = 1 + r.span_count;
  llm_calls = is_llm s.kind + r.llm_calls;
  tool_calls = is_tool s.kind + r.tool_calls;
  error_count = is_failed s.status + r.error_count;
}

unfoldable pub rollup : List SpanRow → Rollup
rollup [] = no_spans
rollup (s ∷ spans) = add_span s (rollup spans)

add_span_swap : (a b : SpanRow) (r : Rollup) → add_span a (add_span b r) ≡ add_span b (add_span a r)
add_span_swap a b r = ground arith

rollup-permᴰ : {xs ys : List SpanRow} → Permᴰ xs ys → rollup xs ≡ rollup ys
unfolding rollup
rollup-permᴰ Permᴰ.nil = refl
rollup-permᴰ (Permᴰ.cons {a = a} {b = b} {l₂ = ys} e p) =
    ap (add_span a) (rollup-permᴰ p) ∙ ap (λ x. add_span x (rollup ys)) e
rollup-permᴰ (Permᴰ.swap {a = a} {b = b} {l = l} p q) =
    add_span_swap a b (rollup l) ∙ ap₂ (λ x y. add_span x (add_span y (rollup l))) q p
rollup-permᴰ (Permᴰ.trans p q) = rollup-permᴰ p ∙ rollup-permᴰ q

Rollup-set : IsSet Rollup
Rollup-set = hlevel

-- The rollup of a trace is the same whatever order the database returns its spans in.
pub rollup-perm : (xs ys : List SpanRow) → Perm xs ys → rollup xs ≡ rollup ys
rollup-perm xs ys p = ∥∥₁_elim p (Rollup-set _ _) rollup-permᴰ
