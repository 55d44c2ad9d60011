-- ===== src/Tests/Tracing.antt =====
-- A root chain with a skipped chain below it, and a model call below that one, through the callback
-- handler.
use agent_lens_platform.Common.{
  ℕ, ◌≡◌, ◌≤◌, refl, String, Bool, true, false, ◌+◌, none, some, Option, List, [], ◌∷◌, length, map,
  All,
}
use agent_lens_platform.Common.Text.{Json, text, Fields, end, field, get, put, update_fields}
use agent_lens_platform.Event.{SpanKind, agent, chain, llm, ok}
use agent_lens_platform.Handler.{
  Ambient, Config, Handler, fresh_handler, Start, Finish, Run, TraceAgg, find_run, find_trace,
  register, put_run, evict, put_trace,
}
use agent_lens_platform.Handler.Runs.{new_run, payload_of, domain_attributes}
use agent_lens_platform.Handler.Bookkeeping.{start_run, end_run}
use agent_lens_platform.Handler.Connected.{IsConnected}
use agent_lens_platform.Handler.Reach.{Reachable, fresh, started, finished, Reachable-IsConnected}
use agent_lens_platform.Handler.Bound.{length-runs-le}
use agent_lens_platform.Handler.Report.{EndsWith, Counts, end_run-Counts}
use agent_lens_platform.Handler.Capture.{
  Hook, starting, ending, agent_finishing, run_hooks, swapped, run_hooks-Alike,
}

abbrev Outside : ℕ → Type 0
Outside p = p ≡ 900

abbrev same_keys : List String → List String
same_keys ks = ks

abbrev three_chars : Json → ℕ
three_chars v = 3

abbrev one_id : Json → ℕ
one_id v = 1

abbrev settings : Config
settings = record {
  tenant_id = 7;
  service = "support";
  environment = "test";
  default_trace_id = none;
  session_id = none;
  user_ref = none;
  default_attributes = end;
  capture_content = false;
  capture_chains = true;
  ignored_chain_names = [];
  max_tracked_runs = 2;
}

abbrev at : ℕ → Option ℕ → Ambient
at n span = record {
  context = none;
  current_span = span;
  new_trace_id = 50;
  new_span_id = 100 + n;
  now = 1_000 + n;
  perf = 2_000 + n;
}

abbrev begin : ℕ → Option ℕ → SpanKind → Bool → Start
begin i parent kind skip = record {
  run_id = some i;
  parent_run_id = parent;
  name = "run";
  kind = kind;
  payload = field "question" (text "who") end;
  metadata = end;
  session_id = none;
  user_ref = none;
  tags = [];
  model = none;
  skip = skip;
}

abbrev done : ℕ → Finish
done i = record {
  run_id = some i;
  status = ok;
  payload = field "answer" (text "you") end;
  usage = none;
  model = none;
  error = none;
}

abbrev begin_at : ℕ → Option ℕ → Start → Handler → Handler
begin_at n span = start_run same_keys three_chars one_id settings (at n span)

abbrev end_at : ℕ → Finish → Handler → Handler
end_at n = end_run same_keys three_chars settings (at n none)

abbrev opened : Handler
opened = begin_at 3 none (begin 3 (some 2) llm false) (
    begin_at 2 none (begin 2 (some 1) chain true)
      (begin_at 1 (some 900) (begin 1 none agent false) fresh_handler))

opened-Reachable : Reachable same_keys three_chars one_id settings Outside opened
opened-Reachable = started (at 3 none) (begin 3 (some 2) llm false) tt (
    started (at 2 none) (begin 2 (some 1) chain true) tt
      (started (at 1 (some 900)) (begin 1 none agent false) refl fresh))

Reachable-IsConnected_example :
    All
      (IsConnected Outside (end_at 4 (done 3) opened).published)
      (end_at 4 (done 3) opened).published
Reachable-IsConnected_example =
    Reachable-IsConnected same_keys three_chars one_id settings Outside (end_at 4 (done 3) opened)
      (finished (at 4 none) (done 3) opened-Reachable)

-- Three runs started, and the table holds two.
length-runs-le_example : length opened.runs ≤ 2
length-runs-le_example =
    length-runs-le same_keys three_chars one_id settings Outside opened opened-Reachable

abbrev asked : Handler
asked =
    begin_at 2 none (begin 2 (some 1) llm false)
      (begin_at 1 (some 900) (begin 1 none agent false) fresh_handler)

asked-Reachable : Reachable same_keys three_chars one_id settings Outside asked
asked-Reachable =
    started (at 2 none) (begin 2 (some 1) llm false) tt
      (started (at 1 (some 900)) (begin 1 none agent false) refl fresh)

abbrev root_run : Run
root_run = record {
  run_id = 1;
  trace_id = 50;
  tenant_id = 7;
  span_id = some 101;
  parent_span_id = some 900;
  name = "run";
  kind = agent;
  started_at = 1_001;
  started_perf = 2_001;
  is_root = true;
  session_id = none;
  user_ref = none;
  attributes = end;
  model = none;
}

abbrev totals : TraceAgg
totals = record {
  trace_id = 50;
  tenant_id = 7;
  name = "run";
  started_at = 1_001;
  started_perf = 2_001;
  session_id = none;
  user_ref = none;
  attributes = end;
  prompt_tokens = 0;
  completion_tokens = 0;
  span_count = 2;
  error_count = 0;
  llm_calls = 1;
  tool_calls = 0;
  models = [];
  first_input = payload_of same_keys three_chars settings (begin 1 none agent false).payload;
  last_output = end;
}

end_run-Counts_example : EndsWith (Counts asked.published 50) (end_at 5 (done 1) asked).published
unfolding start_run find_run find_trace new_run register put_run evict put_trace domain_attributes
    update_fields get put payload_of
end_run-Counts_example =
    end_run-Counts same_keys three_chars one_id settings Outside (at 5 none) (done 1) 1 root_run
      totals asked asked-Reachable refl refl refl refl

-- The hooks that lead to `asked`, beside other texts.
abbrev hooks : List (Hook × Fields)
hooks =
    (starting (at 1 (some 900)) (begin 1 none agent false), field "question" (text "why") end)
    ∷ (starting (at 2 none) (begin 2 (some 1) llm false), field "question" (text "how") end)
    ∷ (ending (at 5 none) (done 2), field "answer" (text "so") end)
    ∷ (agent_finishing (some 1) (some (field "output" (text "secret") end)), end)
    ∷ []

run_hooks-Alike_example :
    run_hooks one_id same_keys three_chars settings (map (λ p. p.0) hooks) fresh_handler
    ≡ run_hooks one_id same_keys three_chars settings
        (map (swapped one_id same_keys three_chars) hooks)
        fresh_handler
run_hooks-Alike_example =
    run_hooks-Alike one_id same_keys three_chars settings hooks fresh_handler refl
      ((refl, refl), ((refl, refl), ((refl, refl), ((refl, refl), tt))))
