-- ===== src/Tests/Grading.antt =====
-- Runs of the budget, the eval scorer and the publisher at concrete inputs. The world of the scorer
-- is a clock; the rows that it loads are constant.
use agent_lens_platform.Common.{
  nat_eq, string_eq, ℕ, ◌+◌, ◌≤◌, ◌≡◌, refl, String, true, false, not, ◌&&◌, ◌||◌, none, List, [],
  ◌∷◌, ◌++◌, map, filter, any, contains, is_empty, arith, leb, if◌then◌else◌,
}
use agent_lens_platform.Common.Table.{Table, list_table}
use agent_lens_platform.Common.Text.{end, is_text}
use agent_lens_platform.Event.{trace_end, agent, ok, ObsEvent}
use agent_lens_platform.Worker.{StreamMessage, no_outcome}
use agent_lens_platform.Worker.Parse.{ParsedMessage, event_of}
use agent_lens_platform.EvalScorer.{Buffered, ids, TraceRow, SpanRow, EvalSample, Services, pure}
use agent_lens_platform.EvalScorer as Scoring
use agent_lens_platform.EvalScorer.Flush.{Scorer, flush, take_items, process, maybe_flush, teardown}
use agent_lens_platform.EvalScorer.Split.{count}
use agent_lens_platform.EvalScorer.Held.{IsHeld, flush-IsHeld}
use agent_lens_platform.EvalScorer.Intake.{
  id_of, is_graded, holds, take_items-accounts, operations-IsHeld,
}
use agent_lens_platform.EvalScorer.Persist.{
  JudgeRun, persist, total_cost, traces_where, persist_shares,
}
use agent_lens_platform.Publisher.{Config, Publisher, fresh, put_nowait, get_one, flushed}
use agent_lens_platform.Publisher.Steps.{put, got, Reach, begun, moved, IsSound}
use agent_lens_platform.Publisher.Steps.Interleaved.{Reach-IsSound}
use agent_lens_platform.Publisher.Steps.Flush.{flush_misses}
use agent_lens_platform.Budget.{
  key_eq, Key, increment, TenantUsage, key_of, cost_in, tokens_in, Dollars, Settings, record_spend,
  check_budget,
}
use agent_lens_platform.Budget.Spend.{spent, record_spend_adds}
use agent_lens_platform.Budget.Caps.{
  check_budget-allowed, refused_stays, daily_micros, monthly_micros, daily_count,
}

abbrev format : String → ℕ → String
format text now = if string_eq.beq text "%Y-%m" then "2026-09" else "2026-09-08"

abbrev usage : Table (TenantUsage ℕ) key_of
usage = list_table key_of

at_least_mono : (a b cap : ℕ) → a ≤ b → leb cap a ≡ true → leb cap b ≡ true
at_least_mono a b cap le h = ground arith

abbrev micro_dollars : Dollars
micro_dollars = record {
  Usd = ℕ;
  micros_to_usd = λ n. n;
  at_least = λ a cap. leb cap a;
  at_least_mono = at_least_mono;
}

abbrev caps : Settings ℕ
caps = record {
  budget_daily_usd_per_tenant = 1_000;
  budget_monthly_usd_per_tenant = 20_000;
  budget_daily_tokens_per_tenant = 500;
}

abbrev spent_rows : usage.Rows
spent_rows = record_spend format usage 5 7 100 20 1_200 1 "eval_judge" []

record_spend_adds_example :
    let k : Key = (7, ("month", ("2026-09", "eval_judge"))) in
    let after = record_spend format usage 5 7 10 2 300 1 "eval_judge" spent_rows in
    (cost_in (usage.find k after)
      ≡ cost_in (usage.find k spent_rows) + spent format usage 5 7 "eval_judge" k 300)
    × (tokens_in (usage.find k after)
        ≡ tokens_in (usage.find k spent_rows) + spent format usage 5 7 "eval_judge" k (10 + 2))
record_spend_adds_example =
    record_spend_adds format usage 5 7 10 2 300 1 "eval_judge"
      (7, ("month", ("2026-09", "eval_judge"))) spent_rows

check_budget-allowed_example :
    (check_budget format usage micro_dollars 6 7 caps spent_rows).allowed ≡ (
      not (leb 1_000 (daily_micros format usage micro_dollars 6 7 spent_rows))
      && (not (leb 20_000 (monthly_micros format usage micro_dollars 6 7 spent_rows))
          && not (leb 500 (daily_count format usage micro_dollars 6 7 spent_rows))))
check_budget-allowed_example = check_budget-allowed format usage micro_dollars 6 7 caps spent_rows

refused_stays_example :
    (check_budget format usage micro_dollars 6 7 caps
      (record_spend format usage 8 9 1 1 1 1 "eval_judge" spent_rows)).allowed
    ≡ false
unfolding check_budget record_spend increment
refused_stays_example =
    refused_stays format usage micro_dollars 6 8 7 9 caps 1 1 1 1 "eval_judge" spent_rows refl

-- A trace that has its row, with an answer; every other trace waits.
abbrev world : Services ℕ ℕ ℕ ℕ
world = record {
  World = ℕ;
  monotonic = λ w. w;
  xack = λ _. pure tt;
  budget_allows = λ _. pure true;
  skip_over_budget = λ _ _. pure tt;
  load = λ _. pure (record { trace_id = 8; eval_status = "pending"; columns = 0 } ∷ [], []);
  set_eval_status = λ _ _. pure tt;
  score_batch = λ _. pure 0;
  persist = λ _ _ _. pure tt;
}

abbrev sample_of : TraceRow ℕ → List (SpanRow ℕ) → EvalSample ℕ
sample_of trace spans = record { trace_id = trace.trace_id; texts = 0; scorable = true }

abbrev scoring : Scoring.Settings
scoring = record {
  eval_sample_rate = 100;
  evals_enabled = true;
  eval_batch_size = 2;
  eval_batch_interval = 5_000;
  eval_ready_timeout = 60_000;
}

abbrev waiting_entry : ℕ → ℕ → Buffered
waiting_entry i trace = record {
  message_id = i;
  trace_id = trace;
  tenant_id = 7;
  first_seen = 10;
  attempts = 0;
}

abbrev two_held : Scorer
two_held = record {
  buffer = waiting_entry 21 8 ∷ waiting_entry 22 9 ∷ [];
  buffered_ids = 22 ∷ 21 ∷ [];
  last_flush = 0;
}

two_held-IsHeld : IsHeld two_held
two_held-IsHeld i = ground arith

flush-IsHeld_example :
    let (acked, s') = (flush world sample_of scoring two_held 20).0 in
    IsHeld s' × ((i : ℕ) → count i acked + count i (ids s'.buffer) ≤ count i (ids two_held.buffer))
flush-IsHeld_example = flush-IsHeld world sample_of scoring two_held 20 two_held-IsHeld

abbrev end_event : ObsEvent
end_event = record {
  schema_version = 2;
  emitted_at = 900;
  tenant_id = 7;
  trace_id = 8;
  span_id = none;
  parent_span_id = none;
  type = trace_end;
  kind = agent;
  name = "answer";
  status = ok;
  started_at = none;
  ended_at = none;
  latency_ms = none;
  input = end;
  output = end;
  error = none;
  usage = none;
  model = none;
  attributes = end;
  session_id = none;
  user_ref = none;
  environment = "test";
  service = "bot";
}

abbrev message : StreamMessage
message = record { message_id = 23; fields = []; delivery_count = 1 }

abbrev digest : ℕ → ℕ → ℕ
digest salt i = i + salt

operations-IsHeld_example :
    IsHeld
      (process world sample_of scoring digest 0
        (λ _. event_of end_event)
        (message ∷ [])
        two_held
        20).0.1
    × (IsHeld (maybe_flush world sample_of scoring two_held 20).0
        × IsHeld (teardown world sample_of scoring two_held 20).0)
operations-IsHeld_example =
    operations-IsHeld world sample_of scoring digest 0 (λ _. event_of end_event) (message ∷ [])
      two_held 20 two_held-IsHeld

abbrev one_end : List (ParsedMessage ObsEvent)
one_end = record { message = message; event = end_event } ∷ []

take_items-accounts_example :
    let (s', outcome') =
      take_items world sample_of scoring digest 0 20 one_end (two_held, no_outcome) in
    (outcome'.ack
      ≡ no_outcome.ack
        ++ map id_of
            (filter (λ m. not (is_graded world sample_of scoring digest 0 m.event)) one_end))
    × (((i : ℕ)
          → contains s'.buffered_ids i ≡ (
              contains two_held.buffered_ids i
              || any (holds world sample_of scoring digest 0 i) one_end))
        × IsHeld s')
take_items-accounts_example =
    take_items-accounts world sample_of scoring digest 0 20 one_end two_held no_outcome
      two_held-IsHeld

abbrev run : JudgeRun ℕ
run = record {
  verdicts =
      record {
        trace_id = 8;
        scores = record { metric = "faithfulness"; score = 4; reason = "grounded" } ∷ [];
        error = "";
      }
      ∷ record { trace_id = 9; scores = []; error = "no json" }
      ∷ [];
  prompt_tokens = 100;
  completion_tokens = 30;
  cost_micros = 301;
  model = "mock";
  backend = "mock";
  calls = 1;
}

persist_shares_example :
    let done = persist 20 7 run in
    (total_cost done.rows ≤ 301)
    × ((done.failed ≡ traces_where (λ v. is_text v.error || is_empty v.scores) run.verdicts)
        × (done.scored
            ≡ traces_where (λ v. not (is_text v.error || is_empty v.scores)) run.verdicts))
persist_shares_example = persist_shares 20 7 run

abbrev sdk : Config
sdk = record { queue_size = 10; batch_size = 50; reconnect_backoff_max = 30_000 }

abbrev four : ℕ
four = 4

-- The thread takes the event before the program has counted it.
abbrev raced : Publisher ℕ
raced = get_one four [] (put_nowait sdk four (fresh true))

raced-Reach : Reach sdk raced
unfolding put_nowait
raced-Reach =
    moved _ _ (moved _ _ (begun true) (put four (fresh true)))
      (got four [] (put_nowait sdk four (fresh true)) refl (omega arith) refl)

Reach-IsSound_example : IsSound sdk raced
Reach-IsSound_example = Reach-IsSound sdk raced raced-Reach

flush_misses_example :
    (s : Publisher ℕ) × (Reach sdk s × ((flushed s ≡ true) × (s.batch ≡ four ∷ [])))
flush_misses_example = flush_misses sdk four true (omega arith)
