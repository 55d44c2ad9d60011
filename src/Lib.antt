-- ===== src/Lib.antt =====
-- A model of AgentLens Platform: applications report what their agents do as events; the SDK puts the
-- events on a Redis stream; workers of several consumer groups read the stream and write traces and
-- spans, scan them for leaked data, grade a sample with a language model under a budget, and run
-- timed jobs.
--
-- Below, `obs_platform` stands for packages/obs-platform/src/obs_platform and `obs_sdk` for
-- packages/obs-sdk/src/obs_sdk.
--
-- The parts and their files
--
-- Common: equality of keys (Keys), Boolean tests on numbers (Tests), lists (Lists), texts and JSON
--   values (Text). Common/Table is a database table with the two conflict clauses of
--   obs_platform/db.py, given by the laws that PostgreSQL and SQLite document; every component that
--   writes rows takes a value of it.
-- Event, Severity: obs_sdk/schema.py. An event has the fields that the platform reads; ids of
--   messages, traces, spans and tenants are opaque and stand as numbers; times are microseconds.
-- Publisher: obs_sdk/publisher.py. publish, _drain_batch, _get_client and _run, as one function for each
--   access to what the threads share; Publisher/Steps has the step relation in which calls of publish and
--   the drain thread interleave, Publisher/Steps/Interleaved what holds in every state of it and
--   Publisher/Steps/Flush the test of flush. A `+=` on a counter is one access.
-- Worker: obs_platform/workers/base.py. StreamConsumer's fields are `Consumer`; Redis, the
--   database, the clock and the subclass's handler are `Services`, whose calls return or raise and
--   leave a new world. Batch is _process_batch, DeadLetters is _dead_letter and its kin, Reclaim is
--   _reclaim_pending, Parse is parse and _flatten, Tick is _read_new, _tick and a round of run.
-- Worker/Settled: the accounting of a batch that the workers below share.
-- Storage: obs_platform/workers/storage_writer.py. Storage and Storage/Merge are _merge_trace, which
--   folds the events of a trace into its row; Storage/Spans is the collection and the writes of
--   spans, Storage/Spans/Rollups the totals of _recompute_rollups, Storage/Process the batch itself, and
--   Storage/Groups follows one trace through it.
-- EvalScorer: obs_platform/workers/eval_scorer.py. EvalScorer is _score_tenant and _readiness,
--   EvalScorer/Flush the buffer with process, _maybe_flush, _flush and teardown, EvalScorer/Persist the
--   rows of _persist. It calls the budget through an action of its services.
-- Budget: obs_platform/evals/budget.py: check_budget and record_spend over the table tenant_usage.
-- Sampling: obs_platform/evals/sampling.py. Pricing: obs_platform/pricing.py.
-- Guardrails: obs_platform/guardrails/patterns.py: scan_text and _resolve_overlaps; Guardrails/Verhoeff
--   is aadhaar_valid, Guardrails/Redact is redact_text.
-- Handler: obs_sdk/langchain.py, the callback handler. Handler is its tables, Handler/Runs the run that
--   _start_run builds with _event and _payload, Handler/Bookkeeping _start_run, _end_run and
--   _close_trace, on_agent_action and on_agent_finish; Handler/Reach is the relation of the states
--   that hooks lead to, in any order, and the
--   other files are about the events: Connected, Opening, Closing, Totals, Tally, Report, Capture, Bound.
-- Engine: obs_platform/guardrails/engine.py. Engine/Texts is iter_text_fields, Engine/Inspect the
--   excerpts and scan_event, Engine/Scan the findings with _summarize, Engine/Flags merge_flags;
--   Engine/Order and Engine/Batch compare merges in other orders and batches, Engine/Risk is about the
--   risk score.
-- Injection: obs_platform/guardrails/injection.py: the scan of InjectionDetector; Injection/Detects is
--   about what it detects.
-- Scanner: obs_platform/workers/guardrail_scanner.py. Scanner is the data and the loops of process and
--   _persist, Scanner/Process the methods; Scanner/Settles follows the messages of a batch,
--   Scanner/Verdict the row of a trace. It calls Engine, Worker (parse), Alerts and Common/Table.
-- Alerts: obs_platform/alerts.py: raise_alert over the table alerts.
-- Scheduler: obs_platform/workers/scheduler.py: due times, execution, records, ticks.
-- Pagination: obs_platform/api/pagination.py; Pagination/Walk has the keyset query of
--   obs_platform/api/routers/traces.py and a client that follows its cursors.
-- Retention: obs_platform/jobs/retention.py: purge over the tables that it deletes from;
--   Retention/Complete and Retention/Removed are about what it removes, Retention/Kept about what it
--   leaves, Retention/Rounds
--   about the end of its loop.
-- Tests: the model at concrete inputs.
--
-- How the code is rendered
--
-- A method is a function from the fields it reads to those it leaves. An exception is a value:
-- `Raised` keeps the tests that the workers make on it. A coroutine runs to its end; what other
-- processes do meanwhile is part of what a call on the world may do. Python's numbers are natural
-- numbers; where the code takes negative counts (the token counts of pricing.py) they are integers.
-- Floats are whole numbers of a smaller unit (prices in thousandths of a dollar, times in milli- or
-- microseconds, scores by their order), or a type with the operations used (the dollars of the
-- budget). Regular expressions, hashes, text normalisation and date formats are arguments.
--
-- Loops are recursions on the list that they walk. The immediate retries of a lock conflict are
-- recursion on their number, which the code bounds by three. The client of Pagination/Walk has as fuel
-- the number of requests it may make, and as many as there are rows are enough. The loop of Retention
-- has as fuel the 1,001 batches after which the code itself gives up, and more fuel changes nothing.
--
-- Not modelled: the HTTP API apart from its pages, rate limits, drift, the judges, the indexes and the
-- normalisation of the injection detector, the Presidio engine, masks, the SDK's tracer, what the
-- callbacks extract from LangChain's objects, signal handling and heartbeats; settings, migrations,
-- logging, the dashboard, the load test and the integrations (wiring, declarations and user interface).
pub mod Common
pub mod Severity
pub mod Event
pub mod Sampling
pub mod Storage
pub mod Pricing
pub mod Budget
pub mod EvalScorer
pub mod Publisher
pub mod Guardrails
pub mod Alerts
pub mod Engine
pub mod Pagination
pub mod Retention
pub mod Injection
pub mod Handler
pub mod Scanner
pub mod Scheduler
pub mod Worker
mod Tests
