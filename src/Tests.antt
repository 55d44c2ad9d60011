-- ===== src/Tests.antt =====
-- Runs of the model at concrete inputs, and instances of its theorems there.
mod Fake
mod Worker
mod Reclaim
mod Storage
mod Platform
mod Grading
mod Scan
mod Alerting
mod Tracing
mod Inspection
mod Writing
mod Paging
mod Purging
mod Detection
