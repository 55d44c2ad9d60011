-- ===== src/Engine.antt =====
-- packages/obs-platform/src/obs_platform/guardrails/engine.py: the findings of an event and the flags
-- that a trace accumulates. Scores are in ten-thousandths, as they are rounded for the flags.
pub mod Texts
pub mod Scan
pub mod Inspect
pub mod Flags
pub mod Order
pub mod Batch
pub mod Risk
