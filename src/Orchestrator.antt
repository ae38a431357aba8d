-- ===== src/Orchestrator.antt =====
-- packages/orchestrator/src: decisions about a run that are computed from its ledger.
pub mod Gaps
pub mod Scheduler
