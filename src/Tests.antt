-- ===== src/Tests.antt =====
-- Concrete runs of the program, to which the theorems are applied.
pub mod Scenario
pub mod Store
pub mod Batches
pub mod Proposals
pub mod Sessions
pub mod Outcomes
pub mod Logs
pub mod Deliveries
pub mod Ledgers
pub mod Schedules
