-- ===== src/Core.antt =====
-- packages/core/src: the deliberation engine over the event store.
pub mod World
pub mod SealedDivergence
pub mod Projections
pub mod ProcessProposals
pub mod ExtractionProposals
pub mod Session
pub mod FinalOutcome
