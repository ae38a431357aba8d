-- ===== src/Resources.antt =====
-- packages/resources/src: resources, and what of them a participant may be handed.
pub mod Types
pub mod Broker
pub mod Runtime
pub mod Url
pub mod Base64
pub mod Planner
