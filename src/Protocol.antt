-- ===== src/Protocol.antt =====
-- The data that crosses the packages: packages/protocol/src.
pub mod Common
pub mod Core
pub mod Deliberation
pub mod Proposals
pub mod Events
pub mod Host
pub mod Resources
pub mod Encode
