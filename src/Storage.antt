-- ===== src/Storage.antt =====
-- packages/storage/src: the append-only event store.
pub mod Idempotency
pub mod Integrity
pub mod Chain
pub mod Memory
pub mod JsonFile
