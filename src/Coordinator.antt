-- ===== src/Coordinator.antt =====
-- The coordinator of idempotency: the hot lease round the durable execution.
pub mod Execute
pub mod Stores
pub mod Durability
pub mod Examples
