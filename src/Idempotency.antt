-- ===== src/Idempotency.antt =====
-- Durable idempotency: completed results, their table, and the execution bound to them.
pub mod Record
pub mod Durable
pub mod Once
pub mod Examples
