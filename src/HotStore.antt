-- ===== src/HotStore.antt =====
-- The hot store of idempotency: the scripts that the Valkey server runs, the adapter, the wrapper
-- that guards it by a circuit breaker.
pub mod Script
pub mod Adapter
pub mod Guarded
pub mod Lease
pub mod Replay
pub mod Examples
