-- ===== src/Outbox.antt =====
-- The transactional outbox: its rows, the repository's statements and the relay.
pub mod Message
pub mod Claim
pub mod Outcome
pub mod Lifecycle
pub mod System
pub mod Batch
pub mod Sound
pub mod Fencing
pub mod Examples
