-- ===== src/Registration.antt =====
-- Registration: the durable operation, its repository and the handlers that drive it.
pub mod Operation
pub mod Repository
pub mod Resume
pub mod Register
pub mod Registering
pub mod Untouched
pub mod Lifecycle
pub mod Sound
pub mod Fencing
pub mod Completion
pub mod Atomicity
pub mod Examples
