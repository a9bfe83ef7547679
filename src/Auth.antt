-- ===== src/Auth.antt =====
-- The use cases of authentication: login, refresh, logout and the current user, on the tables of
-- SessionStore.
pub mod Tokens
pub mod Exchange
pub mod Refresh
pub mod Login
pub mod Presenting
pub mod System
pub mod Once
pub mod Replaying
pub mod Delivery
pub mod Opening
pub mod Fresh
pub mod LoggingIn
pub mod Examples
