-- ===== src/Auth.antt =====
-- crates/gn-drive-core/src/auth.rs, with argon2id.rs and crypto.rs: the master password.
pub mod Password
pub mod Files
pub mod Service
pub mod Unlock
pub mod Lock
mod Toys
mod Tests
