-- ===== src/Cron.antt =====
-- crates/gn-drive-core/src/cron.rs: cron expressions, their parser and the search for the next
-- fire time.
pub mod Field
pub mod Parser
pub mod Schedule
pub mod Calendar
pub mod Next
mod Samples
mod Tests
