-- ===== src/Portal.antt =====
-- The reporter portal: src/reporter.
pub mod Rows
pub mod Signatures
pub mod Reporters
pub mod Reads
pub mod Intake
pub mod Replies
mod Tests
