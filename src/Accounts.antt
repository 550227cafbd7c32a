-- ===== src/Accounts.antt =====
-- Accounts and sessions of the staff, and the platforms: src/admin and src/auth. Rows has the
-- tables, Admin the administration, Sessions the login and the check of each request.
pub mod Rows
pub mod Admin
pub mod Sessions
pub mod Handoff
mod Tests
