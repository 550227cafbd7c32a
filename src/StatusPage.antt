-- ===== src/StatusPage.antt =====
-- The status page of a platform: src/status/status.service.ts. Rows has its tables, Staff the
-- writes, Public the page that everybody may read. Below Staff, Writes and Sound are about what the writes do.
pub mod Rows
pub mod Staff
pub mod Public
mod Tests
