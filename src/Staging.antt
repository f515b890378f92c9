-- ===== src/Staging.antt =====
-- src/lumina/staging: files that wait for a reviewer.
pub mod Templates
pub mod Service
