-- ===== src/Daemon.antt =====
-- src/lumina/daemon: the batch runs of the background daemon and the proposals they make.
pub mod Report
pub mod Scheduler
pub mod Monitor
