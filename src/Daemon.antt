-- ===== src/Daemon.antt =====
-- internal/scheduler: the daemon that starts workflows at their times.
pub mod Job
