-- ===== src/Schedules.antt =====
-- src/scheduler/schedule-manager.ts: the schedules in the configuration file.
pub mod Cron
pub mod Manager
