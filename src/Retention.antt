-- ===== src/Retention.antt =====
-- The two retention policies: src/cli/utils/retention.ts and src/wal/retention.service.ts.
pub mod Marks
pub mod Cli
pub mod Service
