-- ===== src/Lock.antt =====
-- src/standalone/database-lock.ts: the lock of a restore, and the emptying of what it will refill.
pub mod Schemas
pub mod Postgres
pub mod Mysql
