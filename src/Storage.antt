-- ===== src/Storage.antt =====
-- src/storage: the deletion guard and the adapter that enforces it.
pub mod Guard
pub mod Adapter
pub mod Safe
