-- ===== src/Changes.antt =====
-- src/changes: a change run under the database's lock, behind a checkpoint, with a record of it.
pub mod Record
pub mod Calls
pub mod Delivery
pub mod Guard
pub mod History
pub mod Summary
pub mod Metadata
pub mod Restore
