-- ===== src/Cloud.antt =====
-- src/cloud: the local queue of changes, the delta, the conflict report and the synchronisation.
pub mod Types
pub mod Dict
pub mod Queue
pub mod Diff
pub mod Conflict
pub mod Sync
