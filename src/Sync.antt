-- ===== src/Sync.antt =====
-- Locks: src/sync.
pub mod Locks
pub mod Rwlock
pub mod Spinlock
mod Tests
