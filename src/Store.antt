-- ===== src/Store.antt =====
-- backend/runtime/store.py
pub mod State
pub mod Guards
pub mod Runs
pub mod Leases
pub mod Commits
pub mod Terminal
pub mod PhaseCommits
pub mod Audit
pub mod Evolve
pub mod Rollback
pub mod History
pub mod Stale
pub mod Fencing
pub mod Uniqueness
pub mod Cursor
pub mod Admission
pub mod Paging
pub mod Turns
pub mod Expiry
pub mod Cancelling
