-- ===== src/Replay.antt =====
-- src/backend/runtime/replay.py: a finished run is read again and its history is checked.
pub mod Reading
pub mod State
pub mod Tools
pub mod Lifecycle
pub mod Advance
pub mod Validate
pub mod Rows
pub mod Changes
pub mod Accepted
pub mod Walk
pub mod Nesting
pub mod Nested
pub mod Whole
pub mod Ended
pub mod Checkpoints
pub mod Committed
