-- ===== src/Hub.antt =====
-- src/backend/runtime/event_hub.py: the notifications of committed events.
pub mod Defs
pub mod Moves
pub mod Bounded
pub mod Soundness
pub mod Stream
pub mod Slices
pub mod CatchUp
pub mod Complete
pub mod Readers
