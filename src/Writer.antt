-- ===== src/Writer.antt =====
-- src/backend/runtime/writer.py: the queue in front of the store.
pub mod Defs
pub mod Steps
pub mod Served
pub mod Order
pub mod Fifo
