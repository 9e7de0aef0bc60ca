-- ===== src/Repository.antt =====
-- backend/db/repositories.py: the in-memory repository of investigations, and the rules of
-- backend/db/models.py that a write enforces.
pub mod Records
pub mod Owners
pub mod Defs
