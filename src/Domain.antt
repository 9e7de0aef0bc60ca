-- ===== src/Domain.antt =====
-- backend/domain/: the data that the runtime keeps, and the rules that each object enforces.
pub mod Status
pub mod Names
pub mod ToolCall
pub mod Run
pub mod Event
