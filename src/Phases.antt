-- ===== src/Phases.antt =====
-- backend/runtime/phases.py: what a phase writes, in which order phases commit, and the budgets
-- that are recomputed from the durable log.
pub mod Mutation
pub mod Order
pub mod Budget
pub mod Progress
pub mod Accounting
