-- ===== src/Human.antt =====
-- backend/domain/human_transitions.py and the two updates of backend/db/repositories.py that call
-- it: what a person may do to actions and verifications.
pub mod Checks
pub mod Actions
pub mod Verifications
pub mod Evidence
pub mod Approval
pub mod Settling
