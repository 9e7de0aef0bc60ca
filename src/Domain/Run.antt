-- ===== src/Domain/Run.antt =====
-- backend/domain/runtime.py: runs, attempts and the state that a checkpoint resumes from.
use diagops.Base.{
  ℕ, Bool, true, false, Option, List, Outcome, value_error, guard, ◌>>◌, ◌&&◌, not, is_some,
}
use diagops.Domain.Status.{RunStatus, AttemptStatus}
use diagops.Domain.Names.{
  Phase, RunKind, RunReason, FailureCategory, ContractVersion, AuthorityMode,
}

-- The keys of `execution_contract` that the modelled code reads.
pub record ExecutionContract : Type 0 where
  pub execution_contract_digest : Option ℕ
  pub limits_max_turns : Option ℕ

pub record RuntimeRun : Type 0 where
  pub id : ℕ
  pub investigation_id : ℕ
  pub run_kind : RunKind
  pub status : RunStatus
  pub current_phase : Option Phase
  pub source_run_id : Option ℕ
  pub parent_run_id : Option ℕ
  pub run_reason : RunReason
  pub tool_budget : Option ℕ
  pub token_budget : Option ℕ
  pub remaining_model_turns : Option ℕ
  pub latest_checkpoint_id : Option ℕ
  pub failure_category : Option FailureCategory
  pub created_at : ℕ
  pub started_at : Option ℕ
  pub completed_at : Option ℕ
  pub cancel_requested_at : Option ℕ
  pub lease_owner : Option ℕ
  pub lease_expires_at : Option ℕ
  pub lease_version : ℕ
  pub execution_contract_version : ContractVersion
  pub authority_mode : AuthorityMode
  pub execution_contract : ExecutionContract

abbrev version_is_v11 : ContractVersion → Bool
version_is_v11 ContractVersion.v11 = true
version_is_v11 ContractVersion.v10_legacy = false

unfoldable pub is_v11 : RuntimeRun → Bool
is_v11 run = version_is_v11 run.execution_contract_version

-- `RuntimeRun.validate_lineage`, on the fields that it reads.
unfoldable pub validate_lineage : RunKind → RunReason → Option ℕ → Option ℕ → Outcome (Unit {0})
validate_lineage RunKind.replay RunReason.replay source_run_id parent_run_id =
    guard (is_some source_run_id && not (is_some parent_run_id)) value_error
validate_lineage RunKind.replay _ source_run_id parent_run_id = guard false value_error
validate_lineage RunKind.live RunReason.replay source_run_id parent_run_id = guard false value_error
validate_lineage RunKind.live RunReason.initial source_run_id parent_run_id = do
  guard (not (is_some source_run_id)) value_error
  guard (not (is_some parent_run_id)) value_error
validate_lineage RunKind.live _ source_run_id parent_run_id = do
  guard (not (is_some source_run_id)) value_error
  guard (is_some parent_run_id) value_error

pub record RuntimeAttempt : Type 0 where
  pub id : ℕ
  pub run_id : ℕ
  pub attempt_number : ℕ
  pub resume_from_checkpoint_id : Option ℕ
  pub status : AttemptStatus
  pub completed_at : Option ℕ
  pub failure_category : Option FailureCategory

pub record RuntimeResumeState : Type 0 where
  pub completed_evidence_ids : List ℕ
  pub completed_finding_ids : List ℕ
  pub completed_review_ids : List ℕ
  pub completed_report_ids : List ℕ
  pub remaining_tool_budget : ℕ
  pub remaining_token_budget : Option ℕ
  pub remaining_model_turns : Option ℕ
  pub successful_tool_keys : List ℕ

pub record RuntimeCheckpoint : Type 0 where
  pub id : ℕ
  pub run_id : ℕ
  pub attempt_id : ℕ
  pub completed_phase : Phase
  pub event_sequence : ℕ
  pub state_digest : ℕ
  pub projection_digest : ℕ
  pub resume_state : RuntimeResumeState
  pub schema_version : ℕ
