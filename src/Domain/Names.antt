-- ===== src/Domain/Names.antt =====
-- The enumerations of backend/domain/runtime.py, backend/domain/multi_agent.py and
-- backend/db/models.py.

pub data Phase : Type 0 where
  intake evidence_collection deterministic_rca specialist_analysis conflict_review : Phase
  coordination report_generation finalize lead_planning investigator_round_1 : Phase
  critic_review investigator_round_2 critic_reconciliation lead_adjudication : Phase
  result_validation : Phase

unfoldable pub Phase-discrete : Discrete Phase
Phase-discrete = hlevel

pub data RunKind : Type 0 where
  live replay : RunKind

pub data RunReason : Type 0 where
  initial additional_evidence manual_rerun replay : RunReason

pub data ActorType : Type 0 where
  runtime phase agent model tool provider recovery : ActorType

pub data EventType : Type 0 where
  run_created run_started run_completed run_failed run_interrupted : EventType
  run_cancel_requested run_cancelled attempt_started attempt_completed : EventType
  attempt_interrupted phase_started phase_completed phase_failed phase_skipped : EventType
  agent_started agent_completed agent_failed model_started model_completed : EventType
  model_failed tool_proposed tool_started tool_completed tool_failed : EventType
  tool_rejected tool_skipped evidence_persisted evidence_rejected : EventType
  checkpoint_created recovery_started recovery_completed recovery_rejected : EventType

pub data FailureCategory : Type 0 where
  none lease_lost checkpoint_invalid resume_conflict persistence_failure : FailureCategory
  cancelled provider_failure model_failure timeout output_validation : FailureCategory
  contract_integrity unknown : FailureCategory

pub data ContractVersion : Type 0 where
  v10_legacy v11 : ContractVersion

pub data AuthorityMode : Type 0 where
  legacy_deterministic agent : AuthorityMode

pub data InvestigationStatus : Type 0 where
  pending running completed failed cancelled : InvestigationStatus
