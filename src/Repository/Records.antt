-- ===== src/Repository/Records.antt =====
-- The objects that an investigation is made of (backend/db/models.py and backend/domain/). Texts
-- and other payload that no modelled code looks into are one number, `content`.
use diagops.Base.{ℕ, Bool, Option, List}
use diagops.Base.Dict.{Dict}
use diagops.Domain.Names.{AuthorityMode, InvestigationStatus}
use diagops.Domain.ToolCall.{ToolCallRecord}

pub data ProviderStatus : Type 0 where
  success partial failed skipped not_configured : ProviderStatus

pub record EvidenceItem : Type 0 where
  pub id : ℕ
  pub provider : ℕ
  pub status : ProviderStatus
  pub runtime_run_id : Option ℕ
  pub content : ℕ

pub record ProviderResult : Type 0 where
  pub provider : ℕ
  pub status : ProviderStatus
  pub evidence_items : List EvidenceItem

pub data ActionStatus : Type 0 where
  proposed approved rejected done skipped : ActionStatus

pub record RecommendedAction : Type 0 where
  pub id : ℕ
  pub status : ActionStatus
  pub requires_approval : Bool
  pub is_high_risk : Bool
  pub note : Option ℕ
  pub runtime_run_id : Option ℕ
  pub related_candidate_ids : List ℕ

pub data VerificationStatus : Type 0 where
  pending passed failed skipped : VerificationStatus

pub record VerificationSuggestion : Type 0 where
  pub id : ℕ
  pub status : VerificationStatus
  pub result_note : Option ℕ
  pub result_evidence_ids : List ℕ
  pub related_action_ids : List ℕ
  pub related_cause_types : List ℕ
  pub related_candidate_ids : List ℕ
  pub runtime_run_id : Option ℕ

-- `candidate_ids` are the ids of `diagnoses + alternatives`.
pub record IncidentReport : Type 0 where
  pub id : ℕ
  pub runtime_run_id : Option ℕ
  pub authority_mode : Option AuthorityMode
  pub candidate_ids : List ℕ

pub record MultiAgentRunSummary : Type 0 where
  pub runtime_run_id : Option ℕ
  pub authority_mode : Option AuthorityMode

-- A hypothesis is known by its cause type.
pub record InvestigationRecord : Type 0 where
  pub id : ℕ
  pub status : InvestigationStatus
  pub evidence : List EvidenceItem
  pub provider_results : List ProviderResult
  pub specialist_results : List ℕ
  pub hypotheses : List ℕ
  pub report : Option IncidentReport
  pub llm_analysis : Option ℕ
  pub multi_agent_run : Option MultiAgentRunSummary
  pub actions : List RecommendedAction
  pub verification_suggestions : List VerificationSuggestion
  pub failure_reason : Option ℕ
  pub updated_at : ℕ
  pub completed_at : Option ℕ
  pub active_runtime_run_id : Option ℕ
  pub source_investigation_id : Option ℕ

pub record DiagnosisTask : Type 0 where
  pub id : ℕ
  pub analysis_round : Option ℕ
  pub runtime_run_id : Option ℕ
  pub critic_assessment_id : Option ℕ
  pub content : ℕ

pub record DiagnosisPlan : Type 0 where
  pub investigation_id : ℕ
  pub runtime_run_id : Option ℕ
  pub tasks : List DiagnosisTask

pub data ExecutionLayer : Type 0 where
  custom openai_agents_sdk : ExecutionLayer

pub record AgentExecution : Type 0 where
  pub id : ℕ
  pub execution_layer : ExecutionLayer
  pub runtime_run_id : Option ℕ

pub data FindingActor : Type 0 where
  log metric deployment investigator : FindingActor

pub FindingActor-discrete : Discrete FindingActor
FindingActor-discrete = hlevel

pub record AgentFinding : Type 0 where
  pub id : ℕ
  pub investigation_id : ℕ
  pub agent_name : FindingActor
  pub execution_layer : ExecutionLayer
  pub analysis_round : ℕ
  pub revises_finding_id : Option ℕ
  pub task_id : Option ℕ
  pub runtime_run_id : Option ℕ
  pub critic_assessment_id : Option ℕ

pub record CriticAssessment : Type 0 where
  pub id : ℕ
  pub runtime_run_id : Option ℕ
  pub supplemental_task_ids : List ℕ

pub record CoordinationReview : Type 0 where
  pub id : ℕ
  pub investigation_id : ℕ
  pub execution_layer : ExecutionLayer
  pub authority_mode : AuthorityMode
  pub runtime_run_id : Option ℕ
  pub critic_assessments : List CriticAssessment

pub record ContextFact : Type 0 where
  pub id : ℕ
  pub content : ℕ

pub record ReActTraceStep : Type 0 where
  pub runtime_run_id : Option ℕ
  pub assistant_text : Option ℕ

pub record ReActTrace : Type 0 where
  pub investigation_id : ℕ
  pub runtime_run_id : Option ℕ
  pub steps : List ReActTraceStep

-- `InMemoryInvestigationRepository`, without the memory items, which the runtime never writes.
pub record Repository : Type 0 where
  pub records : Dict InvestigationRecord
  pub plans : Dict DiagnosisPlan
  pub tasks : Dict (List DiagnosisTask)
  pub executions : Dict (Dict AgentExecution)
  pub context_facts : Dict (Dict ContextFact)
  pub tool_calls : Dict (Dict ToolCallRecord)
  pub agent_findings : Dict (Dict AgentFinding)
  pub coordination_reviews : Dict CoordinationReview
  pub react_traces : Dict ReActTrace
