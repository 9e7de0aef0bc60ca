-- ===== src/Domain/ToolCall.antt =====
-- backend/domain/tool_calls.py
use diagops.Base.{ℕ, Bool, true, false, Option, none, some, List}

pub data ToolCallStatus : Type 0 where
  pending running success failed skipped interrupted : ToolCallStatus

pub ToolCallStatus-discrete : Discrete ToolCallStatus
ToolCallStatus-discrete = hlevel

pub record ToolCallRecord : Type 0 where
  pub id : ℕ
  pub task_id : ℕ
  pub agent_name : ℕ
  pub tool_name : ℕ
  pub status : ToolCallStatus
  pub output_evidence_ids : List ℕ
  pub completed_at : Option ℕ
  pub runtime_run_id : Option ℕ
  pub logical_call_id : Option ℕ
  pub idempotency_key : Option ℕ
  pub execution_id : Option ℕ
  pub budget_charged : Option Bool

-- `status in {PENDING, RUNNING}`
abbrev pub is_open : ToolCallStatus → Bool
is_open ToolCallStatus.pending = true
is_open ToolCallStatus.running = true
is_open _ = false

-- `status in {SUCCESS, FAILED, INTERRUPTED}`
abbrev pub is_settled : ToolCallStatus → Bool
is_settled ToolCallStatus.success = true
is_settled ToolCallStatus.failed = true
is_settled ToolCallStatus.interrupted = true
is_settled _ = false

-- `ToolCallRecord.consumes_budget`
abbrev charged_or : Option Bool → ToolCallStatus → Bool
charged_or (some charged) status = charged
charged_or none ToolCallStatus.pending = false
charged_or none _ = true

unfoldable pub consumes_budget : ToolCallRecord → Bool
consumes_budget call = charged_or call.budget_charged call.status
