-- ===== src/Examples/Rules.antt =====
-- The rules on statuses, phases and budgets, on single values.
use diagops.Base.{
  ℕ, ◌+◌, ◌-◌, ◌≤◌, true, false, Option, none, some, [], ◌∷◌, ◌++◌, ◌≡◌, ◌≢◌, ◌⊎◌, ◌↔◌, refl, ok,
  arith, length, any, keep, first,
}
use diagops.Domain.Status.{RunStatus, is_terminal, leads_to}
use diagops.Domain.Status.Reach.{Reach, here, step, Reach-iff, lifecycle, CanEnd}
use diagops.Domain.Names.{Phase, ContractVersion, EventType, ActorType}
use diagops.Domain.Run.{RuntimeRun, is_v11}
use diagops.Domain.Event.{RuntimeEvent, ReservationStatus, empty_payload}
use diagops.Domain.ToolCall.{ToolCallRecord, ToolCallStatus, consumes_budget}
use diagops.Phases.Order.{ensure_phase_precondition, phase_order_for}
use diagops.Phases.Progress.{Follows, accepted_iff}
use diagops.Phases.Budget.{
  durable_remaining_token_budget, durable_token_usage, consumed_calls, distinct,
}
use diagops.Phases.Accounting.{completed_call, failed_call, remaining-antitone}
use diagops.Store.Guards.{ensure_v11_tool_budget_available, reserve_tool_call, find_call}
use diagops.Store.Admission.{admitted-within_budget}
use diagops.Examples.{new_run}

Reach-iff_example :
    Reach RunStatus.cancelling RunStatus.completed
    ↔ (leads_to RunStatus.cancelling RunStatus.completed ≡ true)
Reach-iff_example = Reach-iff RunStatus.cancelling RunStatus.completed

lifecycle_example :
    ((is_terminal RunStatus.created ≡ false) ⊎ (RunStatus.cancelled ≡ RunStatus.created))
    × ((RunStatus.cancelled ≢ RunStatus.created) ⊎ (RunStatus.created ≡ RunStatus.created))
    × CanEnd RunStatus.cancelled
lifecycle_example = lifecycle RunStatus.created RunStatus.cancelled (step here refl)

accepted_iff_example :
    (ensure_phase_precondition
        (some Phase.intake)
        (some 9)
        (some 9)
        (some Phase.intake)
        Phase.evidence_collection
        (phase_order_for ContractVersion.v11)
      ≡ ok tt)
    ↔ ((◌≡◌ {A = Option ℕ} (some 9) (some 9))
        × (◌≡◌ {A = Option Phase} (some Phase.intake) (some Phase.intake))
        × Follows
            (some Phase.intake)
            Phase.evidence_collection
            (phase_order_for ContractVersion.v11))
accepted_iff_example =
    accepted_iff ContractVersion.v11 (some Phase.intake) (some 9) (some 9) (some Phase.intake)
      Phase.evidence_collection

abbrev model_completed : RuntimeEvent
model_completed = record {
  run_id = 5;
  attempt_id = 7;
  sequence = 1;
  event_type = EventType.model_completed;
  phase = none;
  actor_type = ActorType.model;
  actor_name = none;
  task_id = none;
  tool_call_id = none;
  execution_id = none;
  evidence_ids = [];
  schema_version = 1;
  safe_payload = record empty_payload { input_tokens = some 30; output_tokens = some 12 };
}

remains : durable_remaining_token_budget (model_completed ∷ []) 5 100 ≡ 58
unfolding durable_remaining_token_budget durable_token_usage any
remains = refl

remaining-antitone_example :
    (durable_remaining_token_budget (model_completed ∷ []) 5 100 ≤ 100)
    × (durable_remaining_token_budget ((model_completed ∷ []) ++ (model_completed ∷ [])) 5 100
        ≤ durable_remaining_token_budget (model_completed ∷ []) 5 100)
    × (durable_remaining_token_budget
          ((model_completed ∷ []) ++ (completed_call 5 model_completed 20 10 ∷ []))
          5
          100
        ≡ durable_remaining_token_budget (model_completed ∷ []) 5 100 - (20 + 10))
    × (durable_remaining_token_budget
          ((model_completed ∷ [])
            ++ (failed_call 5 model_completed ReservationStatus.unknown 70 ∷ []))
          5
          100
        ≡ durable_remaining_token_budget (model_completed ∷ []) 5 100 - 70)
    × (durable_remaining_token_budget
          ((model_completed ∷ [])
            ++ (failed_call 5 model_completed ReservationStatus.retrying 70 ∷ []))
          5
          100
        ≡ durable_remaining_token_budget (model_completed ∷ []) 5 100)
    × (durable_remaining_token_budget
          ((model_completed ∷ [])
            ++ (failed_call 5 model_completed ReservationStatus.rejected 70 ∷ []))
          5
          100
        ≡ 0)
    × ((model_completed.run_id ≡ 5)
        ⊎ (durable_remaining_token_budget ((model_completed ∷ []) ++ (model_completed ∷ [])) 5 100
            ≡ durable_remaining_token_budget (model_completed ∷ []) 5 100))
remaining-antitone_example =
    remaining-antitone (model_completed ∷ []) (model_completed ∷ []) 5 100 model_completed 20 10 70

abbrev limited_run : RuntimeRun
limited_run = record new_run {
  execution_contract_version = ContractVersion.v11;
  tool_budget = some 2;
}

abbrev stored_call : ToolCallRecord
stored_call = record {
  id = 11;
  task_id = 1;
  agent_name = 1;
  tool_name = 1;
  status = ToolCallStatus.success;
  output_evidence_ids = [];
  completed_at = some 4;
  runtime_run_id = some 5;
  logical_call_id = some 21;
  idempotency_key = none;
  execution_id = none;
  budget_charged = some true;
}

abbrev next_call : ToolCallRecord
next_call = record stored_call {
  id = 12;
  logical_call_id = some 22;
  status = ToolCallStatus.running;
}

limited_run-is_v11 : is_v11 limited_run ≡ true
unfolding is_v11
limited_run-is_v11 = refl

new_call : find_call (stored_call ∷ []) 12 ≡ none
unfolding first
new_call = refl

within : length (consumed_calls 5 (stored_call ∷ [])) ≤ 2
unfolding consumed_calls distinct keep any consumes_budget
within = omega arith

let_in : ensure_v11_tool_budget_available limited_run (stored_call ∷ []) next_call ≡ ok tt
unfolding ensure_v11_tool_budget_available reserve_tool_call is_v11 consumed_calls distinct keep any
    first consumes_budget
let_in = refl

admitted-within_budget_example :
    length (consumed_calls 5 ((stored_call ∷ []) ++ (next_call ∷ []))) ≤ 2
admitted-within_budget_example =
    admitted-within_budget limited_run (stored_call ∷ []) next_call 2 limited_run-is_v11 refl refl
      new_call refl within let_in
