-- ===== src/Store/Admission.antt =====
-- `ensure_v11_tool_budget_available`: the admission of tool calls against the budget of their run.
use diagops.Base.{
  ℕ, suc, ◌≤◌, Bool, true, false, none, some, List, [], ◌∷◌, ◌++◌, ◌≡◌, ok, arith, ◌&&◌, ◌||◌, not,
  opt_eq, any, length, ltb, ◌==◌, if◌then◌else◌,
}
use diagops.Domain.Run.{RuntimeRun, is_v11}
use diagops.Domain.ToolCall.{ToolCallRecord}
use diagops.Phases.Budget.{consumed_calls, call_key, is_charged}
use diagops.Phases.Accounting.{length-consumed_snoc}
use diagops.Store.Guards.{
  ensure_v11_tool_budget_available, reserve_tool_call, find_call, is_running_call, is_reserved,
}

-- What the budget test lets through: a key that is charged already, or room for one more.
reserve_tool_call-ok :
    (run : RuntimeRun) (calls : List ToolCallRecord) (call : ToolCallRecord) (budget : ℕ)
    → run.tool_budget ≡ some budget
    → reserve_tool_call run calls call ≡ ok tt
    → is_reserved (consumed_calls run.id calls) call.logical_call_id
        || ltb (length (consumed_calls run.id calls)) budget
      ≡ true
unfolding reserve_tool_call
reserve_tool_call-ok run calls call budget h k = ground arith

ensure_v11_tool_budget_available-reserve :
    (run : RuntimeRun) (calls : List ToolCallRecord) (call : ToolCallRecord)
    → is_v11 run ≡ true
    → is_running_call call.status ≡ true
    → find_call calls call.id ≡ none
    → ensure_v11_tool_budget_available run calls call ≡ ok tt
    → reserve_tool_call run calls call ≡ ok tt
unfolding ensure_v11_tool_budget_available
ensure_v11_tool_budget_available-reserve run calls call v running new h = ground arith

reserved-is_known :
    (consumed : List ℕ) (call : ToolCallRecord)
    → opt_eq call.logical_call_id (some 0) ≡ false
    → is_reserved consumed call.logical_call_id ≡ true
    → any (λ k. k == call_key call) consumed ≡ true
reserved-is_known consumed call named h = ground arith

within_budget :
    (consumed after budget : ℕ) (charged known reserved : Bool)
    → (reserved ≡ true → known ≡ true)
    → reserved || ltb consumed budget ≡ true
    → consumed ≤ budget
    → after ≡ (if charged && not known then suc consumed else consumed)
    → after ≤ budget
within_budget consumed after budget charged known reserved linked room within counted = ground arith

-- For a run of version 11 with a tool budget: if the budget test lets a running call in that is not
-- stored yet and whose logical id, if it has one, is not empty, and the calls charged so far are
-- within the budget, then they still are when the call stands with the others.
pub admitted-within_budget :
    (run : RuntimeRun) (calls : List ToolCallRecord) (call : ToolCallRecord) (budget : ℕ)
    → is_v11 run ≡ true
    → run.tool_budget ≡ some budget
    → is_running_call call.status ≡ true
    → find_call calls call.id ≡ none
    → opt_eq call.logical_call_id (some 0) ≡ false
    → length (consumed_calls run.id calls) ≤ budget
    → ensure_v11_tool_budget_available run calls call ≡ ok tt
    → length (consumed_calls run.id (calls ++ (call ∷ []))) ≤ budget
admitted-within_budget run calls call budget v limit running new named within h =
    within_budget _ _ budget (is_charged run.id call) _ _
      (reserved-is_known (consumed_calls run.id calls) call named)
      (reserve_tool_call-ok run calls call budget limit
        (ensure_v11_tool_budget_available-reserve run calls call v running new h))
      within (length-consumed_snoc run.id calls call)
