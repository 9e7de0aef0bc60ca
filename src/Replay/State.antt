-- ===== src/Replay/State.antt =====
-- `_LifecycleState`, its helpers, and the errors that a replay reports.
use diagops.Base.{
  ℕ, Bool, true, false, Option, none, some, List, [], ◌∷◌, keep, any, not, ◌||◌, ◌&&◌, ◌==◌,
  contains, is_some, id_or_empty, if◌then◌else◌,
}
use diagops.Base.Dict
use diagops.Base.Dict.{Dict}
use diagops.Domain.Names.{Phase}
use diagops.Domain.Status.{RunStatus, AttemptStatus}
use diagops.Domain.Event.{RuntimeEvent}

pub data ReplayError : Type 0 where
  illegal_phase_order event_sequence_duplicate event_sequence_gap unsupported_schema : ReplayError
  bad_reference illegal_run_transition illegal_attempt_transition : ReplayError
  illegal_phase_transition illegal_agent_transition illegal_model_transition : ReplayError
  illegal_tool_transition illegal_evidence_transition illegal_recovery_transition : ReplayError
  attempt_row_mismatch attempt_checkpoint_mismatch : ReplayError
  checkpoint_projection_mismatch checkpoint_digest_mismatch : ReplayError

unfoldable pub ReplayError-discrete : Discrete ReplayError
ReplayError-discrete = hlevel

-- `"proposed"`, `"started"`, `"terminal"`
pub data ToolState : Type 0 where
  proposed started terminal : ToolState

-- `phase_order_index` is one more than in the code, where it starts at -1.
pub record LifecycleState : Type 0 where
  pub run_status : RunStatus
  pub active_attempt_id : Option ℕ
  pub started_attempt_ids : List ℕ
  pub open_phase : Option Phase
  pub phase_order_index : ℕ
  pub open_agents : List ℕ
  pub open_models : Dict ℕ
  pub tool_states : Dict ToolState
  pub tool_parents : Dict ℕ
  pub recovery_attempt_id : Option ℕ
  pub attempt_order : List ℕ
  pub attempt_terminal_status : Dict AttemptStatus
  pub recovery_checkpoint_ids : Dict (Option ℕ)
  pub recovery_attempt_numbers : Dict (Option ℕ)

unfoldable pub initial : LifecycleState
initial = record {
  run_status = RunStatus.created;
  active_attempt_id = none;
  started_attempt_ids = [];
  open_phase = none;
  phase_order_index = 0;
  open_agents = [];
  open_models = Dict.empty;
  tool_states = Dict.empty;
  tool_parents = Dict.empty;
  recovery_attempt_id = none;
  attempt_order = [];
  attempt_terminal_status = Dict.empty;
  recovery_checkpoint_ids = Dict.empty;
  recovery_attempt_numbers = Dict.empty;
}

-- What a step returns: the changed state and the errors it has found.
pub record Advance : Type 0 where
  pub state : LifecycleState
  pub errors : List ReplayError

-- `if wrong: errors.append(error)`
abbrev pub flag : Bool → ReplayError → List ReplayError
flag true error = error ∷ []
flag false error = []

abbrev pub is_empty : List ℕ → Bool
is_empty [] = true
is_empty (x ∷ xs) = false

-- `status in {"proposed", "started"}`
abbrev pub is_open_tool : ToolState → Bool
is_open_tool ToolState.terminal = false
is_open_tool _ = true

abbrev pub tool_is_open : Option ToolState → Bool
tool_is_open none = false
tool_is_open (some status) = is_open_tool status

-- `set.add`
abbrev pub add : List ℕ → ℕ → List ℕ
add xs x = if contains xs x then xs else x ∷ xs

-- `set.remove`
abbrev pub remove : List ℕ → ℕ → List ℕ
remove xs x = keep (λ y. not (y == x)) xs

-- `_has_open_phase_work`
unfoldable pub has_open_phase_work : LifecycleState → Bool
has_open_phase_work state =
    not (is_empty state.open_agents)
    || (not (is_empty (Dict.values state.open_models))
        || any is_open_tool (Dict.values state.tool_states))

-- `_has_open_work`
unfoldable pub has_open_work : LifecycleState → Bool
has_open_work state =
    is_some state.open_phase
    || (not (is_empty state.open_agents)
        || (not (is_empty (Dict.values state.open_models))
            || (is_some state.recovery_attempt_id
                || any is_open_tool (Dict.values state.tool_states))))

abbrev pub made_terminal : ToolState → ToolState
made_terminal _ = ToolState.terminal

-- `_close_interrupted_work`
unfoldable pub close_interrupted_work : LifecycleState → Bool → LifecycleState
close_interrupted_work state clear_attempt = record state {
  active_attempt_id = if clear_attempt then none else state.active_attempt_id;
  open_phase = none;
  open_agents = [];
  open_models = Dict.empty;
  tool_states = Dict.update_values made_terminal state.tool_states;
  tool_parents = Dict.empty;
  recovery_attempt_id = none;
}

-- `_entity_key`: an empty text counts as absent for `or`.
unfoldable pub entity_key : RuntimeEvent → Bool → Option ℕ
entity_key event include_actor =
    let key = if id_or_empty event.execution_id == 0 then event.task_id else event.execution_id in
    if not (is_some key) && include_actor then event.actor_name else key
