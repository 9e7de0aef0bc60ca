-- ===== src/Replay/Tools.antt =====
-- `_advance_tool`.
use diagops.Base.{
  ℕ, Bool, true, Option, none, some, [], ◌∷◌, not, ◌==◌, contains, opt_eq, id_or_empty,
  if◌then◌else◌,
}
use diagops.Base.Dict
use diagops.Domain.Names.{EventType}
use diagops.Domain.Event.{RuntimeEvent}
use diagops.Replay.State.{ReplayError, ToolState, LifecycleState, Advance}

-- `event.tool_call_id or event.safe_payload.get("idempotency_key")`, where it is a written text
abbrev pub tool_key : RuntimeEvent → ℕ
tool_key event =
    if id_or_empty event.tool_call_id == 0
    then id_or_empty event.safe_payload.idempotency_key
    else id_or_empty event.tool_call_id

abbrev pub refused_tool : LifecycleState → Advance
refused_tool state = record { state = state; errors = ReplayError.illegal_tool_transition ∷ [] }

abbrev pub with_tool : LifecycleState → ℕ → ToolState → LifecycleState
with_tool state key status = record state { tool_states = Dict.put state.tool_states key status }

abbrev pub with_parent : LifecycleState → ℕ → ToolState → ℕ → LifecycleState
with_parent state key status parent = record state {
  tool_states = Dict.put state.tool_states key status;
  tool_parents = Dict.put state.tool_parents key parent;
}

abbrev pub accepted : LifecycleState → Advance
accepted state = record { state = state; errors = [] }

-- What the tool's state allows; `same_parent` is `tool_parents.get(key) == parent`.
abbrev pub move_tool : LifecycleState → EventType → ℕ → ℕ → Option ToolState → Bool → Advance
move_tool state EventType.tool_proposed key parent none same_parent =
    accepted (with_parent state key ToolState.proposed parent)
move_tool state EventType.tool_started key parent none same_parent =
    accepted (with_parent state key ToolState.started parent)
move_tool state EventType.tool_started key parent (some ToolState.proposed) true =
    accepted (with_parent state key ToolState.started parent)
move_tool state EventType.tool_completed key parent (some ToolState.started) true =
    accepted (with_tool state key ToolState.terminal)
move_tool state EventType.tool_failed key parent (some ToolState.started) true =
    accepted (with_tool state key ToolState.terminal)
move_tool state EventType.tool_rejected key parent (some ToolState.proposed) true =
    accepted (with_tool state key ToolState.terminal)
move_tool state EventType.tool_skipped key parent (some ToolState.proposed) true =
    accepted (with_tool state key ToolState.terminal)
move_tool state _ key parent _ _ = refused_tool state

abbrev pub advance_tool_by : LifecycleState → RuntimeEvent → Option ℕ → Advance
advance_tool_by state event none = refused_tool state
advance_tool_by state event (some parent) =
    if not (contains state.open_agents parent)
    then refused_tool state
    else move_tool state event.event_type (tool_key event) parent
        (Dict.get state.tool_states (tool_key event))
        (opt_eq (Dict.get state.tool_parents (tool_key event)) (some parent))

unfoldable pub advance_tool : LifecycleState → RuntimeEvent → Advance
advance_tool state event =
    if tool_key event == 0 then refused_tool state else advance_tool_by state event event.actor_name
