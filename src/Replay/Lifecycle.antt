-- ===== src/Replay/Lifecycle.antt =====
-- `_advance_lifecycle`: one event against the state that the events before it have led to.
use diagops.Base.{
  ℕ, Bool, true, false, Option, none, some, List, any, not, ◌||◌, ◌&&◌, contains, opt_eq, is_some,
  id_or_empty, same, if◌then◌else◌,
}
use diagops.Base.Dict
use diagops.Domain.Names.{EventType}
use diagops.Domain.Status.{RunStatus, RunStatus-discrete, AttemptStatus}
use diagops.Domain.Event.{RuntimeEvent}
use diagops.Phases.Order.{opt_phase_eq}
use diagops.Replay.State.{
  ReplayError, LifecycleState, Advance, flag, tool_is_open, add, remove, close_interrupted_work,
}

-- The part of an event's type that the lifecycle depends on.
pub data EventClass : Type 0 where
  run_created run_started run_cancel_requested run_interrupted run_completed : EventClass
  run_failed run_cancelled attempt_started attempt_completed attempt_interrupted : EventClass
  phase_started phase_ended agent_started agent_ended model_started model_ended : EventClass
  tool_moved evidence_persisted evidence_rejected recovery_started : EventClass
  recovery_completed recovery_rejected checkpoint_created : EventClass

abbrev pub class_of : EventType → EventClass
class_of EventType.run_created = run_created
class_of EventType.run_started = run_started
class_of EventType.run_completed = run_completed
class_of EventType.run_failed = run_failed
class_of EventType.run_interrupted = run_interrupted
class_of EventType.run_cancel_requested = run_cancel_requested
class_of EventType.run_cancelled = run_cancelled
class_of EventType.attempt_started = attempt_started
class_of EventType.attempt_completed = attempt_completed
class_of EventType.attempt_interrupted = attempt_interrupted
class_of EventType.phase_started = phase_started
class_of EventType.phase_completed = phase_ended
class_of EventType.phase_failed = phase_ended
class_of EventType.phase_skipped = phase_ended
class_of EventType.agent_started = agent_started
class_of EventType.agent_completed = agent_ended
class_of EventType.agent_failed = agent_ended
class_of EventType.model_started = model_started
class_of EventType.model_completed = model_ended
class_of EventType.model_failed = model_ended
class_of EventType.tool_proposed = tool_moved
class_of EventType.tool_started = tool_moved
class_of EventType.tool_completed = tool_moved
class_of EventType.tool_failed = tool_moved
class_of EventType.tool_rejected = tool_moved
class_of EventType.tool_skipped = tool_moved
class_of EventType.evidence_persisted = evidence_persisted
class_of EventType.evidence_rejected = evidence_rejected
class_of EventType.checkpoint_created = checkpoint_created
class_of EventType.recovery_started = recovery_started
class_of EventType.recovery_completed = recovery_completed
class_of EventType.recovery_rejected = recovery_rejected

abbrev pub has_status : LifecycleState → RunStatus → Bool
has_status state status = same RunStatus-discrete state.run_status status

-- `state.active_attempt_id == event.attempt_id`
abbrev pub is_active : LifecycleState → RuntimeEvent → Bool
is_active state event = opt_eq state.active_attempt_id (some event.attempt_id)

-- The event belongs to the active attempt, or not minded, and to the open phase.
abbrev pub in_open_phase : LifecycleState → RuntimeEvent → Bool
in_open_phase state event = is_some state.open_phase && opt_phase_eq event.phase state.open_phase

abbrev pub is_placed : LifecycleState → RuntimeEvent → Bool
is_placed state event = is_active state event && in_open_phase state event

abbrev pub flagged : Bool → ReplayError → LifecycleState → Advance
flagged wrong error state = record { state = state; errors = flag wrong error }

-- `if wrong: errors.append(error)`, `else:` the change
abbrev pub changed_unless : Bool → ReplayError → LifecycleState → LifecycleState → Advance
changed_unless wrong error state changed = record {
  state = if wrong then state else changed;
  errors = flag wrong error;
}

abbrev pub ended_attempt : LifecycleState → ℕ → AttemptStatus → LifecycleState
ended_attempt state attempt_id status = record state {
  attempt_terminal_status = Dict.put state.attempt_terminal_status attempt_id status;
}

-- The active attempt, if there is one, ends as the run does.
abbrev pub end_active : LifecycleState → Option ℕ → AttemptStatus → LifecycleState
end_active state none status = state
end_active state (some attempt_id) status = ended_attempt state attempt_id status

abbrev pub end_run : LifecycleState → RunStatus → AttemptStatus → LifecycleState
end_run state status attempt_status =
    close_interrupted_work
      (record (end_active state state.active_attempt_id attempt_status) { run_status = status })
      true

abbrev pub with_agents : LifecycleState → List ℕ → LifecycleState
with_agents state agents = record state { open_agents = agents }

-- An open tool call of the agent.
unfoldable pub parents_open_tool : LifecycleState → ℕ → Bool
parents_open_tool state agent =
    any
      (λ key.
        opt_eq (Dict.get state.tool_parents key) (some agent)
        && tool_is_open (Dict.get state.tool_states key))
      (Dict.keys state.tool_parents)

abbrev pub start_agent : LifecycleState → RuntimeEvent → Option ℕ → Advance
start_agent state event none = flagged true ReplayError.illegal_agent_transition state
start_agent state event (some key) =
    changed_unless (contains state.open_agents key || not (is_placed state event))
      ReplayError.illegal_agent_transition state (with_agents state (add state.open_agents key))

unfoldable pub end_agent : LifecycleState → RuntimeEvent → Option ℕ → Advance
unfolding parents_open_tool
end_agent state event none = flagged true ReplayError.illegal_agent_transition state
end_agent state event (some key) =
    changed_unless
      (not (contains state.open_agents key)
        || (not (in_open_phase state event)
            || (contains (Dict.values state.open_models) key || parents_open_tool state key)))
      ReplayError.illegal_agent_transition state (with_agents state (remove state.open_agents key))

abbrev pub agent_is_open : LifecycleState → Option ℕ → Bool
agent_is_open state none = false
agent_is_open state (some agent) = contains state.open_agents agent

abbrev pub start_model : LifecycleState → RuntimeEvent → Option ℕ → Advance
start_model state event none = flagged true ReplayError.illegal_model_transition state
start_model state event (some key) =
    changed_unless
      (is_some (Dict.get state.open_models key)
        || (not (is_placed state event) || not (agent_is_open state event.actor_name)))
      ReplayError.illegal_model_transition state
      (record state { open_models = Dict.put state.open_models key (id_or_empty event.actor_name) })

abbrev pub end_model : LifecycleState → RuntimeEvent → Option ℕ → Advance
end_model state event none = flagged true ReplayError.illegal_model_transition state
end_model state event (some key) =
    changed_unless
      (not (is_some (Dict.get state.open_models key))
        || (not (in_open_phase state event)
            || (not (opt_eq (Dict.get state.open_models key) event.actor_name)
                || not (agent_is_open state event.actor_name))))
      ReplayError.illegal_model_transition state
      (record state { open_models = Dict.pop state.open_models key })
