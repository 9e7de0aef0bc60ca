-- ===== src/Replay/Ended.antt =====
-- A tool call that has ended, whatever events follow.
use mathlib.Core.Option
use diagops.Base.{
  ℕ, Bool, true, false, not, Option, none, some, List, [], ◌∷◌, ◌≡◌, ap, ◌∙◌, arith, branch-keeps,
  ◌==◌,
}
use diagops.Base.Dict
use diagops.Base.Dict.{get-put, get-update_values}
use diagops.Domain.Event.{RuntimeEvent}
use diagops.Domain.Status.{AttemptStatus}
use diagops.Phases.Order.{phase_order_for}
use diagops.Replay.State.{
  ToolState, LifecycleState, Advance, made_terminal, close_interrupted_work, entity_key,
}
use diagops.Replay.Tools.{tool_key}
use diagops.Replay.Changes.{MovesTool, advance_tool-keeps, order_phase-is}
use diagops.Replay.Lifecycle.{
  EventClass, class_of, is_placed, end_active, start_agent, end_agent, start_model, end_model,
}
use diagops.Replay.Advance.{advance_class, advance_lifecycle}
use diagops.Replay.Validate.{Sources, Progress, validate_event, validate_loop}
use diagops.Replay.Accepted.{ordered}

module _ (k : ℕ) where
  abbrev Ended : LifecycleState → Type 0
  Ended state = Dict.get state.tool_states k ≡ some ToolState.terminal

  closed-Ended :
      (state : LifecycleState) (clear_attempt : Bool)
      → Ended state
      → Ended (close_interrupted_work state clear_attempt)
  unfolding close_interrupted_work
  closed-Ended state clear_attempt ended =
      get-update_values made_terminal state.tool_states k ∙ ap (Option.map made_terminal) ended

  end_active-Ended :
      (state : LifecycleState) (o : Option ℕ) (status : AttemptStatus)
      → Ended state
      → Ended (end_active state o status)
  end_active-Ended state none status ended = ended
  end_active-Ended state (some attempt_id) status ended = ended

  start_agent-Ended :
      (state : LifecycleState) (event : RuntimeEvent) (o : Option ℕ)
      → Ended state
      → Ended (start_agent state event o).state
  start_agent-Ended state event none ended = ended
  start_agent-Ended state event (some key) ended =
      branch-keeps Ended _ state _ (λ _. ended) (λ _. ended)

  end_agent-Ended :
      (state : LifecycleState) (event : RuntimeEvent) (o : Option ℕ)
      → Ended state
      → Ended (end_agent state event o).state
  unfolding end_agent
  end_agent-Ended state event none ended = ended
  end_agent-Ended state event (some key) ended =
      branch-keeps Ended _ state _ (λ _. ended) (λ _. ended)

  start_model-Ended :
      (state : LifecycleState) (event : RuntimeEvent) (o : Option ℕ)
      → Ended state
      → Ended (start_model state event o).state
  start_model-Ended state event none ended = ended
  start_model-Ended state event (some key) ended =
      branch-keeps Ended _ state _ (λ _. ended) (λ _. ended)

  end_model-Ended :
      (state : LifecycleState) (event : RuntimeEvent) (o : Option ℕ)
      → Ended state
      → Ended (end_model state event o).state
  end_model-Ended state event none ended = ended
  end_model-Ended state event (some key) ended =
      branch-keeps Ended _ state _ (λ _. ended) (λ _. ended)

  moved-Ended :
      (state new : LifecycleState) (key parent : ℕ)
      → Ended state
      → MovesTool state key parent (Dict.get state.tool_states key) new
      → Ended new
  moved-Ended state new key parent ended moves =
      let proposed = get-put state.tool_states key k ToolState.proposed in
      let started = get-put state.tool_states key k ToolState.started in
      let terminal = get-put state.tool_states key k ToolState.terminal in ground arith

  advance_class-Ended :
      (state : LifecycleState) (event : RuntimeEvent) (c : EventClass)
      → Ended state
      → Ended (advance_class state event c).state
  unfolding advance_class
  advance_class-Ended state event EventClass.run_created ended = ended
  advance_class-Ended state event EventClass.run_started ended = ended
  advance_class-Ended state event EventClass.run_cancel_requested ended = ended
  advance_class-Ended state event EventClass.run_completed ended = ended
  advance_class-Ended state event EventClass.attempt_started ended = ended
  advance_class-Ended state event EventClass.attempt_completed ended = ended
  advance_class-Ended state event EventClass.phase_started ended = ended
  advance_class-Ended state event EventClass.phase_ended ended = ended
  advance_class-Ended state event EventClass.evidence_persisted ended = ended
  advance_class-Ended state event EventClass.evidence_rejected ended = ended
  advance_class-Ended state event EventClass.recovery_started ended = ended
  advance_class-Ended state event EventClass.recovery_completed ended = ended
  advance_class-Ended state event EventClass.recovery_rejected ended = ended
  advance_class-Ended state event EventClass.checkpoint_created ended = ended
  advance_class-Ended state event EventClass.run_interrupted ended = closed-Ended state false ended
  advance_class-Ended state event EventClass.run_failed ended =
      closed-Ended (end_active state state.active_attempt_id AttemptStatus.failed) true
        (end_active-Ended state state.active_attempt_id AttemptStatus.failed ended)
  advance_class-Ended state event EventClass.run_cancelled ended =
      closed-Ended (end_active state state.active_attempt_id AttemptStatus.cancelled) true
        (end_active-Ended state state.active_attempt_id AttemptStatus.cancelled ended)
  advance_class-Ended state event EventClass.attempt_interrupted ended =
      closed-Ended state true ended
  advance_class-Ended state event EventClass.agent_started ended =
      start_agent-Ended state event event.actor_name ended
  advance_class-Ended state event EventClass.agent_ended ended =
      end_agent-Ended state event event.actor_name ended
  advance_class-Ended state event EventClass.model_started ended =
      start_model-Ended state event (entity_key event false) ended
  advance_class-Ended state event EventClass.model_ended ended =
      end_model-Ended state event (entity_key event false) ended
  advance_class-Ended state event EventClass.tool_moved ended =
      branch-keeps (λ (a : Advance). Ended a.state) (not (is_placed state event)) _ _ (λ _. ended)
        (λ _.
          advance_tool-keeps Ended state event ended
            (λ parent new _ moves. moved-Ended state new (tool_key event) parent ended moves))

  validate_event-Ended :
      (sources : Sources) (progress : Progress) (event : RuntimeEvent)
      → Ended progress.lifecycle
      → Ended (validate_event sources progress event).0.lifecycle
  unfolding validate_event advance_lifecycle
  validate_event-Ended sources progress event ended =
      let (n, e) =
        order_phase-is (phase_order_for sources.run.execution_contract_version) progress.lifecycle
          event in
      let before : Ended (ordered sources progress event).state =
        ap (λ s. Dict.get s.tool_states k) e ∙ ended in
      branch-keeps (λ (a : Advance). Ended a.state) (event.schema_version == 1) _ _
        (λ _.
          advance_class-Ended (ordered sources progress event).state event
            (class_of event.event_type) before)
        (λ _. before)

-- When a replay has seen a tool call end, it holds the call for ended after any further events,
-- also where it finds fault with them.
pub ended_stays :
    (k : ℕ) (sources : Sources) (progress : Progress) (events : List RuntimeEvent)
    → Dict.get progress.lifecycle.tool_states k ≡ some ToolState.terminal
    → Dict.get (validate_loop sources progress events).0.lifecycle.tool_states k
      ≡ some ToolState.terminal
unfolding validate_loop
ended_stays k sources progress [] ended = ended
ended_stays k sources progress (event ∷ events) ended =
    ended_stays k sources (validate_event sources progress event).0 events
      (validate_event-Ended k sources progress event ended)
