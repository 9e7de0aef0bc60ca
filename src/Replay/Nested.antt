-- ===== src/Replay/Nested.antt =====
-- The events of a run, class by class and in sequence, against `IsNested`.
use mathlib.Core.Path.{subst}
use diagops.Base.{
  ℕ, true, false, not, ◌||◌, Option, List, [], ◌∷◌, ◌++◌, ◌≡◌, refl, sym, ap, arith, inl, inr, ◌==◌,
  contains, is_some, id_or_empty, branch-keeps,
}
use diagops.Base.Dict
use diagops.Base.Dict.{get-empty, get-put}
use diagops.Domain.Names.{Phase}
use diagops.Domain.Event.{RuntimeEvent}
use diagops.Domain.Status.{RunStatus, AttemptStatus}
use diagops.Phases.Order.{phase_order_for}
use diagops.Replay.State.{
  ReplayError, ToolState, LifecycleState, flag, initial, Advance, is_empty, has_open_work,
  has_open_phase_work, entity_key,
}
use diagops.Replay.Tools.{with_tool, with_parent, tool_key}
use diagops.Replay.Changes.{order_phase-is, MovesTool, advance_tool-keeps}
use diagops.Replay.Lifecycle.{
  EventClass, class_of, has_status, is_active, is_placed, ended_attempt, end_active,
}
use diagops.Replay.Advance.{advance_class}
use diagops.Replay.Validate.{Sources, Progress, order_phase, validate_event, validate_loop}
use diagops.Replay.Rows.{start, validate_events}
use diagops.Replay.Accepted.{no_errors, ordered, accepted_round, accepted_loop}
use diagops.Replay.Nesting.{
  ◌⟹◌, is_live, IsNested, closed-IsNested, start_agent-IsNested, end_agent-IsNested,
  start_model-IsNested, end_model-IsNested,
}

module _ (state : LifecycleState) (nested : IsNested state) where
  with_parent-IsNested :
      (key : ℕ) (status : ToolState) (parent : ℕ)
      → contains state.open_agents parent ≡ true
      → IsNested (with_parent state key status parent)
  with_parent-IsNested key status parent is_open = record {
    models = nested.models;
    tools = λ k.
        let before = nested.tools k in
        let put_state = get-put state.tool_states key k status in
        let put_parent = get-put state.tool_parents key k parent in ground arith;
    agents = nested.agents;
    phases = nested.phases;
    attempts = nested.attempts;
  }

  with_tool-IsNested : (key : ℕ) → IsNested (with_tool state key ToolState.terminal)
  with_tool-IsNested key = record {
    models = nested.models;
    tools = λ k.
        let before = nested.tools k in
        let put_state = get-put state.tool_states key k ToolState.terminal in ground arith;
    agents = nested.agents;
    phases = nested.phases;
    attempts = nested.attempts;
  }

  moved-IsNested :
      (key parent : ℕ) (old : Option ToolState) (new : LifecycleState)
      → contains state.open_agents parent ≡ true
      → MovesTool state key parent old new
      → IsNested new
  moved-IsNested key parent old new is_open moves = elim moves [
    | inl e ↦ subst IsNested (sym e) nested
    | inr (inl (_, e)) ↦
        subst IsNested (sym e) (with_parent-IsNested key ToolState.proposed parent is_open)
    | inr (inr (inl (_, e))) ↦
        subst IsNested (sym e) (with_parent-IsNested key ToolState.started parent is_open)
    | inr (inr (inr (inl (_, e)))) ↦
        subst IsNested (sym e) (with_parent-IsNested key ToolState.started parent is_open)
    | inr (inr (inr (inr (inl (_, e))))) ↦ subst IsNested (sym e) (with_tool-IsNested key)
    | inr (inr (inr (inr (inr (_, e))))) ↦ subst IsNested (sym e) (with_tool-IsNested key)
  ]

  -- Phase, attempt and status may change, and the open work of agents stays as it is.
  around-IsNested :
      (new : LifecycleState)
      → new.open_models ≡ state.open_models
      → new.tool_states ≡ state.tool_states
      → new.tool_parents ≡ state.tool_parents
      → new.open_agents ≡ state.open_agents
      → (not (is_empty new.open_agents) ⟹ is_some new.open_phase) ≡ true
      → (is_some new.open_phase ⟹ is_some new.active_attempt_id) ≡ true
      → (not (id_or_empty new.active_attempt_id == 0) ⟹ is_live new.run_status) ≡ true
      → IsNested new
  around-IsNested new models tools parents agents a p t = record {
    models = λ k.
        let before = nested.models k in let at_k = ap (λ d. Dict.get d k) models in ground arith;
    tools = λ k.
        let before = nested.tools k in
        let state_at_k = ap (λ d. Dict.get d k) tools in
        let parent_at_k = ap (λ d. Dict.get d k) parents in ground arith;
    agents = a;
    phases = p;
    attempts = t;
  }

completed_idle :
    (state : LifecycleState)
    → flag (not (has_status state RunStatus.running)) ReplayError.illegal_run_transition
        ++ flag
            (not (id_or_empty state.active_attempt_id == 0))
            ReplayError.illegal_attempt_transition
      ≡ []
    → (not (id_or_empty state.active_attempt_id == 0) ⟹ is_live RunStatus.completed) ≡ true
completed_idle state h = ground arith

started_live :
    (state : LifecycleState) (event : RuntimeEvent)
    → flag
        (not (has_status state RunStatus.running)
          || (is_some state.active_attempt_id
              || contains state.started_attempt_ids event.attempt_id))
        ReplayError.illegal_attempt_transition
      ≡ []
    → is_live state.run_status ≡ true
started_live state event h = ground arith

completed_phase :
    (state : LifecycleState) (event : RuntimeEvent)
    → flag
        (not (has_status state RunStatus.running)
          || (not (is_active state event) || has_open_work state))
        ReplayError.illegal_attempt_transition
      ≡ []
    → (is_some state.open_phase ⟹ false) ≡ true
unfolding has_open_work
completed_phase state event h = ground arith

phase_starts :
    (state : LifecycleState) (event : RuntimeEvent)
    → IsNested state
    → flag
        (not (has_status state RunStatus.running)
          || (not (is_active state event)
              || (is_some state.open_phase || not (is_some event.phase))))
        ReplayError.illegal_phase_transition
      ≡ []
    → ((not (is_empty state.open_agents) ⟹ is_some event.phase) ≡ true)
      × ((is_some event.phase ⟹ is_some state.active_attempt_id) ≡ true)
phase_starts state event nested h = let before = nested.agents in ground arith

phase_ends :
    (state : LifecycleState) (event : RuntimeEvent)
    → flag
        (not (is_placed state event) || has_open_phase_work state)
        ReplayError.illegal_phase_transition
      ≡ []
    → (not (is_empty state.open_agents) ⟹ false) ≡ true
unfolding has_open_phase_work
phase_ends state event h = ground arith

advance_class-IsNested :
    (state : LifecycleState) (event : RuntimeEvent) (c : EventClass)
    → IsNested state
    → (advance_class state event c).errors ≡ []
    → IsNested (advance_class state event c).state
unfolding advance_class
advance_class-IsNested state event EventClass.run_created nested h = nested
advance_class-IsNested state event EventClass.evidence_persisted nested h = nested
advance_class-IsNested state event EventClass.evidence_rejected nested h = nested
advance_class-IsNested state event EventClass.recovery_rejected nested h = nested
advance_class-IsNested state event EventClass.checkpoint_created nested h = nested
advance_class-IsNested state event EventClass.recovery_started nested h =
    around-IsNested state nested _ refl refl refl refl nested.agents nested.phases nested.attempts
advance_class-IsNested state event EventClass.recovery_completed nested h =
    around-IsNested state nested _ refl refl refl refl nested.agents nested.phases nested.attempts
advance_class-IsNested state event EventClass.run_started nested h =
    around-IsNested state nested _ refl refl refl refl nested.agents nested.phases (ground arith)
advance_class-IsNested state event EventClass.run_cancel_requested nested h =
    around-IsNested state nested _ refl refl refl refl nested.agents nested.phases (ground arith)
advance_class-IsNested state event EventClass.run_interrupted nested h =
    closed-IsNested (record state { run_status = RunStatus.interrupted }) false (ground arith)
advance_class-IsNested state event EventClass.run_completed nested h =
    around-IsNested state nested _ refl refl refl refl nested.agents nested.phases
      (completed_idle state h)
advance_class-IsNested state event EventClass.run_failed nested h =
    closed-IsNested
      (record (end_active state state.active_attempt_id AttemptStatus.failed) {
        run_status = RunStatus.failed;
      })
      true refl
advance_class-IsNested state event EventClass.run_cancelled nested h =
    closed-IsNested
      (record (end_active state state.active_attempt_id AttemptStatus.cancelled) {
        run_status = RunStatus.cancelled;
      })
      true refl
advance_class-IsNested state event EventClass.attempt_started nested h =
    around-IsNested state nested _ refl refl refl refl nested.agents (ground arith)
      (let live = started_live state event h in ground arith)
advance_class-IsNested state event EventClass.attempt_completed nested h =
    around-IsNested state nested _ refl refl refl refl nested.agents (completed_phase state event h)
      refl
advance_class-IsNested state event EventClass.attempt_interrupted nested h =
    closed-IsNested (ended_attempt state event.attempt_id AttemptStatus.interrupted) true refl
advance_class-IsNested state event EventClass.phase_started nested h =
    around-IsNested state nested _ refl refl refl refl (phase_starts state event nested h).0
      (phase_starts state event nested h).1 nested.attempts
advance_class-IsNested state event EventClass.phase_ended nested h =
    around-IsNested state nested _ refl refl refl refl (phase_ends state event h) refl
      nested.attempts
advance_class-IsNested state event EventClass.agent_started nested h =
    start_agent-IsNested state event nested event.actor_name
advance_class-IsNested state event EventClass.agent_ended nested h =
    end_agent-IsNested state event nested event.actor_name
advance_class-IsNested state event EventClass.model_started nested h =
    start_model-IsNested state event nested (entity_key event false)
advance_class-IsNested state event EventClass.model_ended nested h =
    end_model-IsNested state event nested (entity_key event false)
advance_class-IsNested state event EventClass.tool_moved nested h =
    branch-keeps (λ (a : Advance). IsNested a.state) (not (is_placed state event)) _ _ (λ _. nested)
      (λ _. advance_tool-keeps IsNested state event nested (λ parent new is_open moves.
        moved-IsNested state nested (tool_key event) parent _ new is_open moves))

ordered-IsNested :
    (order : List Phase) (state : LifecycleState) (event : RuntimeEvent)
    → IsNested state
    → IsNested (order_phase order state event).state
ordered-IsNested order state event nested =
    let (n, e) = order_phase-is order state event in
    subst IsNested (sym e) (
      around-IsNested state nested (record state { phase_order_index = n }) refl refl refl refl
        nested.agents nested.phases nested.attempts)

loop-IsNested :
    (sources : Sources) (progress : Progress) (events later : List RuntimeEvent)
    → IsNested progress.lifecycle
    → (validate_loop sources progress (events ++ later)).1 ≡ []
    → IsNested (validate_loop sources progress events).0.lifecycle
unfolding validate_loop
loop-IsNested sources progress [] later nested h = nested
loop-IsNested sources progress (event ∷ events) later nested h =
    let (here, rest) = no_errors (validate_event sources progress event).1 _ h in
    let (after, none_found) = accepted_round sources progress event here in
    let before =
      ordered-IsNested (phase_order_for sources.run.execution_contract_version) progress.lifecycle
        event nested in
    let next =
      advance_class-IsNested (ordered sources progress event).state event
        (class_of event.event_type) before none_found in
    loop-IsNested sources (validate_event sources progress event).0 events later
      (subst IsNested (sym after) next) rest

start-IsNested : IsNested start.lifecycle
unfolding initial
start-IsNested = record {
  models = λ k. let gone = get-empty {V = ℕ} k in ground arith;
  tools = λ k. let gone = get-empty {V = ToolState} k in ground arith;
  agents = refl;
  phases = refl;
  attempts = refl;
}

-- Where a replay finds no fault with a run's events, then after each of them: open model calls and
-- open tool calls belong to open agents, agents are open only in an open phase, a phase only in an
-- active attempt, and an attempt (with an id) is active only while the run is running, cancelling
-- or interrupted.
pub validate_events-IsNested :
    (sources : Sources) (events later : List RuntimeEvent)
    → validate_events sources (events ++ later) ≡ []
    → IsNested (validate_loop sources start events).0.lifecycle
validate_events-IsNested sources events later h =
    let (accepted, _, _) = accepted_loop sources (events ++ later) h in
    loop-IsNested sources start events later start-IsNested accepted
