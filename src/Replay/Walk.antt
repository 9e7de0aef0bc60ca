-- ===== src/Replay/Walk.antt =====
-- The statuses that the events of a run announce, against the transitions that a run may make.
use mathlib.Core.Path.{subst}
use diagops.Base.{
  ℕ, true, false, not, ◌&&◌, Option, none, some, List, [], ◌∷◌, ◌≡◌, refl, ap, ◌∙◌, arith,
  branch-keeps,
}
use diagops.Domain.Event.{RuntimeEvent}
use diagops.Domain.Names.{Phase}
use diagops.Domain.Status.{RunStatus, allowed_transitions}
use diagops.Phases.Order.{phase_order_for}
use diagops.Replay.State.{
  ReplayError, LifecycleState, flag, initial, Advance, close_interrupted_work, entity_key,
}
use diagops.Replay.Tools.{advance_tool}
use diagops.Replay.Lifecycle.{
  EventClass, class_of, has_status, is_placed, start_agent, end_agent, start_model, end_model,
}
use diagops.Replay.Advance.{advance_class}
use diagops.Replay.Validate.{Sources, Progress, order_phase, validate_event, validate_loop}
use diagops.Replay.Changes.{advance_tool-keeps}
use diagops.Replay.Rows.{check_end, some_events, start, validate_events}
use diagops.Replay.Accepted.{no_errors, unflagged, ordered, accepted_round, accepted_loop}

-- The status that a class of events announces.
abbrev pub announced : EventClass → Option RunStatus
announced EventClass.run_started = some RunStatus.running
announced EventClass.run_cancel_requested = some RunStatus.cancelling
announced EventClass.run_interrupted = some RunStatus.interrupted
announced EventClass.run_completed = some RunStatus.completed
announced EventClass.run_failed = some RunStatus.failed
announced EventClass.run_cancelled = some RunStatus.cancelled
announced _ = none

-- From one status to another by the announced statuses, each step an allowed transition.
abbrev pub Legal : RunStatus → Option RunStatus → (RunStatus → Type 0) → Type 0
Legal status none rest = rest status
Legal status (some next) rest = (allowed_transitions status next ≡ true) × rest next

abbrev pub Walk : RunStatus → List RuntimeEvent → RunStatus → Type 0
Walk status [] final = status ≡ final
Walk status (event ∷ events) final =
    Legal status (announced (class_of event.event_type)) (λ next. Walk next events final)

abbrev or_same : RunStatus → Option RunStatus → RunStatus
or_same status none = status
or_same status (some next) = next

module _ (state : LifecycleState) (event : RuntimeEvent) where
  abbrev HasStatus : LifecycleState → Type 0
  HasStatus new = new.run_status ≡ state.run_status

  start_agent-status :
      (o : Option ℕ) → (start_agent state event o).state.run_status ≡ state.run_status
  start_agent-status none = refl
  start_agent-status (some key) = branch-keeps HasStatus _ state _ (λ _. refl) (λ _. refl)

  end_agent-status : (o : Option ℕ) → (end_agent state event o).state.run_status ≡ state.run_status
  unfolding end_agent
  end_agent-status none = refl
  end_agent-status (some key) = branch-keeps HasStatus _ state _ (λ _. refl) (λ _. refl)

  start_model-status :
      (o : Option ℕ) → (start_model state event o).state.run_status ≡ state.run_status
  start_model-status none = refl
  start_model-status (some key) = branch-keeps HasStatus _ state _ (λ _. refl) (λ _. refl)

  end_model-status : (o : Option ℕ) → (end_model state event o).state.run_status ≡ state.run_status
  end_model-status none = refl
  end_model-status (some key) = branch-keeps HasStatus _ state _ (λ _. refl) (λ _. refl)

  advance_tool-status : (advance_tool state event).state.run_status ≡ state.run_status
  advance_tool-status =
      advance_tool-keeps HasStatus state event refl (λ parent new _ moves. ground arith)

-- A class of events moves the status to what it announces.
advance_class-status :
    (state : LifecycleState) (event : RuntimeEvent) (c : EventClass)
    → (advance_class state event c).state.run_status ≡ or_same state.run_status (announced c)
unfolding advance_class close_interrupted_work end_agent
advance_class-status state event EventClass.run_created = refl
advance_class-status state event EventClass.attempt_started = refl
advance_class-status state event EventClass.attempt_completed = refl
advance_class-status state event EventClass.attempt_interrupted = refl
advance_class-status state event EventClass.phase_started = refl
advance_class-status state event EventClass.phase_ended = refl
advance_class-status state event EventClass.evidence_persisted = refl
advance_class-status state event EventClass.evidence_rejected = refl
advance_class-status state event EventClass.recovery_started = refl
advance_class-status state event EventClass.recovery_completed = refl
advance_class-status state event EventClass.recovery_rejected = refl
advance_class-status state event EventClass.checkpoint_created = refl
advance_class-status state event EventClass.run_started = refl
advance_class-status state event EventClass.run_cancel_requested = refl
advance_class-status state event EventClass.run_interrupted = refl
advance_class-status state event EventClass.run_completed = refl
advance_class-status state event EventClass.run_failed = refl
advance_class-status state event EventClass.run_cancelled = refl
advance_class-status state event EventClass.agent_started =
    start_agent-status state event event.actor_name
advance_class-status state event EventClass.agent_ended =
    end_agent-status state event event.actor_name
advance_class-status state event EventClass.model_started =
    start_model-status state event (entity_key event false)
advance_class-status state event EventClass.model_ended =
    end_model-status state event (entity_key event false)
advance_class-status state event EventClass.tool_moved =
    branch-keeps (λ (a : Advance). a.state.run_status ≡ state.run_status)
      (not (is_placed state event)) _ _ (λ _. refl) (λ _. advance_tool-status state event)

-- An announced status is one that the run may take on.
abbrev MayFollow : RunStatus → Option RunStatus → Type 0
MayFollow status none = Unit
MayFollow status (some next) = allowed_transitions status next ≡ true

advance_class-MayFollow :
    (state : LifecycleState) (event : RuntimeEvent) (c : EventClass)
    → (advance_class state event c).errors ≡ []
    → MayFollow state.run_status (announced c)
unfolding advance_class
advance_class-MayFollow state event EventClass.run_started h = ground arith
advance_class-MayFollow state event EventClass.run_cancel_requested h = ground arith
advance_class-MayFollow state event EventClass.run_interrupted h = ground arith
advance_class-MayFollow state event EventClass.run_completed h = ground arith
advance_class-MayFollow state event EventClass.run_failed h = ground arith
advance_class-MayFollow state event EventClass.run_cancelled h = ground arith
advance_class-MayFollow state event EventClass.run_created h = tt
advance_class-MayFollow state event EventClass.attempt_started h = tt
advance_class-MayFollow state event EventClass.attempt_completed h = tt
advance_class-MayFollow state event EventClass.attempt_interrupted h = tt
advance_class-MayFollow state event EventClass.phase_started h = tt
advance_class-MayFollow state event EventClass.phase_ended h = tt
advance_class-MayFollow state event EventClass.agent_started h = tt
advance_class-MayFollow state event EventClass.agent_ended h = tt
advance_class-MayFollow state event EventClass.model_started h = tt
advance_class-MayFollow state event EventClass.model_ended h = tt
advance_class-MayFollow state event EventClass.tool_moved h = tt
advance_class-MayFollow state event EventClass.evidence_persisted h = tt
advance_class-MayFollow state event EventClass.evidence_rejected h = tt
advance_class-MayFollow state event EventClass.recovery_started h = tt
advance_class-MayFollow state event EventClass.recovery_completed h = tt
advance_class-MayFollow state event EventClass.recovery_rejected h = tt
advance_class-MayFollow state event EventClass.checkpoint_created h = tt

order_phase-status :
    (order : List Phase) (state : LifecycleState) (event : RuntimeEvent)
    → (order_phase order state event).state.run_status ≡ state.run_status
unfolding order_phase
order_phase-status order state event = ground arith

legal_walk :
    (status : RunStatus) (o : Option RunStatus) (P : RunStatus → Type 0)
    → MayFollow status o
    → P (or_same status o)
    → Legal status o P
legal_walk status none P may rest = rest
legal_walk status (some next) P may rest = (may, rest)

loop-Walk :
    (sources : Sources) (progress : Progress) (events : List RuntimeEvent)
    → (validate_loop sources progress events).1 ≡ []
    → Walk progress.lifecycle.run_status events
        (validate_loop sources progress events).0.lifecycle.run_status
unfolding validate_loop
loop-Walk sources progress [] h = refl
loop-Walk sources progress (event ∷ events) h =
    let (here, rest) = no_errors (validate_event sources progress event).1 _ h in
    let before =
      order_phase-status (phase_order_for sources.run.execution_contract_version) progress.lifecycle
        event in
    let final =
      (validate_loop sources (validate_event sources progress event).0
        events).0.lifecycle.run_status in
    let c = class_of event.event_type in
    let (after, none_found) = accepted_round sources progress event here in
    let may = advance_class-MayFollow (ordered sources progress event).state event c none_found in
    let moved = advance_class-status (ordered sources progress event).state event c in
    let later = loop-Walk sources (validate_event sources progress event).0 events rest in
    legal_walk progress.lifecycle.run_status (announced c) _
      (subst (λ status. MayFollow status (announced c)) before may)
      (subst (λ status. Walk status events final)
        (ap (λ state. state.run_status) after
          ∙ moved
          ∙ ap (λ status. or_same status (announced c)) before)
        later)

final_status :
    (state : LifecycleState) (events : List RuntimeEvent) (status : RunStatus)
    → some_events events ≡ true
    → check_end state events status ≡ []
    → state.run_status ≡ status
unfolding check_end
final_status state events status some_of h =
    let wrong = some_events events && not (has_status state status) in
    let (first, _) = no_errors (flag wrong ReplayError.illegal_run_transition) _ h in
    let right = unflagged wrong _ first in ground arith

-- Where a replay finds no fault with the events of a run that has some, the statuses that they
-- announce are a walk of allowed transitions from `created` to the status of the run.
pub validate_events-Walk :
    (sources : Sources) (events : List RuntimeEvent)
    → some_events events ≡ true
    → validate_events sources events ≡ []
    → Walk RunStatus.created events sources.run.status
validate_events-Walk sources events some_of h =
    let (accepted, _, ends) = accepted_loop sources events h in
    let final =
      final_status (validate_loop sources start events).0.lifecycle events sources.run.status
        some_of ends in
    subst (Walk RunStatus.created events) final
      (unfold initial in loop-Walk sources start events accepted)
