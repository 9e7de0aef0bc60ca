-- ===== src/Replay/Advance.antt =====
-- `_advance_lifecycle`, class by class of events.
use diagops.Base.{
  ℕ, true, false, Option, none, some, [], ◌∷◌, ◌++◌, not, ◌||◌, ◌==◌, contains, opt_eq, is_some,
  id_or_empty, if◌then◌else◌,
}
use diagops.Base.Dict
use diagops.Domain.Status.{RunStatus, AttemptStatus}
use diagops.Domain.Event.{RuntimeEvent}
use diagops.Replay.State.{
  ReplayError, LifecycleState, Advance, flag, is_empty, add, has_open_phase_work, has_open_work,
  close_interrupted_work, entity_key,
}
use diagops.Replay.Tools.{advance_tool}
use diagops.Replay.Lifecycle.{
  EventClass, class_of, has_status, is_active, is_placed, flagged, ended_attempt, end_run,
  start_agent, end_agent, start_model, end_model,
}

abbrev with_status : LifecycleState → RunStatus → LifecycleState
with_status state status = record state { run_status = status }

abbrev with_active : LifecycleState → Option ℕ → LifecycleState
with_active state attempt_id = record state { active_attempt_id = attempt_id }

abbrev with_phase : LifecycleState → RuntimeEvent → LifecycleState
with_phase state event = record state { open_phase = event.phase }

abbrev pub start_attempt : LifecycleState → RuntimeEvent → LifecycleState
start_attempt state event = record state {
  active_attempt_id = some event.attempt_id;
  started_attempt_ids = add state.started_attempt_ids event.attempt_id;
  attempt_order = state.attempt_order ++ (event.attempt_id ∷ []);
}

abbrev pub start_recovery : LifecycleState → RuntimeEvent → LifecycleState
start_recovery state event = record state {
  recovery_attempt_id = some event.attempt_id;
  recovery_checkpoint_ids =
      Dict.put state.recovery_checkpoint_ids event.attempt_id event.safe_payload.checkpoint_id;
  recovery_attempt_numbers =
      Dict.put state.recovery_attempt_numbers event.attempt_id
        event.safe_payload.resume_attempt_number;
}

-- The branch of `_advance_lifecycle` for a class of events. An error does not stop the change,
-- save where the code has an `else`.
unfoldable pub advance_class : LifecycleState → RuntimeEvent → EventClass → Advance
unfolding end_agent has_open_work has_open_phase_work close_interrupted_work entity_key advance_tool
advance_class state event EventClass.run_created =
    flagged (not (has_status state RunStatus.created) || not (is_empty state.started_attempt_ids))
      ReplayError.illegal_run_transition state
advance_class state event EventClass.run_started =
    flagged (not (has_status state RunStatus.created || has_status state RunStatus.interrupted))
      ReplayError.illegal_run_transition (with_status state RunStatus.running)
advance_class state event EventClass.run_cancel_requested =
    flagged (not (has_status state RunStatus.running)) ReplayError.illegal_run_transition
      (with_status state RunStatus.cancelling)
advance_class state event EventClass.run_interrupted =
    flagged (not (has_status state RunStatus.running || has_status state RunStatus.cancelling))
      ReplayError.illegal_run_transition
      (close_interrupted_work (with_status state RunStatus.interrupted) false)
advance_class state event EventClass.run_completed = record {
  state = with_status state RunStatus.completed;
  errors =
      flag (not (has_status state RunStatus.running)) ReplayError.illegal_run_transition
      ++ flag (not (id_or_empty state.active_attempt_id == 0))
          ReplayError.illegal_attempt_transition;
}
advance_class state event EventClass.run_failed =
    flagged (not (has_status state RunStatus.running)) ReplayError.illegal_run_transition
      (end_run state RunStatus.failed AttemptStatus.failed)
advance_class state event EventClass.run_cancelled =
    flagged (not (has_status state RunStatus.cancelling)) ReplayError.illegal_run_transition
      (end_run state RunStatus.cancelled AttemptStatus.cancelled)
advance_class state event EventClass.attempt_started =
    flagged
      (not (has_status state RunStatus.running)
        || (is_some state.active_attempt_id || contains state.started_attempt_ids event.attempt_id))
      ReplayError.illegal_attempt_transition (start_attempt state event)
advance_class state event EventClass.attempt_completed =
    flagged
      (not (has_status state RunStatus.running)
        || (not (is_active state event) || has_open_work state))
      ReplayError.illegal_attempt_transition
      (ended_attempt (with_active state none) event.attempt_id AttemptStatus.completed)
advance_class state event EventClass.attempt_interrupted =
    flagged (not (has_status state RunStatus.interrupted) || not (is_active state event))
      ReplayError.illegal_attempt_transition
      (close_interrupted_work (ended_attempt state event.attempt_id AttemptStatus.interrupted) true)
advance_class state event EventClass.phase_started =
    flagged
      (not (has_status state RunStatus.running)
        || (not (is_active state event) || (is_some state.open_phase || not (is_some event.phase))))
      ReplayError.illegal_phase_transition (with_phase state event)
advance_class state event EventClass.phase_ended =
    flagged (not (is_placed state event) || has_open_phase_work state)
      ReplayError.illegal_phase_transition (record state { open_phase = none })
advance_class state event EventClass.agent_started = start_agent state event event.actor_name
advance_class state event EventClass.agent_ended = end_agent state event event.actor_name
advance_class state event EventClass.model_started =
    start_model state event (entity_key event false)
advance_class state event EventClass.model_ended = end_model state event (entity_key event false)
advance_class state event EventClass.tool_moved =
    if not (is_placed state event)
    then flagged true ReplayError.illegal_tool_transition state
    else advance_tool state event
advance_class state event EventClass.evidence_persisted =
    flagged (is_empty event.evidence_ids || not (is_placed state event))
      ReplayError.illegal_evidence_transition state
advance_class state event EventClass.evidence_rejected =
    flagged (not (is_placed state event)) ReplayError.illegal_evidence_transition state
advance_class state event EventClass.recovery_started =
    flagged
      (not (has_status state RunStatus.running)
        || (not (is_active state event) || is_some state.recovery_attempt_id))
      ReplayError.illegal_recovery_transition (start_recovery state event)
advance_class state event EventClass.recovery_completed =
    flagged (not (opt_eq state.recovery_attempt_id (some event.attempt_id)))
      ReplayError.illegal_recovery_transition (record state { recovery_attempt_id = none })
advance_class state event EventClass.recovery_rejected =
    flagged (not (has_status state RunStatus.interrupted) || is_some state.active_attempt_id)
      ReplayError.illegal_recovery_transition state
advance_class state event EventClass.checkpoint_created = record { state = state; errors = [] }

unfoldable pub advance_lifecycle : LifecycleState → RuntimeEvent → Advance
unfolding advance_class
advance_lifecycle state event = advance_class state event (class_of event.event_type)
