-- ===== src/Replay/Validate.antt =====
-- `_validate_events` and `_validate_attempt_rows`: a run's history against its rows.
use diagops.Base.{
  ℕ, suc, ◌+◌, max, Bool, true, false, Option, none, some, List, [], ◌∷◌, ◌++◌, any, not, ◌&&◌,
  ◌==◌, ltb, contains, is_some, Outcome, ok, err, if◌then◌else◌,
}
use diagops.Base.Dict
use diagops.Base.Dict.{Dict}
use diagops.Domain.Names.{EventType, Phase}
use diagops.Domain.Run.{RuntimeRun, RuntimeAttempt, RuntimeCheckpoint}
use diagops.Domain.Event.{RuntimeEvent}
use diagops.Phases.Order.{phase_order_for, index}
use diagops.Replay.State.{ReplayError, LifecycleState, Advance, flag}
use diagops.Replay.Lifecycle.{EventClass, class_of}
use diagops.Replay.Advance.{advance_lifecycle}

-- What the loop looks events up in: the rows of the run, and the ids that the frozen projection
-- lists, none of them where there is no projection.
pub record Sources : Type 0 where
  pub run : RuntimeRun
  pub attempts : Dict RuntimeAttempt
  pub checkpoints : Dict RuntimeCheckpoint
  pub evidence_ids : List ℕ
  pub task_ids : List ℕ
  pub execution_ids : List ℕ
  pub tool_call_ids : List ℕ

abbrev pub is_agent_event : EventType → Bool
is_agent_event EventType.agent_started = true
is_agent_event EventType.agent_completed = true
is_agent_event EventType.agent_failed = true
is_agent_event _ = false

-- `id is not None and id not in ids`
abbrev pub is_dangling : List ℕ → Option ℕ → Bool
is_dangling ids none = false
is_dangling ids (some id) = not (contains ids id)

abbrev pub has_no_row : {A : Type 0} → Dict A → Option ℕ → Bool
has_no_row rows none = false
has_no_row rows (some id) = not (is_some (Dict.get rows id))

abbrev pub is_foreign : RuntimeRun → Option RuntimeAttempt → Bool
is_foreign run none = true
is_foreign run (some attempt) = not (attempt.run_id == run.id)

-- The checks of one event's references.
unfoldable pub check_references : Sources → RuntimeEvent → List ReplayError
check_references sources event =
    flag (not (event.schema_version == 1)) ReplayError.unsupported_schema
    ++ (flag (not (event.run_id == sources.run.id)) ReplayError.bad_reference
        ++ (flag (is_foreign sources.run (Dict.get sources.attempts event.attempt_id))
              ReplayError.bad_reference
            ++ (flag (any (λ item. not (contains sources.evidence_ids item)) event.evidence_ids)
                  ReplayError.bad_reference
                ++ (flag (is_dangling sources.task_ids event.task_id) ReplayError.bad_reference
                    ++ (flag
                          (is_agent_event event.event_type
                            && is_dangling sources.execution_ids event.execution_id)
                          ReplayError.bad_reference
                        ++ (flag (is_dangling sources.tool_call_ids event.tool_call_id)
                              ReplayError.bad_reference
                            ++ flag
                                (has_no_row sources.checkpoints event.safe_payload.checkpoint_id)
                                ReplayError.bad_reference))))))

-- What the loop carries.
pub record Progress : Type 0 where
  pub seen : List ℕ
  pub expected : ℕ
  pub lifecycle : LifecycleState

abbrev pub order_phase_at : LifecycleState → Outcome ℕ → Advance
order_phase_at state (err e) = record {
  state = state;
  errors = ReplayError.illegal_phase_order ∷ [];
}
order_phase_at state (ok i) =
    if ltb (suc i) state.phase_order_index
    then record { state = state; errors = ReplayError.illegal_phase_order ∷ [] }
    else record { state = record state { phase_order_index = suc i }; errors = [] }

abbrev pub order_phase_of : List Phase → LifecycleState → EventClass → Option Phase → Advance
order_phase_of order state EventClass.phase_started (some phase) =
    order_phase_at state (index phase order)
order_phase_of order state _ _ = record { state = state; errors = [] }

-- A phase may start again, and an earlier one may not.
unfoldable pub order_phase : List Phase → LifecycleState → RuntimeEvent → Advance
unfolding index
order_phase order state event = order_phase_of order state (class_of event.event_type) event.phase

unfoldable pub check_sequence : Progress → ℕ → List ReplayError
check_sequence progress sequence =
    if contains progress.seen sequence
    then ReplayError.event_sequence_duplicate ∷ []
    else flag (not (sequence == progress.expected)) ReplayError.event_sequence_gap

abbrev pub advance_known : LifecycleState → RuntimeEvent → Advance
advance_known state event =
    if event.schema_version == 1
    then advance_lifecycle state event
    else record { state = state; errors = [] }

-- One round of the loop.
unfoldable pub validate_event : Sources → Progress → RuntimeEvent → Progress × List ReplayError
unfolding order_phase check_sequence check_references advance_lifecycle
validate_event sources progress event =
    let ordered =
      order_phase (phase_order_for sources.run.execution_contract_version) progress.lifecycle
        event in
    let advanced = advance_known ordered.state event in
    (
      record {
        seen = event.sequence ∷ progress.seen;
        expected = max progress.expected (event.sequence + 1);
        lifecycle = advanced.state;
      },
      ordered.errors
          ++ (check_sequence progress event.sequence
              ++ (check_references sources event ++ advanced.errors)),
    )

unfoldable pub validate_loop : Sources → Progress → List RuntimeEvent → Progress × List ReplayError
unfolding validate_event
validate_loop sources progress [] = (progress, [])
validate_loop sources progress (event ∷ events) =
    let here = validate_event sources progress event in
    let rest = validate_loop sources here.0 events in (rest.0, here.1 ++ rest.1)
