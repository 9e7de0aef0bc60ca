-- ===== src/Examples/Replays.antt =====
-- A replayed run with one attempt, in which one agent has made one tool call.
use diagops.Base.{ℕ, none, some, List, [], ◌∷◌, ◌++◌, ◌≡◌, ◌≢◌, refl, any, keep}
use diagops.Base.Dict
use diagops.Domain.Names.{Phase, Phase-discrete, EventType, ActorType}
use diagops.Domain.Status.{RunStatus, RunStatus-discrete, AttemptStatus, AttemptStatus-discrete}
use diagops.Domain.Event.{RuntimeEvent, empty_payload}
use diagops.Phases.Order.{phase_order_for, index}
use diagops.Store.Evolve.{Numbered}
use diagops.Replay.State.{
  ToolState, initial, has_open_work, has_open_phase_work, close_interrupted_work, entity_key,
  ReplayError-discrete,
}
use diagops.Replay.Tools.{advance_tool}
use diagops.Replay.Lifecycle.{end_agent, parents_open_tool}
use diagops.Replay.Advance.{advance_class, advance_lifecycle}
use diagops.Replay.Validate.{
  Sources, Progress, order_phase, check_sequence, check_references, validate_event, validate_loop,
}
use diagops.Replay.Rows.{
  validate_events, validate_attempt_rows, differ, check_rows, check_end, unique_errors, start,
}
use diagops.Replay.Accepted.{validate_events-Numbered}
use diagops.Replay.Walk.{Walk, validate_events-Walk}
use diagops.Replay.Nesting.{IsNested}
use diagops.Replay.Nested.{validate_events-IsNested}
use diagops.Replay.Ended.{ended_stays}
use diagops.Examples.{new_run, first_attempt}

abbrev happened : ℕ → EventType → RuntimeEvent
happened sequence event_type = record {
  run_id = 5;
  attempt_id = 7;
  sequence = sequence;
  event_type = event_type;
  phase = some Phase.intake;
  actor_type = ActorType.runtime;
  actor_name = some 4;
  task_id = none;
  tool_call_id = none;
  execution_id = none;
  evidence_ids = [];
  schema_version = 1;
  safe_payload = empty_payload;
}

abbrev of_tool : ℕ → EventType → RuntimeEvent
of_tool sequence event_type = record (happened sequence event_type) { tool_call_id = some 11 }

abbrev before_call : List RuntimeEvent
before_call =
    happened 1 EventType.run_started
    ∷ happened 2 EventType.attempt_started
    ∷ happened 3 EventType.phase_started
    ∷ happened 4 EventType.agent_started
    ∷ of_tool 5 EventType.tool_proposed
    ∷ of_tool 6 EventType.tool_started
    ∷ []

abbrev after_call : List RuntimeEvent
after_call =
    of_tool 7 EventType.tool_completed
    ∷ happened 8 EventType.agent_completed
    ∷ happened 9 EventType.phase_completed
    ∷ happened 10 EventType.attempt_completed
    ∷ happened 11 EventType.run_completed
    ∷ []

abbrev sources : Sources
sources = record {
  run = record new_run { status = RunStatus.completed };
  attempts = Dict.put Dict.empty 7 (record first_attempt { status = AttemptStatus.completed });
  checkpoints = Dict.empty;
  evidence_ids = [];
  task_ids = [];
  execution_ids = [];
  tool_call_ids = 11 ∷ [];
}

faultless : validate_events sources (before_call ++ after_call) ≡ []
unfolding validate_events validate_attempt_rows differ check_rows check_end unique_errors
    validate_loop validate_event order_phase index check_sequence check_references phase_order_for
    advance_lifecycle advance_class advance_tool end_agent parents_open_tool has_open_work
    has_open_phase_work close_interrupted_work entity_key initial any keep Dict.get Dict.put
    Dict.empty Dict.pop Dict.keys Dict.values Dict.update_values RunStatus-discrete
    AttemptStatus-discrete Phase-discrete
faultless = refl

-- Without its first event the log is refused.
faulty : validate_events sources after_call ≢ []
unfolding validate_events validate_attempt_rows differ check_rows check_end unique_errors
    validate_loop validate_event order_phase index check_sequence check_references phase_order_for
    advance_lifecycle advance_class advance_tool end_agent parents_open_tool has_open_work
    has_open_phase_work close_interrupted_work entity_key initial any keep Dict.get Dict.put
    Dict.empty Dict.pop Dict.keys Dict.values Dict.update_values RunStatus-discrete
    AttemptStatus-discrete Phase-discrete ReplayError-discrete
faulty h = cc

validate_events-Numbered_example : Numbered 5 0 (before_call ++ after_call)
validate_events-Numbered_example =
    validate_events-Numbered sources (before_call ++ after_call) faultless

validate_events-Walk_example :
    Walk RunStatus.created (before_call ++ after_call) RunStatus.completed
validate_events-Walk_example =
    validate_events-Walk sources (before_call ++ after_call) refl faultless

validate_events-IsNested_example : IsNested (validate_loop sources start before_call).0.lifecycle
validate_events-IsNested_example = validate_events-IsNested sources before_call after_call faultless

abbrev ended_call : Progress
ended_call = record {
  seen = [];
  expected = 8;
  lifecycle = record initial {
    run_status = RunStatus.running;
    active_attempt_id = some 7;
    open_phase = some Phase.intake;
    open_agents = 4 ∷ [];
    tool_states = Dict.put Dict.empty 11 ToolState.terminal;
    tool_parents = Dict.put Dict.empty 11 4;
  };
}

ended : Dict.get ended_call.lifecycle.tool_states 11 ≡ some ToolState.terminal
unfolding Dict.get Dict.put Dict.empty
ended = refl

ended_stays_example :
    Dict.get
      (validate_loop sources ended_call
        (of_tool 8 EventType.tool_started ∷ [])).0.lifecycle.tool_states
      11
    ≡ some ToolState.terminal
ended_stays_example =
    ended_stays 11 sources ended_call (of_tool 8 EventType.tool_started ∷ []) ended
