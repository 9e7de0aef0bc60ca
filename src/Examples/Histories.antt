-- ===== src/Examples/Histories.antt =====
-- Sequences of calls on the store, and a holder whose lease has been taken over.
use diagops.Base.{
  is_refused, ◌⊎◌, true, none, some, List, [], ◌∷◌, ◌≡◌, refl, ok, err, Error, false, first, arith,
  any, keep, take,
}
use diagops.Base.Dict
use diagops.Base.Dict.{Dict, get-put, get-empty}
use diagops.Domain.Status.{
  RunStatus, AttemptStatus, RunStatus-discrete, AttemptStatus-discrete, ensure_run_transition,
}
use diagops.Domain.Names.{Phase, EventType, ActorType}
use diagops.Domain.Event.{empty_payload}
use diagops.Store.State.{
  Env, Store, log, require_run, apply_transition, append_events, extend_log, publish,
}
use diagops.Store.Leases.{
  acquire_lease, lease_first, start_attempt, create_attempt, acquire_lease_and_create_attempt,
}
use diagops.Store.PhaseCommits.{commit_phase}
use diagops.Store.Runs.{transition_run}
use diagops.Store.Guards.{validate_fence, require_attempt, ensure_v11_tool_budget_available}
use diagops.Store.Commits.{validated}
use diagops.Store.Evolve.{Evolves}
use diagops.Store.History.{Call, EachEvolves, perform_all, perform_all-Evolves}
use diagops.Store.Uniqueness.{Activity, IsTidy, act_all, act_all-IsTidy}
use diagops.Examples.{
  new_run, first_attempt, ready, env, ready-IsKeyed, ready-IsOneActive, leased, running,
  no_mutation, intake_commit,
}
use diagops.Domain.ToolCall.{ToolCallRecord, ToolCallStatus}
use diagops.Store.Commits.{
  RuntimeEventCommand, append_event_command, ToolCommit, commit_tool, check_tool,
}
use diagops.Store.Terminal.{RuntimeTerminalCommit, commit_terminal}
use diagops.Store.Leases.{transition_attempt, renew_lease, reserve_model_turn}
use diagops.Store.Runs.{list_events}
use diagops.Store.Fencing.{acquired-fences_out}
use diagops.Store.Stale.{is_of_other}
use diagops.Store.Rollback.{commit_tool-err}
use diagops.Phases.Mutation.{apply_memory, merge_tool_result, validate_investigation_record}
use diagops.Repository.Defs
use diagops.Repository.Defs.{list_tool_calls}
use diagops.Domain.Run.{is_v11}
use diagops.Store.Paging.{drop, list_events-pages}
use diagops.Store.Evolve.{Numbered}

abbrev calls : List Call
calls =
    Call.starting 5 first_attempt 3 RunStatus.created 10 11
    ∷ Call.transitioning 5 RunStatus.running RunStatus.completed (some 3) (some 1) 12 13
    ∷ []

-- The first call leases the run and makes its attempt.
starts :
    perform_all env ready (Call.starting 5 first_attempt 3 RunStatus.created 10 11 ∷ []) ≡ running
unfolding perform_all acquire_lease_and_create_attempt lease_first acquire_lease require_run
    ensure_run_transition start_attempt create_attempt validate_fence Dict.get Dict.put Dict.empty
    Dict.values RunStatus-discrete AttemptStatus-discrete any keep
starts = refl

completes :
    Dict.get (perform_all env ready calls).attempts 7
    ≡ some (record first_attempt { status = AttemptStatus.completed; completed_at = some 13 })
unfolding perform_all acquire_lease_and_create_attempt lease_first acquire_lease require_run
    ensure_run_transition start_attempt create_attempt validate_fence transition_run
    apply_transition Dict.get Dict.put Dict.empty Dict.values Dict.update_values RunStatus-discrete
    AttemptStatus-discrete any keep
completes = refl

perform_all-Evolves_example :
    EachEvolves env ready calls × Evolves none ready (perform_all env ready calls)
perform_all-Evolves_example = perform_all-Evolves env calls ready ready-IsKeyed

act_all-IsTidy_example : IsTidy (
    act_all env ready (
      Activity.creating (record new_run { id = 6 })
      ∷ Activity.calling (Call.starting 5 first_attempt 3 RunStatus.created 10 11)
      ∷ []))
act_all-IsTidy_example =
    act_all-IsTidy env
      (Activity.creating (record new_run { id = 6 })
        ∷ Activity.calling (Call.starting 5 first_attempt 3 RunStatus.created 10 11)
        ∷ [])
      ready (ready-IsKeyed, ready-IsOneActive)

taken :
    acquire_lease env ready 5 3 RunStatus.created 10
    ≡ ok (some leased, record ready { runs = Dict.put ready.runs 5 leased })
unfolding acquire_lease require_run ensure_run_transition Dict.get Dict.put Dict.empty
    RunStatus-discrete
taken = refl

abbrev old_event : RuntimeEventCommand
old_event = record {
  run_id = 5;
  attempt_id = 7;
  lease_owner = 2;
  lease_version = 0;
  event_type = EventType.phase_started;
  actor_type = ActorType.phase;
  actor_name = none;
  task_id = none;
  phase = some Phase.intake;
  tool_call_id = none;
  execution_id = none;
  evidence_ids = [];
  safe_payload = empty_payload;
  schema_version = 1;
}

abbrev old_terminal : RuntimeTerminalCommit
old_terminal = record {
  run_id = 5;
  attempt_id = 7;
  lease_owner = 2;
  lease_version = 0;
  expected_run_status = RunStatus.running;
  target_run_status = RunStatus.completed;
  expected_attempt_status = AttemptStatus.running;
  target_attempt_status = AttemptStatus.completed;
  events = [];
  failure_category = none;
}

abbrev a_call : ToolCallRecord
a_call = record {
  id = 11;
  task_id = 1;
  agent_name = 1;
  tool_name = 1;
  status = ToolCallStatus.running;
  output_evidence_ids = [];
  completed_at = none;
  runtime_run_id = some 5;
  logical_call_id = some 21;
  idempotency_key = none;
  execution_id = none;
  budget_charged = some true;
}

abbrev old_tool : ToolCommit
old_tool = record {
  run_id = 5;
  attempt_id = 7;
  lease_owner = 2;
  lease_version = 0;
  business_mutation = no_mutation;
  call = a_call;
  phase = none;
}

abbrev renewal : List Call
renewal = Call.renewing 5 3 1 12 ∷ []

abbrev leased_store : Store
leased_store = record ready { runs = Dict.put ready.runs 5 leased }

acquired-fences_out_example :
    (is_refused (
        append_event_command env
          (perform_all env leased_store renewal)
          (record old_event { run_id = 5; lease_version = 0 })
          13)
      ≡ true)
    × (is_refused (
          commit_terminal env
            (perform_all env leased_store renewal)
            (record old_terminal { run_id = 5; lease_version = 0 })
            13
            14)
        ≡ true)
    × ((is_refused
            (commit_tool env
              (perform_all env leased_store renewal)
              (record old_tool { run_id = 5; lease_version = 0 })
              13).0
          ≡ true)
        × ((commit_tool env
              (perform_all env leased_store renewal)
              (record old_tool { run_id = 5; lease_version = 0 })
              13).1
            ≡ perform_all env leased_store renewal))
    × (is_refused (
          transition_run
            (perform_all env leased_store renewal)
            5
            RunStatus.running
            RunStatus.completed
            (some 2)
            (some 0)
            13
            14)
        ≡ true)
    × (is_refused (reserve_model_turn (perform_all env leased_store renewal) 5 2 0 13) ≡ true)
    × (is_refused (
          create_attempt
            (perform_all env leased_store renewal)
            (record first_attempt { run_id = 5 })
            2
            0
            13)
        ≡ true)
    × ((is_refused (
            transition_attempt
              (perform_all env leased_store renewal)
              7
              AttemptStatus.running
              AttemptStatus.completed
              2
              0
              13
              14)
          ≡ true)
        ⊎ (is_of_other 5 (Dict.get (perform_all env leased_store renewal).attempts 7) ≡ true))
    × ((is_refused (renew_lease env (perform_all env leased_store renewal) 5 2 0 13) ≡ true)
        ⊎ (renew_lease env (perform_all env leased_store renewal) 5 2 0 13
            ≡ ok (none, perform_all env leased_store renewal)))
    × ((commit_phase env
          (perform_all env leased_store renewal)
          (record intake_commit { run_id = 5; lease_version = 0 })
          13).1
        ≡ perform_all env leased_store renewal)
acquired-fences_out_example =
    acquired-fences_out env ready 5 3 RunStatus.created 10 leased leased_store renewal 0
      ready-IsKeyed taken (omega arith) 13 14 2 RunStatus.running RunStatus.completed first_attempt
      7 AttemptStatus.running AttemptStatus.completed old_event old_terminal old_tool intake_commit

-- Two events of the running attempt, of which a reader asks for those after the first.
abbrev logging : List Call
logging =
    Call.starting 5 first_attempt 3 RunStatus.created 10 11
    ∷ Call.appending (record old_event { lease_owner = 3; lease_version = 1 }) 12
    ∷ Call.appending (record old_event { lease_owner = 3; lease_version = 1 }) 13
    ∷ []

logged_run : Dict.get (perform_all env ready logging).runs 5 ≡ some leased
unfolding perform_all acquire_lease_and_create_attempt lease_first acquire_lease require_run
    ensure_run_transition start_attempt create_attempt validate_fence require_attempt
    append_event_command validated append_events extend_log publish log Dict.get Dict.put Dict.empty
    Dict.values RunStatus-discrete AttemptStatus-discrete any keep
logged_run = refl

ready-log : Numbered 5 0 (log ready 5)
unfolding log Dict.get Dict.put Dict.empty
ready-log = tt

list_events-pages_example :
    list_events (perform_all env ready logging) 5 1 4
    ≡ ok (take 4 (drop 1 (log (perform_all env ready logging) 5)))
list_events-pages_example =
    list_events-pages env logging ready 5 1 4 leased ready-IsKeyed ready-log logged_run refl

-- The event is refused after the call has been written to the repository.
abbrev refusing : Env
refusing = record env { valid_event = λ _. false }

abbrev new_tool : ToolCommit
new_tool = record old_tool {
  lease_owner = 3;
  lease_version = 1;
  business_mutation = record no_mutation { tool_calls = some (a_call ∷ []) };
}

raises : (commit_tool refusing running new_tool 12).0 ≡ err Error.value_error
unfolding commit_tool check_tool require_run require_attempt validate_fence is_v11
    ensure_v11_tool_budget_available list_tool_calls merge_tool_result Defs.get apply_memory
    validate_investigation_record Defs.save_tool_calls validated Dict.get Dict.put Dict.empty
    Dict.values RunStatus-discrete AttemptStatus-discrete any keep first
raises = refl

commit_tool-err_example : (commit_tool refusing running new_tool 12).1 ≡ running
commit_tool-err_example = commit_tool-err refusing running new_tool 12 Error.value_error raises
