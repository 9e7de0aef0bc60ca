-- ===== src/Examples/Writers.antt =====
-- A writer that takes in one command and is shut down.
use diagops.Base.{true, false, none, some, [], ◌∷◌, refl, List}
use diagops.Base.Dict
use diagops.Domain.Names.{Phase, EventType, ActorType}
use diagops.Domain.Event.{empty_payload}
use diagops.Store.Commits.{RuntimeEventCommand}
use diagops.Store.State.{Store}
use diagops.Store.History.{Call, perform}
use diagops.Writer.Defs.{
  event_command, WriterCommand, Future, Consumer, RuntimeWriter, new_writer, start, submit,
  shutdown, finish_serving,
}
use diagops.Writer.Steps.{
  Served, Made, by_writer, by_others, changes_store, starts, takes_in, shuts_down, gets_command,
  gets_sentinel, serves, Steps, stay, after,
}
use diagops.Writer.Served.{IsServed}
use diagops.Writer.Fifo.{Steps-IsServed}
use diagops.Examples.{running, env}

abbrev phase_started : RuntimeEventCommand
phase_started = record {
  run_id = 5;
  attempt_id = 7;
  lease_owner = 3;
  lease_version = 1;
  event_type = EventType.phase_started;
  actor_type = ActorType.phase;
  phase = some Phase.intake;
  actor_name = none;
  task_id = none;
  tool_call_id = none;
  execution_id = none;
  evidence_ids = [];
  safe_payload = empty_payload;
  schema_version = 1;
}

abbrev command : WriterCommand
command = record { payload = event_command phase_started; future = 8 }

abbrev served : Served
served = record { command = command; now = 12; done = 13 }

abbrev accepting : RuntimeWriter
accepting = record (new_writer running 1) { accepting = true; consumer = Consumer.getting }

abbrev taken : RuntimeWriter
taken = record accepting {
  queue = some command ∷ [];
  futures = Dict.put Dict.empty 8 Future.pending;
}

abbrev at_work : RuntimeWriter
at_work = record taken { queue = []; consumer = Consumer.serving command }

abbrev closing : RuntimeWriter
closing = record at_work { accepting = false; queue = none ∷ []; closing = 1 }

abbrev interrupted : RuntimeWriter
interrupted = record closing { store = perform env running (Call.cancelling 5 11) }

abbrev over : RuntimeWriter
over = record (finish_serving env interrupted command 12 13) {
  queue = [];
  consumer = Consumer.finished;
}

-- Other code asks for the cancellation of the run while the command is being served.
abbrev cancelling : Store → Store
cancelling s = perform env s (Call.cancelling 5 11)

abbrev changes : List Made
changes = by_others cancelling ∷ by_writer served ∷ []

steps : Steps env (new_writer running 1) (command ∷ []) changes over
unfolding new_writer start submit shutdown finish_serving Dict.get Dict.put Dict.empty
steps =
    after
      (after
        (after
          (after
            (after (after (after stay (starts refl)) (takes_in command refl refl refl))
              (gets_command command [] refl refl))
            (shuts_down refl refl))
          (changes_store cancelling))
        (serves command 12 13 refl))
      (gets_sentinel [] refl refl)

Steps-IsServed_example : IsServed env running (command ∷ []) changes over
Steps-IsServed_example = Steps-IsServed env running 1 (command ∷ []) changes over steps
