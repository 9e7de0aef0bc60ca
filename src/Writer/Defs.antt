-- ===== src/Writer/Defs.antt =====
-- `RuntimeWriter`: its state and its methods. Each method is the part that runs under the state
-- lock, once the queue has room.
use diagops.Base.{
  ℕ, ◌+◌, Bool, true, false, Option, none, some, List, [], ◌∷◌, ◌++◌, ◌||◌, ◌==◌, not, ltb, length,
  Outcome, ok, err, persistence, if◌then◌else◌,
}
use diagops.Base.Dict
use diagops.Base.Dict.{Dict}
use diagops.Domain.Run.{RuntimeRun, RuntimeCheckpoint}
use diagops.Domain.Event.{RuntimeEvent}
use diagops.Domain.ToolCall.{ToolCallRecord}
use diagops.Store.State.{Env, Store, Step, or_unchanged}
use diagops.Store.Commits.{RuntimeEventCommand, append_event_command, ToolCommit, commit_tool}
use diagops.Store.Terminal.{RuntimeTerminalCommit, commit_terminal}
use diagops.Store.PhaseCommits.{PhaseCommit, commit_phase}

pub data Payload : Type 0 where
  phase_commit : PhaseCommit → Payload
  terminal_commit : RuntimeTerminalCommit → Payload
  tool_commit : ToolCommit → Payload
  event_command : RuntimeEventCommand → Payload

pub data Result : Type 0 where
  checkpoint_result : RuntimeCheckpoint → Result
  run_result : RuntimeRun → Result
  tool_result : ToolCallRecord → Result
  event_result : RuntimeEvent → Result

-- A future is known by its identity.
pub record WriterCommand : Type 0 where
  pub payload : Payload
  pub future : ℕ

pub data Future : Type 0 where
  pending cancelled : Future
  resolved : Outcome Result → Future

-- `_consumer`: none, waiting in `queue.get`, at a command, or done.
pub data Consumer : Type 0 where
  absent getting finished : Consumer
  serving : WriterCommand → Consumer

-- `none` in the queue is the sentinel; `closing` counts the calls of `shutdown` that wait.
pub record RuntimeWriter : Type 0 where
  pub store : Store
  pub max_queue_size : ℕ
  pub queue : List (Option WriterCommand)
  pub consumer : Consumer
  pub accepting : Bool
  pub futures : Dict Future
  pub closing : ℕ

unfoldable pub new_writer : Store → ℕ → RuntimeWriter
new_writer store max_queue_size = record {
  store = store;
  max_queue_size = max_queue_size;
  queue = [];
  consumer = Consumer.absent;
  accepting = false;
  futures = Dict.empty;
  closing = 0;
}

-- `asyncio.Queue` with a size of 0 has no bound.
abbrev pub has_room : RuntimeWriter → Bool
has_room writer = writer.max_queue_size == 0 || ltb (length writer.queue) writer.max_queue_size

abbrev pub started : RuntimeWriter → RuntimeWriter
started writer = record writer { accepting = true; consumer = Consumer.getting }

abbrev pub queue_is_empty : List (Option WriterCommand) → Bool
queue_is_empty [] = true
queue_is_empty (item ∷ items) = false

abbrev pub start_from : RuntimeWriter → Consumer → Outcome (Unit {0}) × RuntimeWriter
start_from writer Consumer.absent = (ok tt, started writer)
start_from writer Consumer.finished =
    if queue_is_empty writer.queue
    then (ok tt, started (record writer { queue = [] }))
    else (err persistence, record writer { consumer = Consumer.absent })
start_from writer Consumer.getting = (ok tt, writer)
start_from writer (Consumer.serving command) = (ok tt, writer)

unfoldable pub start : RuntimeWriter → Outcome (Unit {0}) × RuntimeWriter
start writer = start_from writer writer.consumer

abbrev pub is_absent : Consumer → Bool
is_absent Consumer.absent = true
is_absent _ = false

-- `_submit` up to its wait for the future
unfoldable pub submit : RuntimeWriter → WriterCommand → Outcome (Unit {0}) × RuntimeWriter
submit writer command =
    if not writer.accepting || is_absent writer.consumer then (err persistence, writer) else (
      ok tt,
      record writer {
        queue = writer.queue ++ (some command ∷ []);
        futures = Dict.put writer.futures command.future Future.pending;
      },
    )

-- `shutdown` up to its wait for the consumer
unfoldable pub shutdown : RuntimeWriter → RuntimeWriter
shutdown writer =
    if is_absent writer.consumer
    then writer
    else if writer.accepting
    then record writer {
      accepting = false;
      queue = writer.queue ++ (none ∷ []);
      closing = writer.closing + 1;
    }
    else record writer { closing = writer.closing + 1 }

-- What the store is asked for; `now` and `done` are readings of its clock.
abbrev pub as_result : {A : Type 0} → (A → Result) → Step A → Step Result
as_result f (ok a, s) = (ok (f a), s)
as_result f (err e, s) = (err e, s)

unfoldable pub serve : Env → Store → Payload → ℕ → ℕ → Step Result
serve env s (phase_commit commit) now done =
    as_result checkpoint_result (commit_phase env s commit now)
serve env s (terminal_commit commit) now done =
    as_result run_result (or_unchanged s (commit_terminal env s commit now done))
serve env s (tool_commit commit) now done = as_result tool_result (commit_tool env s commit now)
serve env s (event_command command) now done =
    as_result event_result (or_unchanged s (append_event_command env s command now))

-- `if not future.done()`
abbrev pub resolve : Option Future → Dict Future → ℕ → Outcome Result → Dict Future
resolve (some Future.pending) futures future outcome =
    Dict.put futures future (Future.resolved outcome)
resolve _ futures future outcome = futures

-- The consumer has its result.
unfoldable pub finish_serving : Env → RuntimeWriter → WriterCommand → ℕ → ℕ → RuntimeWriter
unfolding serve
finish_serving env writer command now done =
    let result = serve env writer.store command.payload now done in
    record writer {
      store = result.1;
      consumer = Consumer.getting;
      futures =
          resolve (Dict.get writer.futures command.future) writer.futures command.future result.0;
    }
