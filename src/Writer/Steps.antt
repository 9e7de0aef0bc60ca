-- ===== src/Writer/Steps.antt =====
-- What can happen to a writer, with the command that a step takes in and the change that it makes
-- of the store. Other code (backend/runtime/coordinator.py) writes to the same store at any time.
use diagops.Base.{ℕ, Bool, true, false, not, ◌||◌, ◌<◌, ◌-◌, none, some, List, [], ◌∷◌, ◌++◌, ◌≡◌}
use diagops.Base.Dict
use diagops.Store.State.{Env, Store}
use diagops.Store.History.{Call}
use diagops.Writer.Defs.{
  Payload, phase_commit, terminal_commit, tool_commit, event_command, WriterCommand, Future,
  Consumer, RuntimeWriter, is_absent, has_room, start, submit, shutdown, finish_serving,
}

-- The call of the store that serves a payload.
abbrev pub call_of : Payload → ℕ → ℕ → Call
call_of (phase_commit commit) now done = Call.committing_phase commit now
call_of (terminal_commit commit) now done = Call.ending commit now done
call_of (tool_commit commit) now done = Call.committing_tool commit now
call_of (event_command command) now done = Call.appending command now

abbrev pub is_over : Consumer → Bool
is_over Consumer.absent = true
is_over Consumer.finished = true
is_over _ = false

pub record Served : Type 0 where
  pub command : WriterCommand
  pub now : ℕ
  pub done : ℕ

-- One change of the store: the writer serves a command, or other code that holds the same store
-- writes to it, whatever it makes of it.
pub data Made : Type 0 where
  by_writer : Served → Made
  by_others : (Store → Store) → Made

-- `start` is not called while a shutdown waits, and each command has a future of its own.
pub data Step (env : Env)
    : RuntimeWriter → List WriterCommand → List Made → RuntimeWriter → Type 0 where
  starts : {writer : RuntimeWriter} → writer.closing ≡ 0 → Step env writer [] [] (start writer).1
  refuses :
      {writer : RuntimeWriter} (command : WriterCommand)
      → (not writer.accepting || is_absent writer.consumer) ≡ true
      → Step env writer [] [] (submit writer command).1
  takes_in :
      {writer : RuntimeWriter} (command : WriterCommand)
      → (not writer.accepting || is_absent writer.consumer) ≡ false
      → has_room writer ≡ true
      → Dict.get writer.futures command.future ≡ none
      → Step env writer (command ∷ []) [] (submit writer command).1
  shuts_down :
      {writer : RuntimeWriter}
      → (not writer.accepting || is_absent writer.consumer) ≡ false
      → has_room writer ≡ true
      → Step env writer [] [] (shutdown writer)
  shuts_down_again :
      {writer : RuntimeWriter}
      → (not writer.accepting || is_absent writer.consumer) ≡ true
      → Step env writer [] [] (shutdown writer)
  changes_store :
      {writer : RuntimeWriter} (change : Store → Store)
      → Step env writer [] (by_others change ∷ []) (record writer { store = change writer.store })
  gets_command :
      {writer : RuntimeWriter} (command : WriterCommand) (items : List _)
      → writer.consumer ≡ Consumer.getting
      → writer.queue ≡ some command ∷ items
      → Step env writer [] [] (record writer { queue = items; consumer = Consumer.serving command })
  gets_sentinel :
      {writer : RuntimeWriter} (items : List _)
      → writer.consumer ≡ Consumer.getting
      → writer.queue ≡ none ∷ items
      → Step env writer [] [] (record writer { queue = items; consumer = Consumer.finished })
  serves :
      {writer : RuntimeWriter} (command : WriterCommand) (now done : ℕ)
      → writer.consumer ≡ Consumer.serving command
      → Step env writer []
          (by_writer (record { command = command; now = now; done = done }) ∷ [])
          (finish_serving env writer command now done)
  closes :
      {writer : RuntimeWriter}
      → 0 < writer.closing
      → is_over writer.consumer ≡ true
      → Step env writer [] []
          (record writer { consumer = Consumer.absent; closing = writer.closing - 1 })
  abandons :
      {writer : RuntimeWriter} (future : ℕ)
      → Dict.get writer.futures future ≡ some Future.pending
      → Step env writer [] []
          (record writer { futures = Dict.put writer.futures future Future.cancelled })

pub data Steps (env : Env) (start : RuntimeWriter)
    : List WriterCommand → List Made → RuntimeWriter → Type 0 where
  stay : Steps env start [] [] start
  after :
      {xs xs' : List WriterCommand} {ys ys' : List Made} {writer writer' : RuntimeWriter}
      → Steps env start xs ys writer
      → Step env writer xs' ys' writer'
      → Steps env start (xs ++ xs') (ys ++ ys') writer'
