-- ===== src/Writer/Served.antt =====
-- What a writer has taken in and what it has served, over any sequence of steps.
use diagops.Base.{
  ℕ, Bool, true, false, not, ◌&&◌, Option, none, some, List, [], ◌∷◌, ◌++◌, map, contains, ◌≡◌,
  refl, ap, ok, err, Outcome,
}
use diagops.Base.Dict
use diagops.Base.Dict.{Dict, get-put, get-empty}
use diagops.Store.State.{Env, Store, or_unchanged}
use diagops.Store.Commits.{append_event_command}
use diagops.Store.Terminal.{commit_terminal}
use diagops.Store.History.{perform, store_after}
use diagops.Writer.Defs.{
  Payload, phase_commit, terminal_commit, tool_commit, event_command, Result, run_result,
  event_result, WriterCommand, Future, Consumer, RuntimeWriter, queue_is_empty, serve, as_result,
}
use diagops.Writer.Steps.{call_of, Made, by_writer, by_others}

abbrev pub commands : List (Option WriterCommand) → List WriterCommand
commands [] = []
commands (none ∷ items) = commands items
commands (some command ∷ items) = command ∷ commands items

abbrev pub in_service : Consumer → List WriterCommand
in_service (Consumer.serving command) = command ∷ []
in_service _ = []

-- What has been taken in and not yet served, oldest first.
abbrev pub in_flight : RuntimeWriter → List WriterCommand
in_flight writer = in_service writer.consumer ++ commands writer.queue

abbrev pub all_commands : List (Option WriterCommand) → Bool
all_commands [] = true
all_commands (none ∷ items) = false
all_commands (some command ∷ items) = all_commands items

-- The sentinel is there, once and at the end.
abbrev pub ends_by_sentinel : List (Option WriterCommand) → Bool
ends_by_sentinel [] = false
ends_by_sentinel (none ∷ items) = queue_is_empty items
ends_by_sentinel (some command ∷ items) = ends_by_sentinel items

abbrev pub well_ended : Bool → Consumer → List (Option WriterCommand) → Bool
well_ended accepting Consumer.absent queue = not accepting && queue_is_empty queue
well_ended accepting Consumer.finished queue = not accepting && queue_is_empty queue
well_ended true _ queue = all_commands queue
well_ended false _ queue = ends_by_sentinel queue

abbrev pub is_pending : Option Future → Bool
is_pending (some Future.pending) = true
is_pending _ = false

-- The commands among the changes, in their order.
abbrev pub served_in : List Made → List WriterCommand
served_in [] = []
served_in (by_writer served ∷ ys) = served.command ∷ served_in ys
served_in (by_others change ∷ ys) = served_in ys

-- A command is served by the call of the store that it stands for.
abbrev pub change_store : Env → Store → Made → Store
change_store env s (by_writer served) =
    perform env s (call_of served.command.payload served.now served.done)
change_store env s (by_others change) = change s

abbrev pub change_all : Env → Store → List Made → Store
change_all env s [] = s
change_all env s (y ∷ ys) = change_all env (change_store env s y) ys

abbrev pub future_of : WriterCommand → ℕ
future_of command = command.future

-- `xs` have been taken in and the changes `ys` made since a store `s`: the commands are served in the
-- order in which they came, each on the store as the changes before it have left it; whoever still
-- waits is in flight; and nothing follows a sentinel.
pub record IsServed (env : Env) (s : Store) (xs : List WriterCommand) (ys : List Made)
    (writer : RuntimeWriter) : Type 0 where
  pub fifo : xs ≡ served_in ys ++ in_flight writer
  pub store : writer.store ≡ change_all env s ys
  pub ended : well_ended writer.accepting writer.consumer writer.queue ≡ true
  pub waiting :
      (future : ℕ)
      → is_pending (Dict.get writer.futures future) ≡ true
      → contains (map future_of (in_flight writer)) future ≡ true

pub change_all-append :
    (env : Env) (s : Store) (ys : List Made) (y : Made)
    → change_all env s (ys ++ (y ∷ [])) ≡ change_store env (change_all env s ys) y
change_all-append env s [] y = refl
change_all-append env s (x ∷ ys) y = change_all-append env (change_store env s x) ys y

pub served_in-append :
    (ys : List Made) (y : Made) → served_in (ys ++ (y ∷ [])) ≡ served_in ys ++ served_in (y ∷ [])
served_in-append [] y = refl
served_in-append (by_writer served ∷ ys) y = ap (λ l. served.command ∷ l) (served_in-append ys y)
served_in-append (by_others change ∷ ys) y = served_in-append ys y

as_result-store :
    {A : Type 0} (f : A → Result) (s : Store) (o : Outcome (A × Store))
    → (as_result f (or_unchanged s o)).1 ≡ store_after s o
as_result-store f s (ok (a, s')) = refl
as_result-store f s (err e) = refl

as_result-step :
    {A : Type 0} (f : A → Result) (o : Outcome A) (s : Store) → (as_result f (o, s)).1 ≡ s
as_result-step f (ok a) s = refl
as_result-step f (err e) s = refl

-- A payload is served by the call of the store that it stands for.
pub serve-perform :
    (env : Env) (s : Store) (payload : Payload) (now done : ℕ)
    → (serve env s payload now done).1 ≡ perform env s (call_of payload now done)
unfolding serve perform
serve-perform env s (phase_commit commit) now done = as_result-step _ _ _
serve-perform env s (terminal_commit commit) now done =
    as_result-store run_result s (commit_terminal env s commit now done)
serve-perform env s (tool_commit commit) now done = as_result-step _ _ _
serve-perform env s (event_command command) now done =
    as_result-store event_result s (append_event_command env s command now)

pub commands-append :
    (items : List (Option WriterCommand)) (command : WriterCommand)
    → commands (items ++ (some command ∷ [])) ≡ commands items ++ (command ∷ [])
commands-append [] command = refl
commands-append (none ∷ items) command = commands-append items command
commands-append (some c ∷ items) command = ap (λ l. c ∷ l) (commands-append items command)

pub commands-sentinel :
    (items : List (Option WriterCommand)) → commands (items ++ (none ∷ [])) ≡ commands items
commands-sentinel [] = refl
commands-sentinel (none ∷ items) = commands-sentinel items
commands-sentinel (some c ∷ items) = ap (λ l. c ∷ l) (commands-sentinel items)

pub all_commands-append :
    (items : List (Option WriterCommand)) (command : WriterCommand)
    → all_commands (items ++ (some command ∷ [])) ≡ all_commands items
all_commands-append [] command = refl
all_commands-append (none ∷ items) command = refl
all_commands-append (some c ∷ items) command = all_commands-append items command

pub ends_by_sentinel-append :
    (items : List (Option WriterCommand))
    → all_commands items ≡ true
    → ends_by_sentinel (items ++ (none ∷ [])) ≡ true
ends_by_sentinel-append [] h = refl
ends_by_sentinel-append (none ∷ items) h = cc
ends_by_sentinel-append (some c ∷ items) h = ends_by_sentinel-append items h
