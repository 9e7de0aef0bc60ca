-- ===== src/Writer/Fifo.antt =====
-- The consumer of a writer: what it gets and serves, and any sequence of steps.
use mathlib.Core.List.{append-nil, append_assoc}
use mathlib.Core.Path.{subst}
use diagops.Base.{
  ℕ, Bool, true, false, not, ◌||◌, ◌==◌, Option, none, some, List, [], ◌∷◌, ◌++◌, map, any,
  contains, Bool-cases, inl, inr, ◌≡◌, refl, sym, ap, ◌∙◌, arith, Outcome,
}
use diagops.Base.Dict
use diagops.Base.Dict.{Dict, get-put, get-empty}
use diagops.Store.State.{Env, Store}
use diagops.Store.History.{perform}
use diagops.Writer.Defs.{
  Result, WriterCommand, Future, Consumer, RuntimeWriter, new_writer, start, submit, resolve,
  finish_serving, is_absent,
}
use diagops.Writer.Steps.{
  call_of, is_over, Made, Step, starts, refuses, takes_in, shuts_down, shuts_down_again,
  changes_store, by_writer, by_others, gets_command, gets_sentinel, serves, closes, abandons, Steps,
  stay, after,
}
use diagops.Writer.Served.{
  commands, in_service, in_flight, well_ended, is_pending, served_in, future_of, change_all-append,
  served_in-append, IsServed, serve-perform,
}
use diagops.Writer.Order.{
  over_empty, still-IsServed, start_from-IsServed, submit-IsServed, shutdown-IsServed,
}

ended-next :
    (accepting : Bool) (command : WriterCommand) (items : List (Option WriterCommand))
    → well_ended accepting Consumer.getting (some command ∷ items) ≡ true
    → well_ended accepting (Consumer.serving command) items ≡ true
ended-next true command items h = h
ended-next false command items h = h

ended-last :
    (accepting : Bool) (items : List (Option WriterCommand))
    → well_ended accepting Consumer.getting (none ∷ items) ≡ true
    → well_ended accepting Consumer.finished items ≡ true
ended-last true items h = cc
ended-last false items h = h

ended-served :
    (accepting : Bool) (command : WriterCommand) (items : List (Option WriterCommand))
    → well_ended accepting (Consumer.serving command) items ≡ true
    → well_ended accepting Consumer.getting items ≡ true
ended-served true command items h = h
ended-served false command items h = h

over_service : (consumer : Consumer) → is_over consumer ≡ true → in_service consumer ≡ []
over_service consumer h = ground arith

well_ended-nothing :
    (accepting : Bool) (queue : List (Option WriterCommand))
    → accepting ≡ false
    → queue ≡ []
    → well_ended accepting Consumer.absent queue ≡ true
well_ended-nothing accepting queue closed empty = ground arith

other_key :
    (futures : Dict Future) (k future : ℕ) (o : Option Future)
    → Dict.get futures k ≡ o
    → is_pending o ≡ false
    → is_pending (Dict.get futures future) ≡ true
    → (k == future) ≡ false
other_key futures k future o at settled pending = elim (Bool-cases (k == future)) [
  | inl e ↦
      let here : k ≡ future = ground arith in
      let there = subst (λ j. Dict.get futures j ≡ o) here at in ground arith
  | inr e ↦ e
]

contains-rest :
    (k future : ℕ) (l : List ℕ)
    → contains (k ∷ l) future ≡ true
    → (k == future) ≡ false
    → contains l future ≡ true
unfolding any
contains-rest k future l h other = ground arith

-- A future that is still pending after one is resolved was pending, and is another one.
resolved_pending :
    (o : Option Future) (futures : Dict Future) (k future : ℕ) (outcome : Outcome Result)
    → Dict.get futures k ≡ o
    → is_pending (Dict.get (resolve o futures k outcome) future) ≡ true
    → (is_pending (Dict.get futures future) ≡ true) × ((k == future) ≡ false)
resolved_pending none futures k future outcome at pending =
    (pending, other_key futures k future none at refl pending)
resolved_pending (some Future.pending) futures k future outcome at pending =
    let put = get-put futures k future (Future.resolved outcome) in ground arith
resolved_pending (some Future.cancelled) futures k future outcome at pending =
    (pending, other_key futures k future (some Future.cancelled) at refl pending)
resolved_pending (some (Future.resolved o)) futures k future outcome at pending =
    (pending, other_key futures k future (some (Future.resolved o)) at refl pending)

module _ (env : Env) (s : Store) (xs : List WriterCommand) (ys : List Made) (writer : RuntimeWriter)
    (served : IsServed env s xs ys writer) where
  refused-IsServed :
      (command : WriterCommand)
      → (not writer.accepting || is_absent writer.consumer) ≡ true
      → IsServed env s xs ys (submit writer command).1
  unfolding submit
  refused-IsServed command closed = rw closed served

  gets_command-IsServed :
      (command : WriterCommand) (items : List (Option WriterCommand))
      → writer.consumer ≡ Consumer.getting
      → writer.queue ≡ some command ∷ items
      → IsServed env s xs ys (record writer { queue = items; consumer = Consumer.serving command })
  gets_command-IsServed command items is at =
      still-IsServed env s xs ys writer served _
        (ap (λ c. in_service c ++ commands writer.queue) is ∙ ap commands at) refl
        (ended-next writer.accepting command items (
          subst (λ q. well_ended writer.accepting Consumer.getting q ≡ true) at
            (subst (λ c. well_ended writer.accepting c writer.queue ≡ true) is served.ended)))
        (λ future pending. pending)

  gets_sentinel-IsServed :
      (items : List (Option WriterCommand))
      → writer.consumer ≡ Consumer.getting
      → writer.queue ≡ none ∷ items
      → IsServed env s xs ys (record writer { queue = items; consumer = Consumer.finished })
  gets_sentinel-IsServed items is at =
      still-IsServed env s xs ys writer served _
        (ap (λ c. in_service c ++ commands writer.queue) is ∙ ap commands at) refl
        (ended-last writer.accepting items (
          subst (λ q. well_ended writer.accepting Consumer.getting q ≡ true) at
            (subst (λ c. well_ended writer.accepting c writer.queue ≡ true) is served.ended)))
        (λ future pending. pending)

  closes-IsServed :
      (closing : ℕ)
      → is_over writer.consumer ≡ true
      → IsServed env s xs ys (record writer { consumer = Consumer.absent; closing = closing })
  closes-IsServed closing over =
      let (closed, empty) =
        over_empty writer.accepting writer.consumer writer.queue over served.ended in
      still-IsServed env s xs ys writer served _
        (ap (λ l. l ++ commands writer.queue) (over_service writer.consumer over)) refl
        (well_ended-nothing writer.accepting writer.queue closed empty) (λ future pending. pending)

  abandons-IsServed :
      (k : ℕ)
      → IsServed env s xs ys
          (record writer { futures = Dict.put writer.futures k Future.cancelled })
  abandons-IsServed k =
      still-IsServed env s xs ys writer served _ refl refl served.ended (λ future pending.
        let put = get-put writer.futures k future Future.cancelled in ground arith)

  serves-IsServed :
      (command : WriterCommand) (now done : ℕ)
      → writer.consumer ≡ Consumer.serving command
      → IsServed env s xs
          (ys ++ (by_writer (record { command = command; now = now; done = done }) ∷ []))
          (finish_serving env writer command now done)
  unfolding finish_serving
  serves-IsServed command now done is = record {
    fifo =
        served.fifo
        ∙ ap (λ c. served_in ys ++ (in_service c ++ commands writer.queue)) is
        ∙ sym (append_assoc (served_in ys) (command ∷ []) (commands writer.queue))
        ∙ ap (λ l. l ++ commands writer.queue) (sym (served_in-append ys _));
    store =
        serve-perform env writer.store command.payload now done
        ∙ ap (λ t. perform env t (call_of command.payload now done)) served.store
        ∙ sym (change_all-append env s ys _);
    ended =
        ended-served writer.accepting command writer.queue
          (subst (λ c. well_ended writer.accepting c writer.queue ≡ true) is served.ended);
    waiting = λ future pending.
        let (before, other) =
          resolved_pending (Dict.get writer.futures command.future) writer.futures command.future
            future _ refl pending in
        let known = served.waiting future before in
        let listed =
          subst
            (λ c. contains (map future_of (in_service c ++ commands writer.queue)) future ≡ true) is
            known in
        contains-rest command.future future (map future_of (commands writer.queue)) listed other;
  }

  changes_store-IsServed :
      (change : Store → Store)
      → IsServed env s xs
          (ys ++ (by_others change ∷ []))
          (record writer { store = change writer.store })
  changes_store-IsServed change = record {
    fifo =
        served.fifo
        ∙ ap (λ l. l ++ in_flight writer)
            (sym (served_in-append ys (by_others change) ∙ append-nil (served_in ys)));
    store = ap change served.store ∙ sym (change_all-append env s ys (by_others change));
    ended = served.ended;
    waiting = served.waiting;
  }

quiet :
    {env : Env} {s : Store} {xs : List WriterCommand} {ys : List Made} {writer : RuntimeWriter}
    → IsServed env s xs ys writer
    → IsServed env s (xs ++ []) (ys ++ []) writer
quiet {env} {s} {xs} {ys} {writer} served =
    subst (λ l. IsServed env s l (ys ++ []) writer) (sym (append-nil xs))
      (subst (λ l. IsServed env s xs l writer) (sym (append-nil ys)) served)

same_changes-IsServed :
    {env : Env} {s : Store} {xs : List WriterCommand} {ys : List Made} {writer : RuntimeWriter}
    → IsServed env s xs ys writer
    → IsServed env s xs (ys ++ []) writer
same_changes-IsServed {env} {s} {xs} {ys} {writer} served =
    subst (λ l. IsServed env s xs l writer) (sym (append-nil ys)) served

same_commands-IsServed :
    {env : Env} {s : Store} {xs : List WriterCommand} {ys : List Made} {writer : RuntimeWriter}
    → IsServed env s xs ys writer
    → IsServed env s (xs ++ []) ys writer
same_commands-IsServed {env} {s} {xs} {ys} {writer} served =
    subst (λ l. IsServed env s l ys writer) (sym (append-nil xs)) served

Step-IsServed :
    (env : Env) (s : Store) (xs : List WriterCommand) (ys : List Made) (xs' : List WriterCommand)
    (ys' : List Made) (writer new : RuntimeWriter)
    → Step env writer xs' ys' new
    → IsServed env s xs ys writer
    → IsServed env s (xs ++ xs') (ys ++ ys') new
unfolding start
Step-IsServed env s xs ys xs' ys' writer new (starts idle) served =
    quiet (start_from-IsServed env s xs ys writer served writer.consumer refl)
Step-IsServed env s xs ys xs' ys' writer new (refuses command closed) served =
    quiet (refused-IsServed env s xs ys writer served command closed)
Step-IsServed env s xs ys xs' ys' writer new (takes_in command open_ room fresh) served =
    same_changes-IsServed (submit-IsServed env s xs ys writer served command open_)
Step-IsServed env s xs ys xs' ys' writer new (shuts_down open_ room) served =
    quiet (shutdown-IsServed env s xs ys writer served)
Step-IsServed env s xs ys xs' ys' writer new (shuts_down_again closed) served =
    quiet (shutdown-IsServed env s xs ys writer served)
Step-IsServed env s xs ys xs' ys' writer new (changes_store change) served =
    same_commands-IsServed (changes_store-IsServed env s xs ys writer served change)
Step-IsServed env s xs ys xs' ys' writer new (gets_command command items is at) served =
    quiet (gets_command-IsServed env s xs ys writer served command items is at)
Step-IsServed env s xs ys xs' ys' writer new (gets_sentinel items is at) served =
    quiet (gets_sentinel-IsServed env s xs ys writer served items is at)
Step-IsServed env s xs ys xs' ys' writer new (serves command now done is) served =
    same_commands-IsServed (serves-IsServed env s xs ys writer served command now done is)
Step-IsServed env s xs ys xs' ys' writer new (closes waits over) served =
    quiet (closes-IsServed env s xs ys writer served _ over)
Step-IsServed env s xs ys xs' ys' writer new (abandons k pending) served =
    quiet (abandons-IsServed env s xs ys writer served k)

new_writer-IsServed :
    (env : Env) (s : Store) (max_queue_size : ℕ)
    → IsServed env s [] [] (new_writer s max_queue_size)
unfolding new_writer
new_writer-IsServed env s max_queue_size = record {
  fifo = refl;
  store = refl;
  ended = refl;
  waiting = λ future pending. let nothing = get-empty {V = Future} future in ground arith;
}

-- A writer over a store `s`, after any steps in which it has taken in the commands `xs` and the
-- changes `ys` of the store have been made, by the writer or by other code: commands are served in
-- the order in which they were taken in, each once, by the call of the store that it stands for, on
-- the store as all changes before it have left it; whoever waits for a future waits for a command in
-- flight; a sentinel is the last in the queue, and nothing is left there when the consumer is over.
pub Steps-IsServed :
    (env : Env) (s : Store) (max_queue_size : ℕ) (xs : List WriterCommand) (ys : List Made)
    (writer : RuntimeWriter)
    → Steps env (new_writer s max_queue_size) xs ys writer
    → IsServed env s xs ys writer
Steps-IsServed env s max_queue_size _ _ _ stay = new_writer-IsServed env s max_queue_size
Steps-IsServed env s max_queue_size _ _ _
      (after {xs} {xs'} {ys} {ys'} {writer} {writer'} steps step) =
    Step-IsServed env s xs ys xs' ys' writer writer' step
      (Steps-IsServed env s max_queue_size xs ys writer steps)
