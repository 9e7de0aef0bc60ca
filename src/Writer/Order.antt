-- ===== src/Writer/Order.antt =====
-- The steps of a writer, one by one and in sequence, against `IsServed`.
use mathlib.Core.List.{append_assoc, map-append}
use mathlib.Core.Path.{subst}
use diagops.Base.{
  ℕ, Bool, true, false, not, ◌||◌, ◌==◌, Option, none, some, List, [], ◌∷◌, ◌++◌, map, contains,
  contains-append, Bool-cases, inl, inr, ◌≡◌, refl, sym, ap, ◌∙◌, arith, branch-keeps,
  if◌then◌else◌,
}
use diagops.Base.Dict
use diagops.Base.Dict.{Dict, get-put, get-empty}
use diagops.Store.State.{Env, Store}
use diagops.Writer.Defs.{
  WriterCommand, Future, Consumer, RuntimeWriter, start_from, started, queue_is_empty, submit,
  shutdown, is_absent,
}
use diagops.Writer.Steps.{is_over, Made}
use diagops.Writer.Served.{
  commands, in_service, in_flight, all_commands, well_ended, is_pending, served_in, future_of,
  IsServed, commands-append, commands-sentinel, all_commands-append, ends_by_sentinel-append,
}

-- The queue of a consumer that is done or not there is empty, and nothing is accepted.
pub over_empty :
    (accepting : Bool) (consumer : Consumer) (queue : List (Option WriterCommand))
    → is_over consumer ≡ true
    → well_ended accepting consumer queue ≡ true
    → (accepting ≡ false) × (queue ≡ [])
over_empty accepting Consumer.absent queue over h = ground arith
over_empty accepting Consumer.finished queue over h = ground arith
over_empty accepting Consumer.getting queue over h = cc
over_empty accepting (Consumer.serving command) queue over h = cc

ended-append :
    (accepting : Bool) (consumer : Consumer) (queue : List (Option WriterCommand))
    (command : WriterCommand)
    → (not accepting || is_absent consumer) ≡ false
    → well_ended accepting consumer queue ≡ true
    → well_ended accepting consumer (queue ++ (some command ∷ [])) ≡ true
ended-append false consumer queue command open_ h = cc
ended-append true Consumer.absent queue command open_ h = cc
ended-append true Consumer.finished queue command open_ h = cc
ended-append true Consumer.getting queue command open_ h = all_commands-append queue command ∙ h
ended-append true (Consumer.serving c) queue command open_ h = all_commands-append queue command ∙ h

ended-sentinel :
    (consumer : Consumer) (queue : List (Option WriterCommand))
    → is_absent consumer ≡ false
    → well_ended true consumer queue ≡ true
    → well_ended false consumer (queue ++ (none ∷ [])) ≡ true
ended-sentinel Consumer.absent queue there h = cc
ended-sentinel Consumer.finished queue there h = cc
ended-sentinel Consumer.getting queue there h = ends_by_sentinel-append queue h
ended-sentinel (Consumer.serving c) queue there h = ends_by_sentinel-append queue h

-- A future that is pending after a command is taken in is the command's or was pending before.
sent :
    (command : WriterCommand) (future : ℕ) (o : Option Future) (flight : List WriterCommand)
    → (is_pending o ≡ true → contains (map future_of flight) future ≡ true)
    → is_pending (if command.future == future then some Future.pending else o) ≡ true
    → contains (map future_of (flight ++ (command ∷ []))) future ≡ true
sent command future o flight before pending =
    subst (λ l. contains l future ≡ true) (sym (map-append future_of flight (command ∷ [])))
      (contains-append (map future_of flight) command.future future
        ∙ (elim (Bool-cases (command.future == future)) [
          | inl e ↦ ground arith
          | inr e ↦ let known = before (rw e at pending) in ground arith
        ]))

module _ (env : Env) (s : Store) (xs : List WriterCommand) (ys : List Made) (writer : RuntimeWriter)
    (served : IsServed env s xs ys writer) where
  -- What is in flight stays, and no future comes to be pending.
  pub still-IsServed :
      (new : RuntimeWriter)
      → in_flight writer ≡ in_flight new
      → new.store ≡ writer.store
      → well_ended new.accepting new.consumer new.queue ≡ true
      → ((future : ℕ)
          → is_pending (Dict.get new.futures future) ≡ true
          → is_pending (Dict.get writer.futures future) ≡ true)
      → IsServed env s xs ys new
  still-IsServed new flight stored ended futures = record {
    fifo = served.fifo ∙ ap (λ l. served_in ys ++ l) flight;
    store = stored ∙ served.store;
    ended = ended;
    waiting = λ future pending.
        subst (λ l. contains (map future_of l) future ≡ true) flight
          (served.waiting future (futures future pending));
  }

  pub start_from-IsServed :
      (consumer : Consumer)
      → writer.consumer ≡ consumer
      → IsServed env s xs ys (start_from writer consumer).1
  start_from-IsServed Consumer.getting is = served
  start_from-IsServed (Consumer.serving command) is = served
  start_from-IsServed Consumer.absent is =
      let over : is_over writer.consumer ≡ true = ap is_over is in
      let (_, empty) = over_empty writer.accepting writer.consumer writer.queue over served.ended in
      still-IsServed (started writer) (ap (λ c. in_service c ++ commands writer.queue) is) refl
        (ap all_commands empty) (λ future pending. pending)
  start_from-IsServed Consumer.finished is =
      let over : is_over writer.consumer ≡ true = ap is_over is in
      let (_, empty) = over_empty writer.accepting writer.consumer writer.queue over served.ended in
      let is_empty : queue_is_empty writer.queue ≡ true = ap queue_is_empty empty in
      rw is_empty (
        still-IsServed (started (record writer { queue = [] }))
          (ap (λ c. in_service c ++ commands writer.queue) is ∙ ap commands empty) refl refl
          (λ future pending. pending))

  pub submit-IsServed :
      (command : WriterCommand)
      → (not writer.accepting || is_absent writer.consumer) ≡ false
      → IsServed env s (xs ++ (command ∷ [])) ys (submit writer command).1
  unfolding submit
  submit-IsServed command open_ = rw open_ (record {
    fifo =
        ap (λ l. l ++ (command ∷ [])) served.fifo
        ∙ append_assoc (served_in ys) (in_flight writer) (command ∷ [])
        ∙ ap (λ l. served_in ys ++ l) flight;
    store = served.store;
    ended = ended-append writer.accepting writer.consumer writer.queue command open_ served.ended;
    waiting = λ future pending.
        subst (λ l. contains (map future_of l) future ≡ true) flight
          (sent command future (Dict.get writer.futures future) (in_flight writer)
            (served.waiting future)
            (subst (λ o. is_pending o ≡ true)
              (get-put writer.futures command.future future Future.pending) pending));
  })
    where
      flight :
          in_flight writer ++ (command ∷ [])
          ≡ in_service writer.consumer ++ commands (writer.queue ++ (some command ∷ []))
      flight =
          append_assoc (in_service writer.consumer) (commands writer.queue) (command ∷ [])
          ∙ ap (λ l. in_service writer.consumer ++ l) (sym (commands-append writer.queue command))

  pub shutdown-IsServed : IsServed env s xs ys (shutdown writer)
  unfolding shutdown
  shutdown-IsServed =
      branch-keeps (IsServed env s xs ys) (is_absent writer.consumer) _ _ (λ _. served)
        (λ there.
          branch-keeps (IsServed env s xs ys) writer.accepting _ _
            (λ open_.
              still-IsServed _
                (ap (λ l. in_service writer.consumer ++ l) (sym (commands-sentinel writer.queue)))
                refl
                (ended-sentinel writer.consumer writer.queue there (
                  subst (λ b. well_ended b writer.consumer writer.queue ≡ true) open_ served.ended))
                (λ future pending. pending))
            (λ _. still-IsServed _ refl refl served.ended (λ future pending. pending)))
