-- ===== src/Examples/Hubs.antt =====
-- A hub with two subscribers, and readers of a log of three events.
use diagops.Base.{ℕ, ◌+◌, ◌-◌, ◌<◌, none, some, List, [], ◌∷◌, ◌++◌, ◌≡◌, refl, ok, arith, length}
use diagops.Base.Dict
use diagops.Base.Dict.{get-put, get-empty}
use diagops.Domain.Names.{EventType, ActorType}
use diagops.Domain.Event.{RuntimeEvent, empty_payload}
use diagops.Store.State.{Store, log}
use diagops.Store.Evolve.{Numbered}
use diagops.Store.Paging.{drop}
use diagops.Hub.Defs.{EventHub, new_hub, subscribe, publish, run_scheduled, get}
use diagops.Hub.Moves.{Moves, subscribed, published, ran, read, stay, then_move}
use diagops.Hub.Bounded.{IsSound}
use diagops.Hub.Soundness.{Moves-IsSound}
use diagops.Hub.Stream.{catch_up, timed_out, woken, stream}
use diagops.Hub.Slices.{Starts}
use diagops.Hub.CatchUp.{IsEarlier}
use diagops.Hub.Complete.{Completes, unchanged, catch_up-Completes}
use diagops.Hub.Readers.{received, stream-resumes}
use diagops.Replay.Reading.{list_events_from}
use diagops.Replay.Whole.{list_events_from-log}
use diagops.Examples.{new_run, ready}

abbrev event : ℕ → RuntimeEvent
event sequence = record {
  run_id = 5;
  attempt_id = 7;
  sequence = sequence;
  event_type = EventType.model_started;
  phase = none;
  actor_type = ActorType.model;
  actor_name = none;
  task_id = none;
  tool_call_id = none;
  execution_id = none;
  evidence_ids = [];
  schema_version = 1;
  safe_payload = empty_payload;
}

abbrev events : List RuntimeEvent
events = event 1 ∷ event 2 ∷ event 3 ∷ []

-- The bound of the queues is 1.
abbrev hub : EventHub
hub = record { max_queue_size = 1; subscribers = Dict.empty; objects = Dict.empty; scheduled = [] }

made : new_hub 1 ≡ ok hub
unfolding new_hub
made = refl

abbrev two : EventHub
two = subscribe (subscribe hub 5 20) 5 21

abbrev full : EventHub
full = run_scheduled (run_scheduled (run_scheduled (publish two (event 1 ∷ event 2 ∷ []))))

fresh_first : Dict.get hub.objects 20 ≡ none
fresh_first = get-empty 20

fresh_second : Dict.get (subscribe hub 5 20).objects 21 ≡ none
unfolding subscribe Dict.get Dict.put Dict.empty
fresh_second = refl

moves : Moves hub (get full 21).1
moves = then_move (subscribed 5 20 fresh_first) (
    then_move (subscribed 5 21 fresh_second) (
      then_move (published (event 1 ∷ event 2 ∷ []))
        (then_move ran (then_move ran (then_move ran (then_move (read 21) stay))))))

Moves-IsSound_example : IsSound 1 (get full 21).1
Moves-IsSound_example = Moves-IsSound 1 hub (get full 21).1 made moves

abbrev logged : Store
logged = record ready { events = Dict.put Dict.empty 5 events }

found : Dict.get logged.runs 5 ≡ some new_run
unfolding Dict.get Dict.put Dict.empty
found = refl

its_log : log logged 5 ≡ events
unfolding log Dict.get Dict.put Dict.empty
its_log = refl

events-Numbered : Numbered 5 0 events
events-Numbered = omega arith

log-Numbered : Numbered 5 0 (log logged 5)
log-Numbered = rw its_log events-Numbered

remaining : length (log logged 5) - 1 < 4
remaining = rw its_log (omega arith)

catch_up-Completes_example : Completes 1 (log logged 5) (catch_up 2 5 1 (unchanged 4 logged))
catch_up-Completes_example =
    catch_up-Completes 2 5 1 4 logged new_run (omega arith) found log-Numbered remaining

list_events_from-log_example : list_events_from 2 4 logged 5 1 ≡ ok (drop 1 (log logged 5))
list_events_from-log_example =
    list_events_from-log 2 4 logged 5 1 new_run (omega arith) found log-Numbered remaining

ready-IsEarlier : IsEarlier 5 ready events
unfolding log Dict.get Dict.put Dict.empty
ready-IsEarlier = (events, refl)

logged-IsEarlier : IsEarlier 5 logged events
unfolding log Dict.get Dict.put Dict.empty
logged-IsEarlier = ([], refl)

stream-resumes_example :
    Starts
      (received (stream 5 0 (ready ∷ []) (timed_out ∷ woken (logged ∷ []) ∷ []))
        ++ received (
            stream 5
              (0
                + length
                    (received (stream 5 0 (ready ∷ []) (timed_out ∷ woken (logged ∷ []) ∷ []))))
              (logged ∷ [])
              []))
      (drop 0 events)
stream-resumes_example =
    stream-resumes 5 0 (ready ∷ []) (logged ∷ []) (timed_out ∷ woken (logged ∷ []) ∷ []) [] events
      events-Numbered ((ready-IsEarlier, tt), ((logged-IsEarlier, tt), tt))
      ((logged-IsEarlier, tt), tt)
