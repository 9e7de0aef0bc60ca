-- ===== src/Hub/Readers.antt =====
-- What a reader of `stream` is given, heartbeats, wake-ups and reconnections included.
use mathlib.Core.List.{append-nil}
use mathlib.Core.Path.{subst}
use diagops.Base.{
  ℕ, ◌+◌, Option, none, some, List, [], ◌∷◌, ◌++◌, map, ◌≡◌, refl, sym, ap, ◌∙◌, length,
  branch-keeps,
}
use diagops.Domain.Event.{RuntimeEvent}
use diagops.Store.State.{Store}
use diagops.Store.Evolve.{Numbered}
use diagops.Store.Paging.{drop}
use diagops.Hub.Stream.{
  catch_up, Turn, disconnected, timed_out, overflowed, woken, is_returned, stream_turns, stream,
}
use diagops.Hub.Slices.{Starts, Starts-append}
use diagops.Hub.CatchUp.{AreEarlier, catch_up-Yields}

-- Without the heartbeats
abbrev pub received : List (Option RuntimeEvent) → List RuntimeEvent
received [] = []
received (none ∷ items) = received items
received (some event ∷ items) = event ∷ received items

abbrev pub TurnsAreEarlier : ℕ → List Turn → List RuntimeEvent → Type 0
TurnsAreEarlier k [] es = Unit
TurnsAreEarlier k (woken stores ∷ turns) es = AreEarlier k stores es × TurnsAreEarlier k turns es
TurnsAreEarlier k (disconnected ∷ turns) es = TurnsAreEarlier k turns es
TurnsAreEarlier k (timed_out ∷ turns) es = TurnsAreEarlier k turns es
TurnsAreEarlier k (overflowed ∷ turns) es = TurnsAreEarlier k turns es

received-map :
    (es : List RuntimeEvent) (items : List (Option RuntimeEvent))
    → received (map some es ++ items) ≡ es ++ received items
received-map [] items = refl
received-map (e ∷ es) items = ap (λ l. e ∷ l) (received-map es items)

stream_turns-Starts :
    (k last : ℕ) (turns : List Turn) (es : List RuntimeEvent)
    → Numbered k 0 es
    → TurnsAreEarlier k turns es
    → Starts (received (stream_turns k last turns)) (drop last es)
unfolding stream_turns
stream_turns-Starts k last [] es numbered earlier = (drop last es, refl)
stream_turns-Starts k last (disconnected ∷ turns) es numbered earlier = (drop last es, refl)
stream_turns-Starts k last (overflowed ∷ turns) es numbered earlier = (drop last es, refl)
stream_turns-Starts k last (timed_out ∷ turns) es numbered earlier =
    stream_turns-Starts k last turns es numbered earlier
stream_turns-Starts k last (woken stores ∷ turns) es numbered (here, earlier) =
    let found = catch_up 500 k last stores in
    let (starts, at) = catch_up-Yields 500 k last stores es numbered here in
    let rest = stream_turns k found.last_sequence turns in
    let next = stream_turns-Starts k found.last_sequence turns es numbered earlier in
    let both : Starts (found.events ++ received rest) (drop last es) =
      Starts-append last found.events (received rest) es starts
        (subst (λ i. Starts (received rest) (drop i es)) at next) in
    branch-keeps (λ items. Starts (received (map some found.events ++ items)) (drop last es))
      (is_returned found.ending) rest []
      (λ _. subst (λ l. Starts l (drop last es)) (sym (received-map found.events rest)) both)
      (λ _.
        subst (λ l. Starts l (drop last es))
          (sym (received-map found.events [] ∙ append-nil found.events)) starts)

-- What one connection from `after` gives, then a second that asks for what comes after the events
-- of the first. Where the events of the run are numbered from 1 and no query has found more than
-- the log is in the end, the two together, heartbeats aside, have given the first events of the log
-- after number `after`, each once and in the order of the log.
pub stream-resumes :
    (k after : ℕ) (stores stores' : List Store) (turns turns' : List Turn) (es : List RuntimeEvent)
    → Numbered k 0 es
    → TurnsAreEarlier k (woken stores ∷ turns) es
    → TurnsAreEarlier k (woken stores' ∷ turns') es
    → Starts
        (received (stream k after stores turns)
          ++ received
              (stream k (after + length (received (stream k after stores turns))) stores' turns'))
        (drop after es)
unfolding stream
stream-resumes k after stores stores' turns turns' es numbered earlier earlier' =
    let first = received (stream k after stores turns) in
    Starts-append after first (received (stream k (after + length first) stores' turns')) es
      (stream_turns-Starts k after (woken stores ∷ turns) es numbered earlier)
      (stream_turns-Starts k (after + length first) (woken stores' ∷ turns') es numbered earlier')
