-- ===== src/Hub/Stream.antt =====
-- `stream`: a reader catches up with the durable events, and again whenever a live event wakes it.
use diagops.Base.{
  ℕ, Bool, true, false, List, [], ◌∷◌, ◌++◌, map, Option, none, some, ◌||◌, ◌==◌, ltb, leb, length,
  Outcome, ok, err, Error, if◌then◌else◌,
}
use diagops.Domain.Event.{RuntimeEvent}
use diagops.Store.State.{Store}
use diagops.Store.Runs.{list_events}

-- `sorted(batch, key=lambda item: item.sequence)`, which is stable
unfoldable pub insert_by_sequence : RuntimeEvent → List RuntimeEvent → List RuntimeEvent
insert_by_sequence e [] = e ∷ []
insert_by_sequence e (x ∷ xs) =
    let later = insert_by_sequence e xs in
    if leb e.sequence x.sequence then e ∷ (x ∷ xs) else x ∷ later

unfoldable pub sorted : List RuntimeEvent → List RuntimeEvent
unfolding insert_by_sequence
sorted [] = []
sorted (e ∷ es) = insert_by_sequence e (sorted es)

-- The `for` loop: what it yields, and `last_sequence` after it.
unfoldable pub yield_from : ℕ → List RuntimeEvent → List RuntimeEvent × ℕ
yield_from last_sequence [] = ([], last_sequence)
yield_from last_sequence (event ∷ ordered) =
    let rest = yield_from event.sequence ordered in
    let skipped = yield_from last_sequence ordered in
    if leb event.sequence last_sequence then skipped else (event ∷ rest.0, rest.1)

-- `returned` where the loop has returned, `waiting` where it has a query left to make.
pub data Ending : Type 0 where
  returned waiting : Ending
  raised : Error → Ending

pub record CatchUp : Type 0 where
  pub events : List RuntimeEvent
  pub last_sequence : ℕ
  pub ending : Ending

abbrev pub add_events : List RuntimeEvent → CatchUp → CatchUp
add_events events more = record more { events = events ++ more.events }

-- One round: `resume` is the rest of the loop.
abbrev pub query : ℕ → ℕ → Outcome (List RuntimeEvent) → (ℕ → CatchUp) → CatchUp
query limit last_sequence (err e) resume = record {
  events = [];
  last_sequence = last_sequence;
  ending = raised e;
}
query limit last_sequence (ok batch) resume =
    let delivered = yield_from last_sequence (sorted batch) in
    if ltb (length batch) limit || length delivered.0 == 0
    then record { events = delivered.0; last_sequence = delivered.1; ending = returned }
    else add_events delivered.0 (resume delivered.1)

-- `catch_up`, whose queries find the store in the given states, with pages of `limit` events
unfoldable pub catch_up : ℕ → ℕ → ℕ → List Store → CatchUp
unfolding yield_from sorted
catch_up limit run_id last_sequence [] = record {
  events = [];
  last_sequence = last_sequence;
  ending = waiting;
}
catch_up limit run_id last_sequence (s ∷ stores) =
    query limit last_sequence (list_events s run_id last_sequence limit)
      (λ last. catch_up limit run_id last stores)

-- What a turn of the loop of `stream` meets.
pub data Turn : Type 0 where
  disconnected timed_out overflowed : Turn
  woken : List Store → Turn

abbrev pub is_returned : Ending → Bool
is_returned returned = true
is_returned _ = false

-- What `stream` yields; a heartbeat is `none`.
unfoldable pub stream_turns : ℕ → ℕ → List Turn → List (Option RuntimeEvent)
stream_turns run_id last_sequence [] = []
stream_turns run_id last_sequence (disconnected ∷ turns) = []
stream_turns run_id last_sequence (overflowed ∷ turns) = []
stream_turns run_id last_sequence (timed_out ∷ turns) =
    none ∷ stream_turns run_id last_sequence turns
stream_turns run_id last_sequence (woken stores ∷ turns) =
    let found = catch_up 500 run_id last_sequence stores in
    let rest = stream_turns run_id found.last_sequence turns in
    map some found.events ++ (if is_returned found.ending then rest else [])

-- `stream`; `stores` is what the first catch-up finds.
unfoldable pub stream : ℕ → ℕ → List Store → List Turn → List (Option RuntimeEvent)
unfolding stream_turns
stream run_id after stores turns = stream_turns run_id after (woken stores ∷ turns)
