-- ===== src/Replay/Reading.antt =====
-- `list_all_runtime_events`: the whole log, page after page.
use diagops.Base.{
  ℕ, zero, suc, List, [], ◌∷◌, ◌++◌, Outcome, ok, ltb, leb, ◌||◌, length, ◌>>=◌, if◌then◌else◌,
}
use diagops.Domain.Event.{RuntimeEvent}
use diagops.Store.State.{Store}
use diagops.Store.Runs.{list_events}

-- `page[-1].sequence`
abbrev pub last_sequence : RuntimeEvent → List RuntimeEvent → ℕ
last_sequence event [] = event.sequence
last_sequence event (next ∷ page) = last_sequence next page

-- One page: what `resume` reads after it follows, unless the page is the last one.
abbrev pub add_page :
    ℕ → ℕ → List RuntimeEvent → Outcome (List RuntimeEvent) → Outcome (List RuntimeEvent)
add_page limit after [] rest = ok []
add_page limit after (event ∷ page) rest =
    if leb (last_sequence event page) after || ltb (length (event ∷ page)) limit
    then ok (event ∷ page)
    else (do events ← rest; ok ((event ∷ page) ++ events))

abbrev pub next_after : ℕ → List RuntimeEvent → ℕ
next_after after [] = after
next_after after (event ∷ page) = last_sequence event page

-- `_EVENT_PAGE_SIZE` is `limit`, and `fuel` bounds the number of pages read.
unfoldable pub list_events_from : ℕ → ℕ → Store → ℕ → ℕ → Outcome (List RuntimeEvent)
list_events_from limit zero s run_id after = ok []
list_events_from limit (suc fuel) s run_id after = do
  page ← list_events s run_id after limit
  add_page limit after page (list_events_from limit fuel s run_id (next_after after page))

unfoldable pub list_all_runtime_events : ℕ → Store → ℕ → Outcome (List RuntimeEvent)
unfolding list_events_from
list_all_runtime_events fuel s run_id = list_events_from 500 fuel s run_id 0
