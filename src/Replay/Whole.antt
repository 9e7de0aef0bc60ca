-- ===== src/Replay/Whole.antt =====
-- `list_all_runtime_events` against the log of the run.
use mathlib.Core.List.{append-nil}
use mathlib.Core.Path.{subst}
use diagops.Base.{
  ℕ, zero, suc, some, ◌+◌, ◌-◌, ◌<◌, false, List, [], ◌∷◌, ◌++◌, ◌≡◌, refl, sym, ap, ◌∙◌, ltb, leb,
  length, take, Outcome, ok, arith, branch-keeps,
}
use diagops.Base.Dict
use diagops.Domain.Run.{RuntimeRun}
use diagops.Domain.Event.{RuntimeEvent}
use diagops.Store.State.{Store, log}
use diagops.Store.Runs.{list_events}
use diagops.Store.Evolve.{Numbered}
use diagops.Store.Paging.{drop, list_events-page}
use diagops.Hub.Slices.{Numbered-take, Numbered-drop, drop-piece, page-Starts}
use diagops.Hub.Complete.{take-all, length-take, length-drop, length-take_le}
use diagops.Replay.Reading.{last_sequence, add_page, next_after, list_events_from}

last_sequence-Numbered :
    (k n : ℕ) (event : RuntimeEvent) (page : List RuntimeEvent)
    → Numbered k n (event ∷ page)
    → last_sequence event page ≡ n + length (event ∷ page)
last_sequence-Numbered k n event [] (number, _, _) = omega arith
last_sequence-Numbered k n event (next ∷ page) (_, _, rest) =
    let later = last_sequence-Numbered k (suc n) next page rest in omega arith

next_after-Numbered :
    (k n : ℕ) (page : List RuntimeEvent) → Numbered k n page → next_after n page ≡ n + length page
next_after-Numbered k n [] h = omega arith
next_after-Numbered k n (event ∷ page) h = last_sequence-Numbered k n event page h

-- A page and what is read after it make up all that was left.
add_page-all :
    (limit k after : ℕ) (page es : List RuntimeEvent) (rest : Outcome (List RuntimeEvent))
    → 0 < limit
    → Numbered k after page
    → page ≡ take limit es
    → (0 < length page → (later : List RuntimeEvent) × (rest ≡ ok later) × (es ≡ page ++ later))
    → add_page limit after page rest ≡ ok es
add_page-all limit k after [] es rest positive numbered is more =
    ap ok (sym (length-take limit es (sym (ap length is)) positive))
add_page-all limit k after (event ∷ page) es rest positive numbered is more =
    let last = last_sequence-Numbered k after event page numbered in
    let newer : leb (last_sequence event page) after ≡ false = ground arith in
    let (later, read, whole) = more (omega arith) in
    let size = ap length is in
    rw newer (
      branch-keeps (λ o. o ≡ ok es) (ltb (length (event ∷ page)) limit) _ _
        (λ short. ap ok (is ∙ take-all limit es (ground arith))) (λ _. rw read (ap ok (sym whole))))

-- For a run that is there whose log is numbered from 1, with pages of at least one event: reading
-- from number `after` on gives the log's events after it, if more pages may be read than there are
-- such events. For pages of 500 from 0 on this is what `list_all_runtime_events` does.
pub list_events_from-log :
    (limit fuel : ℕ) (s : Store) (k after : ℕ) (run : RuntimeRun)
    → 0 < limit
    → Dict.get s.runs k ≡ some run
    → Numbered k 0 (log s k)
    → length (log s k) - after < fuel
    → list_events_from limit fuel s k after ≡ ok (drop after (log s k))
unfolding list_events_from
list_events_from-log limit zero s k after run positive found numbered enough = absurd (omega arith)
list_events_from-log limit (suc fuel) s k after run positive found numbered enough =
    let rest_of = drop after (log s k) in
    let page = take limit rest_of in
    let answer : list_events s k after limit ≡ ok page =
      list_events-page s k after limit run found (ground arith) numbered in
    let from : Numbered k after page = Numbered-take k after limit rest_of (
      subst (λ i. Numbered k i rest_of) (omega arith)
        (Numbered-drop k 0 after (log s k) numbered)) in
    let size = length-drop after (log s k) in
    let short = length-take_le limit rest_of in
    let starts =
      subst (λ l. (rest : List RuntimeEvent) × (drop after l ≡ page ++ rest)) (append-nil (log s k))
        (page-Starts limit after (log s k) []) in
    rw (answer, next_after-Numbered k after page from)
      (add_page-all limit k after page rest_of _ positive from refl (λ some_event. (
        drop (after + length page) (log s k),
        list_events_from-log limit fuel s k (after + length page) run positive found numbered
            (omega arith),
        drop-piece after page (log s k) starts,
      )))
