-- ===== src/Store/Paging.antt =====
-- `list_events`: the pages that a reader of a run's log is given.
use mathlib.Core.Path.{subst}
use diagops.Base.{
  ℕ, zero, suc, ◌+◌, ◌≤◌, Bool, true, some, List, [], ◌∷◌, ◌≡◌, refl, ok, arith, take, keep, ltb,
  sym,
}
use diagops.Base.Dict
use diagops.Domain.Run.{RuntimeRun}
use diagops.Domain.Event.{RuntimeEvent}
use diagops.Store.State.{Env, Store, log, require_run}
use diagops.Store.Runs.{list_events, is_after}
use diagops.Store.Evolve.{LogStep, Numbered, IsKeyed}
use diagops.Store.Evolve.Parts.{Numbered-append}
use diagops.Store.History.{Call, perform_all, Evolves-perform_all}

abbrev pub drop : ℕ → List RuntimeEvent → List RuntimeEvent
drop zero es = es
drop (suc n) [] = []
drop (suc n) (e ∷ es) = drop n es

keep-all :
    (k n a : ℕ) (es : List RuntimeEvent) → Numbered k n es → a ≤ n → keep (is_after a) es ≡ es
unfolding keep
keep-all k n a [] h le = refl
keep-all k n a (e ∷ es) (number, _, rest) le = ground (arith, keep-all k (suc n) a es rest)

pub keep-drop :
    (k n m a : ℕ) (es : List RuntimeEvent)
    → Numbered k n es
    → a ≡ n + m
    → keep (is_after a) es ≡ drop m es
unfolding keep
keep-drop k n zero a es h at = keep-all k n a es h (omega arith)
keep-drop k n (suc m) a [] h at = refl
keep-drop k n (suc m) a (e ∷ es) (number, _, rest) at =
    let later = keep-drop k (suc n) m a es rest (omega arith) in
    let passed : ltb a e.sequence ≡ Bool.false = ground arith in rw passed later

pub list_events-ok :
    (s : Store) (run_id after limit : ℕ) {page : List RuntimeEvent}
    → list_events s run_id after limit ≡ ok page
    → page ≡ take limit (keep (is_after after) (log s run_id))
unfolding list_events require_run
list_events-ok s run_id after limit h = ground arith

pub list_events-page :
    (s : Store) (run_id after limit : ℕ) (run : RuntimeRun)
    → Dict.get s.runs run_id ≡ some run
    → ltb 0 limit ≡ true
    → Numbered run_id 0 (log s run_id)
    → list_events s run_id after limit ≡ ok (take limit (drop after (log s run_id)))
unfolding list_events require_run
list_events-page s run_id after limit run found positive numbered =
    let page = keep-drop run_id 0 after after (log s run_id) numbered (omega arith) in
    rw (found, positive, page) refl

LogStep-Numbered :
    (k : ℕ) (old new : List RuntimeEvent) → LogStep k old new → Numbered k 0 old → Numbered k 0 new
LogStep-Numbered k old new step h = subst (Numbered k 0) (sym step.appended) (
    Numbered-append k 0 old step.more h
      (subst (λ n. Numbered k n step.more) (omega arith) step.numbered))

-- In a store that holds its runs under their ids and in which the events of a run are numbered from
-- 1, after any calls: a reader who asks for at most `limit` events after number `after`, for a run
-- that is there, gets the log without its first `after` events, cut after `limit`.
pub list_events-pages :
    (env : Env) (calls : List Call) (s : Store) (run_id after limit : ℕ) (run : RuntimeRun)
    → IsKeyed s
    → Numbered run_id 0 (log s run_id)
    → Dict.get (perform_all env s calls).runs run_id ≡ some run
    → ltb 0 limit ≡ true
    → list_events (perform_all env s calls) run_id after limit
      ≡ ok (take limit (drop after (log (perform_all env s calls) run_id)))
list_events-pages env calls s run_id after limit run keyed numbered found positive =
    list_events-page (perform_all env s calls) run_id after limit run found positive (
      LogStep-Numbered run_id (log s run_id) (log (perform_all env s calls) run_id)
        ((Evolves-perform_all env calls s keyed).logs run_id) numbered)
