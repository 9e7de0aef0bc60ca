-- ===== src/Store/Turns.antt =====
-- `reserve_model_turn`: how many model turns a run can reserve.
use diagops.Base.{
  ℕ, suc, ◌-◌, ◌≤◌, Option, some, List, [], ◌∷◌, ◌≡◌, refl, sym, ◌∙◌, ap, Outcome, ok, ◌>>=◌, arith,
  length, ◌==◌, true,
}
use diagops.Base.Dict
use diagops.Base.Dict.{get-put}
use diagops.Domain.Run.{RuntimeRun}
use diagops.Store.State.{Store}
use diagops.Store.Leases.{reserve_model_turn}
use diagops.Store.Evolve.Fenced.{reserve_model_turn-ok}

-- One reservation after another, at the given instants.
unfoldable pub reserve_all : Store → ℕ → ℕ → ℕ → List ℕ → Outcome Store
reserve_all s run_id owner version [] = ok s
reserve_all s run_id owner version (now ∷ nows) = do
  reserved ← reserve_model_turn s run_id owner version now
  reserve_all reserved.1 run_id owner version nows

reserve_all-cons :
    (s : Store) (run_id owner version now : ℕ) (nows : List ℕ) {s' : Store}
    → reserve_all s run_id owner version (now ∷ nows) ≡ ok s'
    → (r : ℕ × Store) × (reserve_model_turn s run_id owner version now ≡ ok r)
      × (reserve_all r.1 run_id owner version nows ≡ ok s')
unfolding reserve_all
reserve_all-cons s run_id owner version now nows h = ground arith

abbrev with_turns : Option ℕ → RuntimeRun → RuntimeRun
with_turns turns run = record run { remaining_model_turns = turns }

-- A reservation takes one turn off what remains.
reserve_model_turn-get :
    (s : Store) (run_id owner version now : ℕ) (run : RuntimeRun) {turns : ℕ} {s1 : Store}
    → Dict.get s.runs run_id ≡ some run
    → reserve_model_turn s run_id owner version now ≡ ok (turns, s1)
    → (run.remaining_model_turns ≡ some (suc turns))
      × (Dict.get s1.runs run_id ≡ some (record run { remaining_model_turns = some turns }))
reserve_model_turn-get s run_id owner version now run {turns} found h =
    let (r, at, left, final) = reserve_model_turn-ok s run_id owner version now h in
    let it : r ≡ run = cc in
    let here : (run_id == run_id) ≡ true = ground arith in
    (
      ap (λ q. q.remaining_model_turns) (sym it) ∙ left,
      rw (final, get-put, here) (ap (λ q. some (with_turns (some turns) q)) it),
    )

-- If model turns of a run are reserved one after another and none is refused, there are at most as
-- many as the run had left, and what it has left then is the difference; nothing else of it changes.
pub reserve_all-bounded :
    (s : Store) (run_id owner version : ℕ) (nows : List ℕ) (run : RuntimeRun) (turns : ℕ)
    (s' : Store)
    → Dict.get s.runs run_id ≡ some run
    → run.remaining_model_turns ≡ some turns
    → reserve_all s run_id owner version nows ≡ ok s'
    → (length nows ≤ turns)
      × (Dict.get s'.runs run_id
          ≡ some (record run { remaining_model_turns = some (turns - length nows) }))
reserve_all-bounded s run_id owner version [] run turns s' found left h =
    let same_store : s ≡ s' = unfold reserve_all in ground arith in
    let none_spent : turns - 0 ≡ turns = omega arith in
    let kept : some (with_turns run.remaining_model_turns run)
        ≡ some (with_turns (some (turns - 0)) run) =
      ap (λ o. some (with_turns o run)) (left ∙ ap some (sym none_spent)) in
    (omega arith, rw (sym same_store) (found ∙ kept))
reserve_all-bounded s run_id owner version (now ∷ nows) run turns s' found left h =
    let ((t, s1), one, rest) = reserve_all-cons s run_id owner version now nows h in
    let (had, after) = reserve_model_turn-get s run_id owner version now run found one in
    let (bound, final) =
      reserve_all-bounded s1 run_id owner version nows
        (record run { remaining_model_turns = some t }) t s' after refl rest in
    let more : turns ≡ suc t = ground arith in
    let spent : turns - suc (length nows) ≡ t - length nows = omega arith in
    (omega arith, rw spent final)
