-- ===== src/Store/Uniqueness.antt =====
-- `_ACTIVE_LIVE_STATUSES`: the active live runs of an investigation.
use mathlib.Core.Path.{subst}
use diagops.Base.{
  ℕ, true, false, none, some, List, [], ◌∷◌, ◌≡◌, refl, sym, ◌∙◌, ap, ◌⊎◌, Outcome, ok, err, inl,
  inr, arith, any,
}
use diagops.Base.Dict
use diagops.Base.Dict.{Dict, get-put, any-values-get}
use diagops.Domain.Run.{RuntimeRun}
use diagops.Store.State.{Env, Store}
use diagops.Store.Runs.{
  create_run, create_checked, freeze_created, check_new_run, stored_run, is_active_live, competes,
}
use diagops.Store.Evolve.{RunFacts, Evolves, IsKeyed}
use diagops.Store.History.{Call, perform, perform-EvolvesOnce}
use diagops.Store.Evolve.Parts.{Evolves-source, Evolves-IsKeyed, Evolves-any}

-- No two live runs of one investigation are active.
abbrev pub IsOneActive : Dict RuntimeRun → Type 0
IsOneActive runs =
    (k j : ℕ) (r q : RuntimeRun)
    → Dict.get runs k ≡ some r
    → Dict.get runs j ≡ some q
    → is_active_live r ≡ true
    → is_active_live q ≡ true
    → r.investigation_id ≡ q.investigation_id
    → k ≡ j

was_active :
    {r r' : RuntimeRun} → RunFacts none r r' → is_active_live r' ≡ true → is_active_live r ≡ true
was_active {r} {r'} facts h = let moved = facts.status in let kind = facts.run_kind in ground arith

Evolves-IsOneActive : {s s' : Store} → Evolves none s s' → IsOneActive s.runs → IsOneActive s'.runs
Evolves-IsOneActive e one k j r q at_k at_j live_r live_q together =
    let (r0, from_k, was_r) = Evolves-source k e at_k in
    let (q0, from_j, was_q) = Evolves-source j e at_j in
    one k j r0 q0 from_k from_j (was_active was_r live_r) (was_active was_q live_q)
      (sym was_r.investigation_id ∙ together ∙ was_q.investigation_id)

freeze_created-runs :
    (env : Env) (s : Store) (run : RuntimeRun) → (freeze_created env s run).1.runs ≡ s.runs
freeze_created-runs env s run = ground arith

module _ (s : Store) (run : RuntimeRun) (checked : check_new_run s run ≡ ok tt) where
  none_competes :
      (j : ℕ) (q : RuntimeRun)
      → Dict.get s.runs j ≡ some q
      → is_active_live run ≡ true
      → competes run q ≡ false
  unfolding check_new_run
  none_competes j q found live =
      let quiet : any (competes run) (Dict.values s.runs) ≡ false = ground arith in
      any-values-get (competes run) s.runs j q quiet found

  new_or_old :
      (k : ℕ) (r : RuntimeRun)
      → Dict.get (Dict.put s.runs run.id run) k ≡ some r
      → ((run.id ≡ k) × (r ≡ run)) ⊎ (Dict.get s.runs k ≡ some r)
  new_or_old k r found = let got = rw get-put at found in ground arith

  new_is_alone :
      (j : ℕ) (r q : RuntimeRun)
      → r ≡ run
      → Dict.get s.runs j ≡ some q
      → is_active_live r ≡ true
      → is_active_live q ≡ true
      → r.investigation_id ≡ q.investigation_id
      → ⊥
  new_is_alone j r q new found live_r live_q together =
      let live : is_active_live run ≡ true = rw new at live_r in
      let same_inv : run.investigation_id ≡ q.investigation_id = rw new at together in
      let quiet = none_competes j q found live in ground arith

  created-IsOneActive : IsOneActive s.runs → IsOneActive (Dict.put s.runs run.id run)
  created-IsOneActive one k j r q at_k at_j live_r live_q together = elim (new_or_old k r at_k) [
    | inl (here, new) ↦ elim (new_or_old j q at_j) [
      | inl (there, _) ↦ sym here ∙ there
      | inr found ↦ absurd (new_is_alone j r q new found live_r live_q together)
    ]
    | inr old ↦ elim (new_or_old j q at_j) [
      | inl (_, new) ↦ absurd (new_is_alone k q r new old live_q live_r (sym together))
      | inr found ↦ one k j r q old found live_r live_q together
    ]
  ]

  created-IsKeyed :
      ((k : ℕ) (r : RuntimeRun) → Dict.get s.runs k ≡ some r → r.id ≡ k)
      → (k : ℕ) (r : RuntimeRun) → Dict.get (Dict.put s.runs run.id run) k ≡ some r
      → r.id ≡ k
  created-IsKeyed keyed k r found = elim (new_or_old k r found) [
    | inl (here, new) ↦ ap (λ x. x.id) new ∙ here
    | inr old ↦ keyed k r old
  ]

-- Runs are stored under their ids, and an investigation has one active live run at most.
abbrev pub IsTidy : Store → Type 0
IsTidy s = IsKeyed s × IsOneActive s.runs

create_checked-IsTidy :
    (env : Env) (s : Store) (run : RuntimeRun) (o : Outcome (Unit {0}))
    → check_new_run s run ≡ o
    → IsTidy s
    → IsTidy (create_checked env s run o).1
create_checked-IsTidy env s run (err e) p tidy = tidy
create_checked-IsTidy env s run (ok tt) p (keyed, one) =
    let same_runs = freeze_created-runs env (stored_run s run) run in
    unfold stored_run in
    (
      subst (λ d. (k : ℕ) (r : RuntimeRun) → Dict.get d k ≡ some r → r.id ≡ k) (sym same_runs)
          (created-IsKeyed s run p keyed),
      subst IsOneActive (sym same_runs) (created-IsOneActive s run p one),
    )

pub data Activity : Type 0 where
  creating : RuntimeRun → Activity
  calling : Call → Activity

-- The store after any sequence of runs created and calls made, of which any may raise.
unfoldable pub act_all : Env → Store → List Activity → Store
act_all env s [] = s
act_all env s (Activity.creating run ∷ rest) = act_all env (create_run env s run).1 rest
act_all env s (Activity.calling call ∷ rest) = act_all env (perform env s call) rest

create_run-IsTidy :
    (env : Env) (s : Store) (run : RuntimeRun) → IsTidy s → IsTidy (create_run env s run).1
unfolding create_run
create_run-IsTidy env s run tidy = create_checked-IsTidy env s run (check_new_run s run) refl tidy

perform-IsTidy : (env : Env) (s : Store) (call : Call) → IsTidy s → IsTidy (perform env s call)
perform-IsTidy env s call (keyed, one) =
    let (_, once) = perform-EvolvesOnce env s call keyed in
    let evolved = Evolves-any once in
    (Evolves-IsKeyed evolved keyed, Evolves-IsOneActive evolved one)

-- Whatever runs are created and whatever calls are made, in any order and whether they return or
-- raise: if runs are stored under their ids and no investigation has two live runs that are created,
-- running, cancelling or interrupted, both still hold afterwards.
pub act_all-IsTidy :
    (env : Env) (activities : List Activity) (s : Store)
    → IsTidy s
    → IsTidy (act_all env s activities)
unfolding act_all
act_all-IsTidy env [] s tidy = tidy
act_all-IsTidy env (Activity.creating run ∷ rest) s tidy =
    act_all-IsTidy env rest (create_run env s run).1 (create_run-IsTidy env s run tidy)
act_all-IsTidy env (Activity.calling call ∷ rest) s tidy =
    act_all-IsTidy env rest (perform env s call) (perform-IsTidy env s call tidy)
